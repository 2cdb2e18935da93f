-- ===== src/Sessions/Quiet.antt =====
-- While the handler restores, or the character is camped, a change of the timers writes nothing.
use nparse_plus.Prelude.{ℕ, ◌+◌, ◌≡◌, refl, ap, ◌∙◌, Bool, true, false, ◌||◌, some, length, arith}
use nparse_plus.Text.{Text}
use nparse_plus.Timers.Service.{Timers}
use nparse_plus.Timers.Removals.{remove_self_rows}
use nparse_plus.Timers.Restore.{restore_you_spells, restore_self_cooldowns, restore_self_counters}
use nparse_plus.Sessions.Profiles.{
  PlayerInfo, find_player, get_player, find-get_player, find-write_player, get-find_player,
  KeepsKey,
}
use nparse_plus.Sessions.TimerPersistence.{
  Moment, Session, profile_key, anchor_or, snapshot, export_now, on_timers_changed, operate,
  restore_self_rows, on_camp, on_welcome, camp_as, welcome_as, with_profile,
}

abbrev pub with_timers : Timers → Session → Session
with_timers t s = record s { timers = t }

pub operate_quiet :
    (m : Moment) (op : Timers → Timers) (s : Session)
    → (s.restoring || s.camped) ≡ true
    → operate m op s ≡ with_timers (op s.timers) s
unfolding operate on_timers_changed
operate_quiet m op s h = ground arith

pub export_now_quiet :
    (m : Moment) (now : ℕ) (s : Session) → (s.restoring || s.camped) ≡ true → export_now m now s ≡ s
unfolding export_now
export_now_quiet m now s h = rw h refl

-- The timers after the three restores of the rows of one's own.
abbrev pub restored : Moment → PlayerInfo → Timers → Timers
restored m info t =
    let t1 =
      restore_you_spells info.you_spells m.now m.spells m.player.player_class m.player.level
        m.new_id t in
    let id1 = m.new_id + length info.you_spells in
    let t2 = restore_self_cooldowns info.you_cooldowns m.now m.spells id1 t1 in
    restore_self_counters info.you_counters m.now (id1 + length info.you_cooldowns) t2

operate3_quiet :
    (m : Moment) (op op' op'' : Timers → Timers) (s : Session)
    → (s.restoring || s.camped) ≡ true
    → operate m op'' (operate m op' (operate m op s)) ≡ with_timers (op'' (op' (op s.timers))) s
operate3_quiet m op op' op'' s h =
    ap (λ x. operate m op'' (operate m op' x)) (operate_quiet m op s h)
    ∙ ap (operate m op'') (operate_quiet m op' (with_timers (op s.timers) s) h)
    ∙ operate_quiet m op'' (with_timers (op' (op s.timers)) s) h

pub restore_self_rows_quiet :
    (m : Moment) (info : PlayerInfo) (s : Session)
    → (s.restoring || s.camped) ≡ true
    → restore_self_rows m info s ≡ with_timers (restored m info s.timers) s
unfolding restore_self_rows
restore_self_rows_quiet m info s h =
    operate3_quiet m
      (restore_you_spells info.you_spells m.now m.spells m.player.player_class m.player.level
        m.new_id)
      (restore_self_cooldowns info.you_cooldowns m.now m.spells (m.new_id + length info.you_spells))
      (restore_self_counters info.you_counters m.now
        (m.new_id + length info.you_spells + length info.you_cooldowns))
      s h

-- An export leaves the timers alone, and the flags.
pub export_now-timers :
    (m : Moment) (now : ℕ) (s : Session) → (export_now m now s).timers ≡ s.timers
unfolding export_now
export_now-timers m now s = ground arith

pub export_now-camped :
    (m : Moment) (now : ℕ) (s : Session) → (export_now m now s).camped ≡ s.camped
unfolding export_now
export_now-camped m now s = ground arith

pub export_now-restoring :
    (m : Moment) (now : ℕ) (s : Session) → (export_now m now s).restoring ≡ s.restoring
unfolding export_now
export_now-restoring m now s = ground arith

pub snapshot-KeepsKey : (now : ℕ) (t : Timers) → KeepsKey (snapshot now t)
unfolding snapshot
snapshot-KeepsKey now t p = (refl, refl)

-- What an export that is not suppressed writes.
pub export_now-players :
    (m : Moment) (now : ℕ) (s : Session) (name server : Text)
    → profile_key m.player ≡ some (name, server)
    → (s.restoring || s.camped) ≡ false
    → find_player name server (export_now m now s).players
      ≡ some (snapshot (anchor_or m.log_clock now) s.timers (get_player name server s.players).0)
unfolding export_now
export_now-players m now s name server k h =
    rw (h, k)
      (find-write_player name server (snapshot (anchor_or m.log_clock now) s.timers)
        (get_player name server s.players).0 (get_player name server s.players).1
        (snapshot-KeepsKey (anchor_or m.log_clock now) s.timers)
        (find-get_player name server s.players))

or_true : (b : Bool) → (b || true) ≡ true
or_true true = refl
or_true false = refl

module _ (m : Moment) (name server : Text) (k : profile_key m.player ≡ some (name, server)) where
  pub on_camp-some : (s : Session) → on_camp m s ≡ camp_as m name server s
  on_camp-some s = unfold on_camp in ap (λ o. with_profile o s (λ n v. camp_as m n v s)) k

  pub on_welcome-some : (s : Session) → on_welcome m s ≡ welcome_as m name server s
  on_welcome-some s = unfold on_welcome in ap (λ o. with_profile o s (λ n v. welcome_as m n v s)) k

  -- The session at the removal of a camp.
  abbrev at_camp : Session → Session
  at_camp s =
      record (export_now m m.now (record s { players = (get_player name server s.players).1 })) {
        camped = true;
      }

  camp_as-quiet :
      (s : Session)
      → camp_as m name server s ≡ with_timers (remove_self_rows (at_camp s).timers).0 (at_camp s)
  camp_as-quiet s = operate_quiet m (λ t. (remove_self_rows t).0) (at_camp s) (or_true _)

  exported_again :
      (s : Session)
      → (s.restoring || s.camped) ≡ false
      → find_player name server (at_camp s).players
        ≡ some
            (snapshot (anchor_or m.log_clock m.now) s.timers (get_player name server s.players).0)
  exported_again s h =
      let players = (get_player name server s.players).1 in
      export_now-players m m.now (record s { players = players }) name server k h
      ∙ ap (λ g. some (snapshot (anchor_or m.log_clock m.now) s.timers g.0))
          (get-find_player name server (get_player name server s.players).0 players
            (find-get_player name server s.players))

  -- A camp: the profile holds the rows of that moment, and the handler is camped.
  pub on_camp_lem :
      (s : Session)
      → (s.restoring || s.camped) ≡ false
      → ((on_camp m s).camped ≡ true)
        × (find_player name server (on_camp m s).players
            ≡ some (
                snapshot
                  (anchor_or m.log_clock m.now)
                  s.timers
                  (get_player name server s.players).0))
  on_camp_lem s h =
      let e = on_camp-some s ∙ camp_as-quiet s in
      (ap (λ x. x.camped) e, ap (λ x. find_player name server x.players) e ∙ exported_again s h)

  -- The session before the last export of a login.
  abbrev logged_in : Session → Session
  logged_in s =
      let (info, players) = get_player name server s.players in
      record s {
        timers = restored m info (remove_self_rows s.timers).0;
        players = players;
        restoring = false;
        camped = false;
      }

  welcome_as-quiet : (s : Session) → welcome_as m name server s ≡ export_now m m.later (logged_in s)
  welcome_as-quiet s =
      let (info, players) = get_player name server s.players in
      let s1 : Session = record s { players = players; restoring = true } in
      let finish : Session → Session =
        λ x. export_now m m.later (record x { restoring = false; camped = false }) in
      ap (λ x. finish (restore_self_rows m info x))
        (operate_quiet m (λ t. (remove_self_rows t).0) s1 refl)
      ∙ ap finish
          (restore_self_rows_quiet m info (with_timers (remove_self_rows s1.timers).0 s1) refl)

  -- A login: the rows are those of the profile, behind what is not the character's own.
  pub on_welcome-timers :
      (s : Session)
      → ((on_welcome m s).timers
          ≡ restored m (get_player name server s.players).0 (remove_self_rows s.timers).0)
        × ((on_welcome m s).camped ≡ false)
        × ((on_welcome m s).restoring ≡ false)
  on_welcome-timers s =
      let e = on_welcome-some s ∙ welcome_as-quiet s in
      (
        ap (λ x. x.timers) e ∙ export_now-timers m m.later (logged_in s),
        ap (λ x. x.camped) e ∙ export_now-camped m m.later (logged_in s),
        ap (λ x. x.restoring) e ∙ export_now-restoring m m.later (logged_in s),
      )
