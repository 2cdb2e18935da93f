-- ===== src/Sessions/Others.antt =====
-- No event of one character touches the profile of another.
use nparse_plus.Prelude.{
  ℕ, ◌+◌, length, ◌≡◌, refl, ◌∙◌, Bool, true, false, ◌||◌, Option, none, some, if◌then◌else◌,
}
use nparse_plus.Text.{Text}
use nparse_plus.Timers.Service.{Timers}
use nparse_plus.Timers.Removals.{remove_self_rows, remove_group}
use nparse_plus.Sessions.Profiles.{
  PlayerInfo, find_player, get_player, find-get_player_other, find-write_player_other, Others,
}
use nparse_plus.Sessions.TimerPersistence.{
  Moment, Session, profile_key, snapshot, anchor_or, export_now, export_as, on_timers_changed,
  operate, restore_self_rows, restore_respawns, mob_timer_group, on_camp, camp_as, on_welcome,
  welcome_as, on_before_player_changed, on_after_player_changed, change_to, finish_change,
  with_profile,
}
use nparse_plus.Sessions.Quiet.{snapshot-KeepsKey}

-- The events of the handler: a change of the timers, the four events of the bus.
pub data Event : Type 0 where
  timers_change : (Timers → Timers) → Event
  camp welcome before_player_changed after_player_changed : Event

unfoldable pub handle : Event → Moment → Session → Session
handle (timers_change op) m s = operate m op s
handle camp m s = on_camp m s
handle welcome m s = on_welcome m s
handle before_player_changed m s = on_before_player_changed m s
handle after_player_changed m s = (on_after_player_changed m s).0

module _ (name server : Text) where
  -- The active character, if there is one, is not this one.
  abbrev pub IsAway : Option (Text × Text) → Type 0
  IsAway none = Unit
  IsAway (some (n, v)) = Others n v name server

  abbrev Keeps : Session → Session → Type 0
  Keeps s s' = find_player name server s'.players ≡ find_player name server s.players

  -- What a character with a profile does keeps another's.
  Keeps-with_profile :
      (k : Option (Text × Text)) (s x : Session) (f : Text → Text → Session)
      → IsAway k
      → Keeps s x
      → ((n v : Text) → Others n v name server → Keeps s (f n v))
      → Keeps s (with_profile k x f)
  Keeps-with_profile none s x f a z h = z
  Keeps-with_profile (some (n, v)) s x f a z h = h n v a

  Keeps-with_profile_0 :
      (k : Option (Text × Text)) (s : Session) (f : Text → Text → Session × Bool)
      → IsAway k
      → ((n v : Text) → Others n v name server → Keeps s (f n v).0)
      → Keeps s (with_profile k (s, false) f).0
  Keeps-with_profile_0 none s f a h = refl
  Keeps-with_profile_0 (some (n, v)) s f a h = h n v a

  Keeps-if : (b : Bool) (s x y : Session) → Keeps s x → Keeps s y → Keeps s (if b then x else y)
  Keeps-if true s x y h k = h
  Keeps-if false s x y h k = k

  export_now-Keeps :
      (m : Moment) (now : ℕ) (s : Session)
      → IsAway (profile_key m.player)
      → Keeps s (export_now m now s)
  unfolding export_now
  export_now-Keeps m now s a = Keeps-if (s.restoring || s.camped) s s _ refl (
      Keeps-with_profile (profile_key m.player) s s (λ n v. export_as m now n v s) a refl
        (λ n v o.
          find-write_player_other n v name server (snapshot (anchor_or m.log_clock now) s.timers)
            (get_player n v s.players).1 (snapshot-KeepsKey (anchor_or m.log_clock now) s.timers) o
          ∙ find-get_player_other n v name server s.players o))

  module _ (m : Moment) (a : IsAway (profile_key m.player)) where
    operate-Keeps : (op : Timers → Timers) (s : Session) → Keeps s (operate m op s)
    unfolding operate on_timers_changed
    operate-Keeps op s =
        let s' : Session = record s { timers = op s.timers } in
        Keeps-if _ s _ s'
          (Keeps-if (s.restoring || s.camped) s s' _ refl
            (Keeps-if _ s s' (export_now m m.now s') refl (export_now-Keeps m m.now s' a)))
          refl

    restore_self_rows-Keeps :
        (info : PlayerInfo) (s : Session) → Keeps s (restore_self_rows m info s)
    unfolding restore_self_rows
    restore_self_rows-Keeps info s =
        operate-Keeps _ (operate m _ (operate m _ s))
        ∙ operate-Keeps _ (operate m _ s)
        ∙ operate-Keeps _ s

    camp_as-Keeps : (s : Session) (n v : Text) → Others n v name server → Keeps s (camp_as m n v s)
    camp_as-Keeps s n v o =
        let s1 : Session = record s { players = (get_player n v s.players).1 } in
        operate-Keeps (λ t. (remove_self_rows t).0)
          (record (export_now m m.now s1) { camped = true })
        ∙ export_now-Keeps m m.now s1 a
        ∙ find-get_player_other n v name server s.players o

    welcome_as-Keeps :
        (s : Session) (n v : Text) → Others n v name server → Keeps s (welcome_as m n v s)
    welcome_as-Keeps s n v o =
        let (info, players) = get_player n v s.players in
        let s1 : Session = record s { players = players; restoring = true } in
        let s2 = operate m (λ t. (remove_self_rows t).0) s1 in
        let s3 = restore_self_rows m info s2 in
        export_now-Keeps m m.later (record s3 { restoring = false; camped = false }) a
        ∙ restore_self_rows-Keeps info s2
        ∙ operate-Keeps (λ t. (remove_self_rows t).0) s1
        ∙ find-get_player_other n v name server s.players o

    finish_change-Keeps :
        (s x : Session) (b : Bool) → Keeps s x → Keeps s (finish_change m (x, b)).0
    finish_change-Keeps s x true h = h
    finish_change-Keeps s x false h =
        export_now-Keeps m m.later (record x { restoring = false; camped = false }) a ∙ h

    change_to-Keeps :
        (s : Session) (n v : Text) → Others n v name server → Keeps s (change_to m n v s).0
    change_to-Keeps s n v o =
        let (info, players) = get_player n v s.players in
        let s1 : Session = record s { players = players; restoring = true } in
        let s2 = operate m (λ t. (remove_self_rows t).0) s1 in
        let s3 = operate m (λ t. (remove_group mob_timer_group t).0) s2 in
        let s4 = restore_self_rows m info s3 in
        let id4 =
          m.new_id
          + length info.you_spells
          + length info.you_cooldowns
          + length info.you_counters in
        finish_change-Keeps s (restore_respawns m info id4 s4).0 (restore_respawns m info id4 s4).1
          (operate-Keeps _ s4
            ∙ restore_self_rows-Keeps info s3
            ∙ operate-Keeps (λ t. (remove_group mob_timer_group t).0) s2
            ∙ operate-Keeps (λ t. (remove_self_rows t).0) s1
            ∙ find-get_player_other n v name server s.players o)

-- No event of one character touches the profile of another: a change of the timers, a camp, a
-- login, and either event of a change of character, whether that raises or not.
pub handle-others :
    (e : Event) (m : Moment) (s : Session) (name server : Text)
    → IsAway name server (profile_key m.player)
    → find_player name server (handle e m s).players ≡ find_player name server s.players
unfolding handle
handle-others (timers_change op) m s name server a = operate-Keeps name server m a op s
handle-others camp m s name server a =
    unfold on_camp in
    Keeps-with_profile name server (profile_key m.player) s s (λ n v. camp_as m n v s) a refl
      (camp_as-Keeps name server m a s)
handle-others welcome m s name server a =
    unfold on_welcome in
    Keeps-with_profile name server (profile_key m.player) s s (λ n v. welcome_as m n v s) a refl
      (welcome_as-Keeps name server m a s)
handle-others before_player_changed m s name server a =
    unfold on_before_player_changed in export_now-Keeps name server m m.now s a
handle-others after_player_changed m s name server a =
    unfold on_after_player_changed in
    Keeps-with_profile_0 name server (profile_key m.player) s (λ n v. change_to m n v s) a
      (change_to-Keeps name server m a s)
