-- ===== src/Sessions/Camp.antt =====
-- Camping and logging in again.
use nparse_plus.Prelude.{
  ℕ, ◌≡◌, refl, sym, ap, subst, ◌∙◌, Bool, true, false, ◌||◌, Option, none, some, List, [], ◌∷◌,
  arith, All, All-collect, collect,
}
use nparse_plus.Text.{Text}
use nparse_plus.Timers.Rows.{Row, validate}
use nparse_plus.Timers.Service.{Timers}
use nparse_plus.Timers.Removals.{remove_self_rows}
use nparse_plus.Timers.Removals.SelfRows.{remove_self_rows_lem}
use nparse_plus.Timers.Persistence.{
  SelfCooldownSnapshot, saved_cooldown, export_you_spells, export_self_cooldowns,
  export_self_counters,
}
use nparse_plus.Timers.Restore.RoundTrip.{
  resaved_spell, resaved_counter, resaved_cooldown, IsSnapped,
}
use nparse_plus.Timers.Restore.Respawns.{IsValid}
use nparse_plus.Sessions.Profiles.{PlayerInfo, find_player, get_player, get-find_player}
use nparse_plus.Sessions.TimerPersistence.{
  Moment, Session, profile_key, anchor_or, snapshot, operate, on_camp, on_welcome,
  on_before_player_changed, camp_as, with_profile,
}
use nparse_plus.Sessions.Quiet.{
  operate_quiet, export_now_quiet, restored, on_camp_lem, on_welcome-timers,
}
use nparse_plus.Sessions.Restored.{SavedAgain, restored-SavedAgain}

-- What may happen while the character is away: any change of the timers, the export before another
-- character or of the program's end, and further camp lines.
pub data Step : Type 0 where
  change : Moment → (Timers → Timers) → Step
  before_change : Moment → Step
  camp_again : Moment → Step

unfoldable pub step : Step → Session → Session
step (change m op) s = operate m op s
step (before_change m) s = on_before_player_changed m s
step (camp_again m) s = on_camp m s

unfoldable pub steps : List Step → Session → Session
unfolding step
steps [] s = s
steps (e ∷ es) s = steps es (step e s)

-- The handler is camped, and this is the profile of a character.
abbrev Frozen : Text → Text → PlayerInfo → Session → Type 0
Frozen name server info s = (s.camped ≡ true) × (find_player name server s.players ≡ some info)

or_true : (b c : Bool) → c ≡ true → (b || c) ≡ true
or_true b c h = ground arith

-- `get_player` of any key leaves an entry that is there.
find-get_player_kept :
    (name server name' server' : Text) (info : PlayerInfo) (players : List PlayerInfo)
    → find_player name server players ≡ some info
    → find_player name server (get_player name' server' players).1 ≡ some info
unfolding find_player get_player
find-get_player_kept name server name' server' info [] h = cc
find-get_player_kept name server name' server' info (p ∷ players) h =
    ground (arith, find-get_player_kept name server name' server' info players)

camp_again-Frozen :
    (name server : Text) (info : PlayerInfo) (m : Moment) (k : Option (Text × Text)) (s : Session)
    → Frozen name server info s
    → Frozen name server info (with_profile k s (λ n v. camp_as m n v s))
camp_again-Frozen name server info m none s f = f
camp_again-Frozen name server info m (some (n, v)) s f =
    let op : Timers → Timers = λ t. (remove_self_rows t).0 in
    let s1 : Session = record s { players = (get_player n v s.players).1 } in
    let s2 : Session = record s1 { camped = true } in
    subst (Frozen name server info)
      (sym (
        ap (λ (x : Session). operate m op (record x { camped = true }))
          (export_now_quiet m m.now s1 (or_true s.restoring s.camped f.0))
        ∙ operate_quiet m op s2 (or_true s.restoring true refl)))
      (refl, find-get_player_kept name server n v info s.players f.1)

step-Frozen :
    (name server : Text) (info : PlayerInfo) (e : Step) (s : Session)
    → Frozen name server info s
    → Frozen name server info (step e s)
unfolding step on_before_player_changed on_camp
step-Frozen name server info (change m op) s f =
    subst (Frozen name server info) (sym (operate_quiet m op s (or_true s.restoring s.camped f.0)))
      f
step-Frozen name server info (before_change m) s f =
    subst (Frozen name server info)
      (sym (export_now_quiet m m.now s (or_true s.restoring s.camped f.0))) f
step-Frozen name server info (camp_again m) s f =
    camp_again-Frozen name server info m (profile_key m.player) s f

steps-Frozen :
    (name server : Text) (info : PlayerInfo) (es : List Step) (s : Session)
    → Frozen name server info s
    → Frozen name server info (steps es s)
unfolding steps
steps-Frozen name server info [] s f = f
steps-Frozen name server info (e ∷ es) s f =
    steps-Frozen name server info es (step e s) (step-Frozen name server info e s f)

-- The cooldowns that are saved of valid rows end at whole seconds.
saved-IsSnapped :
    (at : ℕ) (r : Row) (item : SelfCooldownSnapshot)
    → saved_cooldown at r ≡ some item
    → IsValid r
    → IsSnapped item
unfolding saved_cooldown validate
saved-IsSnapped at r item h v = ground arith

export-IsSnapped :
    (at : ℕ) (rows : List Row) → All IsValid rows → All IsSnapped (export_self_cooldowns at rows)
unfolding export_self_cooldowns
export-IsSnapped at rows v =
    All-collect (saved_cooldown at) IsValid IsSnapped (saved-IsSnapped at) rows v

-- The profile of a camp.
abbrev pub camped_profile : Moment → Session → Text → Text → PlayerInfo
camped_profile m s name server =
    snapshot (anchor_or m.log_clock m.now) s.timers (get_player name server s.players).0

-- Camping and logging in again gives a character its own rows back, whatever happens in between to
-- the timers, in exports and at further camp lines: the buffs with the very seconds that they had
-- left at the camp, by the log's clock, the cooldowns with their ends less those that came up, and
-- the counters less those that idled out. After it the handler neither restores nor is camped. The
-- rows at the camp are valid, and the handler is neither restoring nor camped before it.
pub on_welcome-on_camp :
    (m m' : Moment) (s : Session) (es : List Step) (name server : Text)
    → profile_key m.player ≡ some (name, server)
    → profile_key m'.player ≡ some (name, server)
    → (s.restoring || s.camped) ≡ false
    → All IsValid s.timers.rows
    → let at = anchor_or m.log_clock m.now in
      let s' = on_welcome m' (steps es (on_camp m s)) in
      (export_you_spells m'.now s'.timers.rows
        ≡ collect (resaved_spell m'.spells) (export_you_spells at s.timers.rows))
      × (export_self_cooldowns m'.now s'.timers.rows
          ≡ collect (resaved_cooldown m'.now m'.spells) (export_self_cooldowns at s.timers.rows))
      × (export_self_counters s'.timers.rows
          ≡ collect (resaved_counter m'.now) (export_self_counters s.timers.rows))
      × (s'.camped ≡ false)
      × (s'.restoring ≡ false)
unfolding snapshot
on_welcome-on_camp m m' s es name server k k' h v =
    let info = camped_profile m s name server in
    let away = steps es (on_camp m s) in
    let (camped, found) = on_camp_lem m name server k s h in
    let f = steps-Frozen name server info es (on_camp m s) (camped, found) in
    let got = get-find_player name server info away.players f.1 in
    let (t, c, r) = on_welcome-timers m' name server k' away in
    let (n0, n1, n2, n3) = remove_self_rows_lem m'.now away.timers in
    let e : (on_welcome m' away).timers ≡ restored m' info (remove_self_rows away.timers).0 =
      t ∙ ap (λ g. restored m' g.0 (remove_self_rows away.timers).0) got in
    let (a, b, d) : SavedAgain m'.now m'.spells info (on_welcome m' away).timers =
      subst (SavedAgain m'.now m'.spells info) (sym e) (
        restored-SavedAgain m' info (remove_self_rows away.timers).0
          (export-IsSnapped (anchor_or m.log_clock m.now) s.timers.rows v) n1 n2 n3) in
    (a, b, d, c, r)
