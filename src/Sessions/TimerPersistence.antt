-- ===== src/Sessions/TimerPersistence.antt =====
-- `TimerPersistenceHandler` (core/handlers/timer_persistence.py): when the rows of a character are
-- written to its profile, and when they come back.
--
-- The handler reads the clock, the time of the last log line, the active player and the spell book
-- when an event reaches it: those are the `Moment` of the event. `now` is the first reading of the
-- clock, `later` the one that a final export makes where no log line has been seen. A change of the
-- timers calls `on_timers_changed` by way of `TimersService.on_change`.
use nparse_plus.Prelude.{
  ℕ, ◌+◌, Bool, true, false, ◌||◌, Option, none, some, List, [], ◌∷◌, length, ltb, ◌==◌,
  if◌then◌else◌,
}
use nparse_plus.Text.{Text, is_empty, codes}
use nparse_plus.Spells.{PlayerClass}
use nparse_plus.Spells.Book.{SpellBook}
use nparse_plus.Timers.Service.{Timers, Notice, changed, expired, window_open}
use nparse_plus.Timers.Removals.{remove_self_rows, remove_group}
use nparse_plus.Timers.Persistence.{
  export_you_spells, export_self_cooldowns, export_self_counters, export_respawn_timers,
}
use nparse_plus.Timers.Restore.{
  restore_you_spells, restore_self_cooldowns, restore_self_counters, restore_respawn_timers,
}
use nparse_plus.Sessions.Profiles.{PlayerInfo, get_player, write_player}

abbrev pub mob_timer_group : Text
mob_timer_group = codes "  Mob Timers"

-- What the handler reads of the active player.
pub record ActivePlayer : Type 0 where
  pub name : Text
  pub server_key : Option Text
  pub player_class : Option PlayerClass
  pub level : Option ℕ

pub record Moment : Type 0 where
  pub now : ℕ
  pub later : ℕ
  pub log_clock : Option ℕ
  pub player : ActivePlayer
  pub spells : SpellBook
  pub new_id : ℕ

-- The handler with the timers and the profiles that it works on; `saves` counts the calls of
-- `request_save`.
pub record Session : Type 0 where
  pub timers : Timers
  pub players : List PlayerInfo
  pub restoring : Bool
  pub camped : Bool
  pub last_export_anchor : Option ℕ
  pub saves : ℕ

-- The key of the profile, where there is one.
unfoldable pub profile_key : ActivePlayer → Option (Text × Text)
profile_key player = elim player.server_key [
  | none ↦ none
  | some server ↦ if is_empty player.name then none else some (player.name, server)
]

-- What follows `info = self._profile()`, and the way out where there is no profile.
abbrev pub with_profile {ℓ} : {A : Type ℓ} → Option (Text × Text) → A → (Text → Text → A) → A
with_profile none a f = a
with_profile (some (name, server)) a f = f name server

-- `self._export_anchor() or self._clock()`
abbrev pub anchor_or : Option ℕ → ℕ → ℕ
anchor_or (some t) now = t
anchor_or none now = now

-- The assignments of `export_now`.
unfoldable pub snapshot : ℕ → Timers → PlayerInfo → PlayerInfo
snapshot now t info = record info {
  you_spells = export_you_spells now t.rows;
  you_cooldowns = export_self_cooldowns now t.rows;
  you_counters = export_self_counters t.rows;
  respawn_timers = export_respawn_timers mob_timer_group now t.rows;
}

-- `export_now` of a character with a profile.
abbrev pub export_as : Moment → ℕ → Text → Text → Session → Session
export_as m now name server s = record s {
  players =
      write_player name server (snapshot (anchor_or m.log_clock now) s.timers)
        (get_player name server s.players).1;
  last_export_anchor = m.log_clock;
  saves = s.saves + 1;
}

-- `export_now`, with the reading of the clock that it makes.
unfoldable pub export_now : Moment → ℕ → Session → Session
export_now m now s =
    if s.restoring || s.camped
    then s
    else with_profile (profile_key m.player) s (λ name server. export_as m now name server s)

-- `anchor is not None and anchor == self._last_export_anchor`
abbrev pub unmoved : Option ℕ → Option ℕ → Bool
unmoved (some t) (some u) = t == u
unmoved _ _ = false

unfoldable pub on_timers_changed : Moment → Session → Session
on_timers_changed m s =
    if s.restoring || s.camped
    then s
    else if unmoved m.log_clock s.last_export_anchor
    then s
    else export_now m m.now s

-- The calls of `on_change` among the notices.
unfoldable pub changes : List Notice → ℕ
changes [] = 0
changes (changed ∷ ns) = changes ns + 1
changes (expired rows ∷ ns) = changes ns
changes (window_open rows ∷ ns) = changes ns

-- An operation on the timers; one that notifies does so once, at its end.
unfoldable pub operate : Moment → (Timers → Timers) → Session → Session
operate m op s =
    let s' = record s { timers = op s.timers } in
    if ltb (changes s.timers.notices) (changes s'.timers.notices)
    then on_timers_changed m s'
    else s'

-- `on_camp` of a character with a profile.
abbrev pub camp_as : Moment → Text → Text → Session → Session
camp_as m name server s =
    let s1 = record s { players = (get_player name server s.players).1 } in
    operate m (λ t. (remove_self_rows t).0) (record (export_now m m.now s1) { camped = true })

unfoldable pub on_camp : Moment → Session → Session
on_camp m s = with_profile (profile_key m.player) s (λ name server. camp_as m name server s)

-- `_restore_self_rows`; each restore makes new row objects.
unfoldable pub restore_self_rows : Moment → PlayerInfo → Session → Session
restore_self_rows m info s =
    let s1 =
      operate m
        (restore_you_spells info.you_spells m.now m.spells m.player.player_class m.player.level
          m.new_id)
        s in
    let id1 = m.new_id + length info.you_spells in
    let s2 = operate m (restore_self_cooldowns info.you_cooldowns m.now m.spells id1) s1 in
    operate m (restore_self_counters info.you_counters m.now (id1 + length info.you_cooldowns)) s2

-- `on_welcome` of a character with a profile.
abbrev pub welcome_as : Moment → Text → Text → Session → Session
welcome_as m name server s =
    let (info, players) = get_player name server s.players in
    let s1 = record s { players = players; restoring = true } in
    let s2 = operate m (λ t. (remove_self_rows t).0) s1 in
    let s3 = restore_self_rows m info s2 in
    export_now m m.later (record s3 { restoring = false; camped = false })

unfoldable pub on_welcome : Moment → Session → Session
on_welcome m s = with_profile (profile_key m.player) s (λ name server. welcome_as m name server s)

unfoldable pub on_before_player_changed : Moment → Session → Session
on_before_player_changed m s = export_now m m.now s

-- The last call of the `try`, whose ValueError comes after what it did.
abbrev pub restore_respawns : Moment → PlayerInfo → ℕ → Session → Session × Bool
restore_respawns m info new_id s = (
  operate m (λ t. (restore_respawn_timers info.respawn_timers mob_timer_group m.now new_id t).0) s,
  (restore_respawn_timers info.respawn_timers mob_timer_group m.now new_id s.timers).1,
)

-- The `finally`, and the lines behind the `try`.
abbrev pub finish_change : Moment → Session × Bool → Session × Bool
finish_change m (s5, raised) =
    let s6 = record s5 { restoring = false } in
    if raised then (s6, true) else (export_now m m.later (record s6 { camped = false }), false)

-- `on_after_player_changed` of a character with a profile.
abbrev pub change_to : Moment → Text → Text → Session → Session × Bool
change_to m name server s =
    let (info, players) = get_player name server s.players in
    let s1 = record s { players = players; restoring = true } in
    let s2 = operate m (λ t. (remove_self_rows t).0) s1 in
    let s3 = operate m (λ t. (remove_group mob_timer_group t).0) s2 in
    let s4 = restore_self_rows m info s3 in
    let id4 =
      m.new_id + length info.you_spells + length info.you_cooldowns + length info.you_counters in
    finish_change m (restore_respawns m info id4 s4)

-- The state after, and whether a ValueError came out of the `try`.
unfoldable pub on_after_player_changed : Moment → Session → Session × Bool
on_after_player_changed m s =
    with_profile (profile_key m.player) (s, false) (λ name server. change_to m name server s)
