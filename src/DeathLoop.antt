-- ===== src/DeathLoop.antt =====
-- Death loops: deaths of one's own inside a rolling window with no sign of life between them
-- (core/death_loop.py, core/handlers/death_loop.py).
--
-- Times and the window are microseconds. An alarm is what the handler says and shows.
pub mod History
pub mod Alarm
use nparse_plus.Prelude.{
  ℕ, ◌+◌, Bool, true, false, ◌&&◌, not, List, [], ◌∷◌, ◌++◌, length, if◌then◌else◌, ltb, leb,
}
use nparse_plus.Text.{Text, text_eq, codes}

pub record DeathLoopService : Type 0 where
  pub deaths_threshold : ℕ
  pub window : ℕ
  pub death_timestamps : List ℕ

unfoldable pub is_death_looping : DeathLoopService → Bool
is_death_looping s = leb s.deaths_threshold (length s.death_timestamps)

-- The `while` of `prune`: `now - first > window` rolls the first one off.
unfoldable pub roll_off : ℕ → ℕ → List ℕ → List ℕ
roll_off now window [] = []
roll_off now window (t ∷ ts) =
    let rest = roll_off now window ts in if ltb (t + window) now then rest else t ∷ ts

unfoldable pub prune : ℕ → DeathLoopService → DeathLoopService
unfolding roll_off
prune now s = record s { death_timestamps = roll_off now s.window s.death_timestamps }

unfoldable pub record_death : ℕ → DeathLoopService → DeathLoopService × Bool
unfolding prune is_death_looping
record_death timestamp s =
    let pruned = prune timestamp s in
    let s' = record pruned { death_timestamps = pruned.death_timestamps ++ timestamp ∷ [] } in
    (s', is_death_looping s')

unfoldable pub record_activity : DeathLoopService → DeathLoopService
record_activity s = record s { death_timestamps = [] }

abbrev pub you : Text
you = codes "You"

-- The events that the handler subscribes to; of a chat line it reads the sender, and whether the
-- channel is one.
pub data Event : Type 0 where
  slain : ℕ → Text → Event
  damage : ℕ → Text → Event
  begin_casting : Event
  comms : ℕ → Bool → Text → Event

-- The state after an event, and whether the alarm goes off.
unfoldable pub handle : Event → DeathLoopService → DeathLoopService × Bool
unfolding prune record_death record_activity
handle (slain timestamp victim) s =
    let pruned = prune timestamp s in
    if text_eq victim you then record_death timestamp pruned else (pruned, false)
handle (damage timestamp attacker) s =
    let pruned = prune timestamp s in
    (if text_eq attacker you then record_activity pruned else pruned, false)
handle begin_casting s = (record_activity s, false)
handle (comms timestamp on_channel sender) s =
    let pruned = prune timestamp s in
    (if on_channel && text_eq sender you then record_activity pruned else pruned, false)

-- The state after a list of events, the last one first.
unfoldable pub after : List Event → DeathLoopService → DeathLoopService
unfolding handle
after [] s = s
after (e ∷ earlier) s = (handle e (after earlier s)).0
