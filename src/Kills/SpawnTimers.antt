-- ===== src/Kills/SpawnTimers.antt =====
-- The respawn row of a confirmed death (core/handlers/spawn_timer.py): `_do_event` behind the event
-- that it publishes, over the timers service.
use nparse_plus.Prelude.{
  ℕ, zero, suc, ◌+◌, ◌*◌, Bool, true, false, ◌&&◌, ◌||◌, not, Option, none, some, List, [], ◌∷◌,
  ◌++◌, if◌then◌else◌, any,
}
use nparse_plus.Text.{Text, codes, casefold, name_eq, is_in}
use nparse_plus.Text.Decimal.{decimal}
use nparse_plus.Spells.Durations.{second}
use nparse_plus.Timers.Rows.{Row, Countdown, timer_row, snap_to_second, no_window}
use nparse_plus.Timers.Service.{Timers, find, add_timer}
use nparse_plus.Timers.Removals.{remove_group}
use nparse_plus.Timers.Restore.{restored_row}
use nparse_plus.Sessions.TimerPersistence.{mob_timer_group}
use nparse_plus.Kills.Zones.{ZoneDatabase, spawn_time}
use nparse_plus.Kills.Correlation.{Death}

-- What the handler reads: the names of NPCs, folded, the player's zone and the players that were
-- seen, the zone database, and whether the timers restart where they run already.
pub record Context : Type 0 where
  pub npcs : List Text
  pub known_players : List Text
  pub zone : Text
  pub zones : ZoneDatabase
  pub restarts : Bool

abbrev pub pos_bosses : List Text
pos_bosses =
    codes "a Thunder Spirit Princess"
    ∷ codes "Protector of Sky"
    ∷ codes "Gorgalosk"
    ∷ codes "Keeper of Souls"
    ∷ codes "The Spiroc Lord"
    ∷ codes "Bazzt Zzzt"
    ∷ codes "Sister of the Spire"
    ∷ []

abbrev pub sirran_timer_name : Text
sirran_timer_name = codes "--Sirran the Lunatic-- "

abbrev pub sirran_timer_seconds : ℕ
sirran_timer_seconds = 15 * 60

abbrev is_none {ℓ} : {A : Type ℓ} → Option A → Bool
is_none none = true
is_none (some a) = false

-- `self.timers.find(name, MOB_TIMER_GROUP) is None`
abbrev pub is_free : List Row → Text → Bool
is_free rows name = is_none (find name (some mob_timer_group) rows)

-- The names of the respawn rows of one victim: the bare one, and those with a number.
abbrev pub numbered : Text → ℕ → Text
numbered base zero = base
numbered base (suc n) = base ++ codes "_" ++ decimal (suc n)

-- The loop over the numbers from one on, as many as the fuel.
unfoldable pub scan_numbers : ℕ → ℕ → Text → List Row → Text
unfolding find
scan_numbers zero n base rows = numbered base 999
scan_numbers (suc fuel) n base rows =
    let later = scan_numbers fuel (n + 1) base rows in
    if is_free rows (numbered base n) then numbered base n else later

unfoldable pub unique_dead_name : Text → List Row → Text
unfolding find scan_numbers
unique_dead_name base rows = if is_free rows base then base else scan_numbers 999 1 base rows

-- `TimerRow(name, MOB_TIMER_GROUP, timestamp, timestamp + seconds, seconds)`
unfoldable pub respawn_row : ℕ → Text → ℕ → ℕ → Row
unfolding snap_to_second
respawn_row new_id name timestamp seconds =
    let countdown : Countdown = record {
      ends_at = snap_to_second (timestamp + seconds * second);
      total_duration = seconds * second;
    } in
    restored_row new_id name mob_timer_group timestamp (timer_row countdown no_window)

abbrev pub dead_name : Text → Text
dead_name victim = codes "--Dead-- " ++ victim

-- Whose death gets a row.
unfoldable pub is_tracked : Death → Context → Bool
is_tracked d c =
    not (is_in d.victim c.known_players) && (is_in (casefold d.victim) c.npcs || d.guess)

-- `f" {victim}" if is_npc else victim`
abbrev pub group_of : Text → Context → Text
group_of victim c = if is_in (casefold victim) c.npcs then codes " " ++ victim else victim

-- The rows that die with the victim.
unfoldable pub drop_victim : Text → Context → Timers → Timers
unfolding remove_group
drop_victim victim c s = if c.restarts then (remove_group (group_of victim c) s).0 else s

abbrev pub is_boss : Text → Bool
is_boss victim = any (λ boss. name_eq boss victim) pos_bosses

-- The timer of Sirran, which a death of a boss starts again.
unfoldable pub add_sirran : Death → ℕ → Option Timers → Option Timers
unfolding add_timer respawn_row
add_sirran d new_id none = none
add_sirran d new_id (some s) =
    if is_boss d.victim
    then add_timer (respawn_row new_id sirran_timer_name d.event.timestamp sirran_timer_seconds)
        false s
    else some s

-- The rows that are built take the identities `new_id` and `new_id + 1`.
unfoldable pub start_respawn : Death → Context → ℕ → Timers → Option Timers
unfolding unique_dead_name add_timer spawn_time add_sirran respawn_row
start_respawn d c new_id s =
    let name = unique_dead_name (dead_name d.victim) s.rows in
    let row =
      respawn_row new_id name d.event.timestamp (spawn_time d.victim (some c.zone) c.zones) in
    add_sirran d (new_id + 1) (add_timer row true s)

-- `_do_event` behind the event that it publishes; `none` is the ValueError of `list.remove`.
unfoldable pub do_event_rows : Death → Context → ℕ → Timers → Option Timers
unfolding is_tracked drop_victim start_respawn
do_event_rows d c new_id s =
    if is_tracked d c then start_respawn d c new_id (drop_victim d.victim c s) else some s
