-- ===== src/Tests/Timers.antt =====
-- The timers service at concrete inputs.
use nparse_plus.Prelude.{
  ◌+◌, ◌*◌, ◌≡◌, refl, true, false, some, List, [], ◌∷◌, All, find?, max, if◌then◌else◌, length,
}
use nparse_plus.Text.{codes}
use nparse_plus.Spells.Durations.{second}
use nparse_plus.Timers.Rows.{
  Row, spell_row, timer_row, counter_row, no_window, you_group, is_spell, is_timer, is_counter,
}
use nparse_plus.Timers.Service.{Timers, notify_with, same_key, add_spell, add_timer, add_counter}
use nparse_plus.Timers.Tick.{tick, scan, judge, announce}
use nparse_plus.Timers.Tick.Laws.{after_tick, IsAlive, tick-IsAlive, tick_idem, tick_lem}
use nparse_plus.Timers.Tick.Reports.{run, run_balance, reports, pendings}
use nparse_plus.Timers.Adds.{replaced, held, add_spell-overwrite, add_timer_unique}
use nparse_plus.Timers.Counters.{tally, added, found?, tally-add_counter}
use nparse_plus.Tests.Data.{buff, row_of, ends, screen, shown}

-- At second 12 the buff lingers and the window opens; both are told, and nothing leaves.
tick_test : length (after_tick (12 * second) screen) ≡ 4
unfolding judge
tick_test = refl

tick-IsAlive_example :
    (s' : Timers) × (out : List Row) × (tick (12 * second) shown ≡ some (s', out))
    × All (IsAlive (12 * second)) s'.rows
tick-IsAlive_example = tick-IsAlive (12 * second) shown

abbrev later : Timers
later = record {
  rows = after_tick (12 * second) screen;
  notices = announce (scan (12 * second) screen);
}

tick_idem_test : tick (12 * second) later ≡ some (later, [])
tick_idem_test =
    tick_idem (12 * second) shown later (scan (12 * second) screen).just_expired
      (tick_lem (12 * second) shown)

run_balance_example :
    (s' : Timers) × (out : List Row) × (run (12 * second ∷ 40 * second ∷ []) shown ≡ some (s', out))
    × (reports 1 out + pendings 1 s'.rows ≡ pendings 1 screen)
run_balance_example = run_balance 1 (12 * second ∷ 40 * second ∷ []) shown

abbrev recast : Row
recast = row_of 5 (codes "CLARITY") you_group (spell_row (ends 40) buff)

add_spell-overwrite_example :
    (add_spell recast true shown ≡ some (notify_with (replaced is_spell recast screen) shown))
    × ((k : Row)
        → held is_spell k (replaced is_spell recast screen) ≡ (
            if same_key is_spell k recast
            then max 1 (held is_spell k screen)
            else held is_spell k screen))
add_spell-overwrite_example = add_spell-overwrite recast shown refl

abbrev sirran : Row
sirran = row_of 6 (codes "Sirran") (codes "  Mob Timers") (timer_row (ends 50) no_window)

add_timer_unique_test :
    (add_timer sirran false shown ≡ some (notify_with (replaced is_timer sirran screen) shown))
    × ((k : Row)
        → held is_timer k (replaced is_timer sirran screen) ≡ (
            if same_key is_timer k sirran
            then max 1 (held is_timer k screen)
            else held is_timer k screen))
add_timer_unique_test = add_timer_unique sirran shown refl

abbrev jolt : Row
jolt = row_of 7 (codes "jolt") (codes "A rat") (counter_row 1)

tally-add_counter_test :
    (tally jolt (add_counter jolt shown).rows
      ≡ tally jolt screen
        + (if same_key is_counter jolt jolt
            then added jolt (find? (same_key is_counter jolt) screen)
            else 0))
    × (length (add_counter jolt shown).rows
        ≡ length screen + (if found? (find? (same_key is_counter jolt) screen) then 0 else 1))
tally-add_counter_test = tally-add_counter jolt jolt shown refl
