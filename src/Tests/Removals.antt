-- ===== src/Tests/Removals.antt =====
-- Removals and corrections of rows.
use nparse_plus.Prelude.{
  ◌-◌, ◌*◌, ◌≡◌, ◌<◌, refl, ap, ◌∙◌, true, false, ◌||◌, not, none, some, List, [], ◌∷◌, All, arith,
  keep, if◌then◌else◌, map,
}
use nparse_plus.Text.{Text, codes, casefold, isspace, text_eq, name_eq}
use nparse_plus.Spells.{is_detrimental}
use nparse_plus.Spells.Durations.{second, base_timer_duration, npc_grace, base_seconds}
use nparse_plus.Timers.Rows.{
  Row, Countdown, SpellFields, spell_row, you_group, snap_to_second, row_eq_iff,
}
use nparse_plus.Timers.Service.{Timers, notify_with, respelled, respell_row, replace_row}
use nparse_plus.Tests.Data.{clarity, breeze, buff, row_of, ends, screen, shown}
use nparse_plus.Timers.Removals.{
  is_self_match, is_other_match, is_group_match, try_remove_unambiguous_self,
  try_remove_unambiguous_other, is_self_row, remove_self_rows, reinstate,
}
use nparse_plus.Timers.Removals.Single.{
  is_single, without_single, try_remove_unambiguous_self_lem, try_remove_unambiguous_other_lem,
}
use nparse_plus.Timers.Removals.Reinstate.{is_present, reinstate_idem}
use nparse_plus.Timers.Removals.SelfRows.{remove_self_rows_lem}
use nparse_plus.Timers.Persistence.{export_you_spells, export_self_cooldowns, export_self_counters}
use nparse_plus.Timers.Respell.{
  OneRow, SameTarget, corrected, countdown?, from_start, respell-outcome, outcome, respell_row-one,
  respell_row-undo,
}

try_remove_unambiguous_self_lem_example :
    let match = is_self_match (map casefold (codes "clarity" ∷ codes "Breeze" ∷ [])) in
    try_remove_unambiguous_self (codes "clarity" ∷ codes "Breeze" ∷ []) shown
    ≡ some (
        if is_single (keep match screen)
        then (notify_with (keep (λ r. not (match r)) screen) shown, true)
        else (shown, false))
try_remove_unambiguous_self_lem_example =
    try_remove_unambiguous_self_lem (codes "clarity") (codes "Breeze" ∷ []) shown

abbrev jolts : List Text
jolts = codes "jolt" ∷ []

try_remove_unambiguous_other_lem_example :
    let rest = without_single (is_other_match jolts) screen in
    let removed =
      is_single (keep (is_other_match jolts) screen)
      || is_single (keep (is_group_match jolts) rest) in
    try_remove_unambiguous_other (codes "Jolt" ∷ codes " " ∷ []) shown
    ≡ some (
        if removed
        then (notify_with (without_single (is_group_match jolts) rest) shown, true)
        else (shown, false))
unfolding casefold isspace
try_remove_unambiguous_other_lem_example =
    try_remove_unambiguous_other_lem (codes "Jolt" ∷ codes " " ∷ []) (codes "jolt") [] shown refl

abbrev lost : List Row
lost =
    row_of 1 (codes "Clarity") you_group (spell_row (ends 10) buff)
    ∷ row_of 9 (codes "Breeze") you_group (spell_row (ends 30) buff)
    ∷ []

reinstate_idem_test :
    All (λ r. is_present (reinstate lost shown).0.rows r ≡ true) lost
    × (reinstate lost (reinstate lost shown).0 ≡ ((reinstate lost shown).0, 0))
reinstate_idem_test = reinstate_idem lost shown

remove_self_rows_lem_test :
    let s' = (remove_self_rows shown).0 in
    (s'.rows ≡ keep (λ r. not (is_self_row r)) screen)
    × (export_you_spells (3 * second) s'.rows ≡ [])
    × (export_self_cooldowns (3 * second) s'.rows ≡ [])
    × (export_self_counters s'.rows ≡ [])
remove_self_rows_lem_test = remove_self_rows_lem (3 * second) shown

-- A guess that is corrected to Breeze, and back.
abbrev guess_ends : Countdown
guess_ends = record { ends_at = 1630 * second; total_duration = 1620 * second }

abbrev guess : Row
guess = row_of 1 (codes "Clarity") you_group (spell_row guess_ends buff)

abbrev one_guess : Timers
one_guess = record { rows = guess ∷ []; notices = [] }

abbrev fixed : Row
unfolding respelled
fixed = respelled guess guess_ends buff breeze (1200 * second) 0 20

abbrev after_fix : Timers
after_fix = notify_with (fixed ∷ []) one_guess

replaced_guess : replace_row guess fixed (guess ∷ []) ≡ some (fixed ∷ [])
unfolding replace_row
replaced_guess = rw ((row_eq_iff guess guess).1 refl) refl

fixed_test :
    respell_row guess guess_ends buff breeze none (some 40) 0 20 one_guess ≡ (after_fix, some fixed)
unfolding base_timer_duration base_seconds text_eq is_detrimental npc_grace fixed
fixed_test =
    respell-outcome guess guess_ends buff breeze none (some 40) 0 20 one_guess
    ∙ ap (outcome guess guess_ends buff breeze none (some 40) 0 20 one_guess) replaced_guess

respell_row-one_example :
    OneRow guess one_guess after_fix fixed
    × (0 < corrected guess breeze none (some 40))
    × (fixed.name ≡ breeze.name)
    × SameTarget guess fixed
    × (countdown? fixed.kind
        ≡ some (from_start (1630 * second - 1620 * second) (corrected guess breeze none (some 40))))
respell_row-one_example =
    respell_row-one guess guess_ends buff breeze none (some 40) 0 20 one_guess after_fix fixed
      fixed_test refl

abbrev fixed_fields : SpellFields
fixed_fields = record buff { spell = breeze; post_expiry_persist = 0; alternatives = clarity ∷ [] }

abbrev fixed_ends : Countdown
fixed_ends = record { ends_at = 1210 * second; total_duration = 1200 * second }

abbrev back : Row
unfolding respelled
back = respelled fixed fixed_ends fixed_fields clarity (1620 * second) 0 21

abbrev after_undo : Timers
after_undo = notify_with (back ∷ []) after_fix

replaced_fixed : replace_row fixed back (fixed ∷ []) ≡ some (back ∷ [])
unfolding replace_row
replaced_fixed = rw ((row_eq_iff fixed fixed).1 refl) refl

undo_test :
    respell_row fixed fixed_ends fixed_fields clarity none (some 40) 0 21 after_fix
    ≡ (after_undo, some back)
unfolding base_timer_duration base_seconds text_eq is_detrimental npc_grace fixed back
undo_test =
    respell-outcome fixed fixed_ends fixed_fields clarity none (some 40) 0 21 after_fix
    ∙ ap (outcome fixed fixed_ends fixed_fields clarity none (some 40) 0 21 after_fix)
        replaced_fixed

respell_row-undo_example :
    (back.name ≡ clarity.name) × (countdown? back.kind ≡ some guess_ends) × SameTarget guess back
unfolding base_timer_duration base_seconds text_eq is_detrimental npc_grace fixed name_eq
    snap_to_second casefold
respell_row-undo_example =
    respell_row-undo guess guess_ends buff breeze none (some 40) 0 20 0 21 one_guess after_fix
      after_undo fixed back fixed_ends fixed_fields refl (omega arith) refl fixed_test refl
      undo_test
