-- ===== src/Tests/Display.antt =====
-- The sections of the window.
use nparse_plus.Prelude.{refl, true, List, ◌∷◌, All}
use nparse_plus.Text.{codes}
use nparse_plus.Timers.Rows.{Row, spell_row}
use nparse_plus.Tests.Data.{buff, row_of, ends, screen}
use mathlib.Core.List.{Perm}
use nparse_plus.Timers.Display.{group_rows_for_display}
use nparse_plus.Timers.Display.Perms.{shown_rows}
use nparse_plus.Timers.Display.Laws.{group_rows_for_display-perm}
use nparse_plus.Timers.Display.Headers.{IsFitting, group_rows_for_display-IsFitting}

-- Two players with one buff: raid mode turns them into a section for the spell.
abbrev raid : List Row
raid =
    row_of 5 (codes "Clarity") (codes "Ayla") (spell_row (ends 10) buff)
    ∷ row_of 6 (codes "Clarity") (codes "Borin") (spell_row (ends 20) buff)
    ∷ screen

group_rows_for_display-perm_example : Perm (shown_rows (group_rows_for_display raid true)) raid
group_rows_for_display-perm_example =
    group_rows_for_display-perm raid true (refl, (refl, (refl, (refl, (refl, (refl, tt))))))

group_rows_for_display-IsFitting_example : All IsFitting (group_rows_for_display raid true)
group_rows_for_display-IsFitting_example = group_rows_for_display-IsFitting raid true
