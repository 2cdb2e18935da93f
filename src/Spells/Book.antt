-- ===== src/Spells/Book.antt =====
-- The dictionary of spells by casefolded name (`SpellBook.spell_by_name` of
-- core/spells/spells_us.py). The loader of the database file is not modelled: a book is given.
use nparse_plus.Prelude.{Option, none, some, List, [], ◌∷◌, if◌then◌else◌}
use nparse_plus.Text.{Text, casefold, text_eq}
use nparse_plus.Spells.{Spell}

pub record SpellBook : Type 0 where
  pub all_spells : List (Text × Spell)

unfoldable pub spell_with_key : Text → List (Text × Spell) → Option Spell
spell_with_key key [] = none
spell_with_key key ((k, s) ∷ table) = if text_eq k key then some s else spell_with_key key table

unfoldable pub spell_by_name : SpellBook → Text → Option Spell
unfolding spell_with_key
spell_by_name book name = spell_with_key (casefold name) book.all_spells
