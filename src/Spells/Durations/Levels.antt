-- ===== src/Spells/Durations/Levels.antt =====
-- The caster's level that is taken for a spell (core/spells/durations.py, `match_closest_level`).
use nparse_plus.Prelude.{
  ℕ, suc, ◌≡◌, refl, Bool, true, false, Option, none, some, List, [], ◌∷◌, arith, max,
  if◌then◌else◌,
}
use nparse_plus.Spells.{Spell, PlayerClass}
use nparse_plus.Spells.Durations.{
  class_level, highest_level, match_closest_level, own_class_level, any_class_level, default_level,
  first_level,
}

-- The greatest of the levels, 0 where there are none.
abbrev pub greatest : List (PlayerClass × ℕ) → ℕ
greatest [] = 0
greatest ((c, n) ∷ levels) = max n (greatest levels)

abbrev or_greatest : List (PlayerClass × ℕ) → Option ℕ → ℕ
or_greatest levels (some n) = n
or_greatest levels none = greatest levels

-- The level that a class needs for a spell, or the greatest that some class needs where it is unknown
-- or cannot cast it.
abbrev pub needed : Spell → Option PlayerClass → ℕ
needed spell none = greatest spell.class_levels
needed spell (some c) = or_greatest spell.class_levels (class_level c spell.class_levels)

abbrev or_zero : Option ℕ → ℕ
or_zero none = 0
or_zero (some n) = n

highest_level-greatest :
    (levels : List (PlayerClass × ℕ)) → or_zero (highest_level levels) ≡ greatest levels
unfolding highest_level
highest_level-greatest [] = refl
highest_level-greatest ((c, n) ∷ levels) = ground (arith, highest_level-greatest levels)

no_level :
    (levels : List (PlayerClass × ℕ)) → highest_level levels ≡ none → first_level levels ≡ none
unfolding highest_level first_level
no_level [] h = refl
no_level ((c, n) ∷ levels) h = cc

-- Where the player's level is known and not 0, it is the level of a cast of one's own. Any other
-- cast is taken to be at that level or at the one that the spell needs, whichever is greater: of
-- the player's class, or, where that is unknown or has no level for the spell, the greatest of any
-- class.
pub match_closest_level-max :
    (spell : Spell) (c : Option PlayerClass) (l : ℕ) (own_cast : Bool)
    → match_closest_level spell c (some (suc l)) own_cast
      ≡ (if own_cast then suc l else max (suc l) (needed spell c))
unfolding match_closest_level own_class_level any_class_level default_level
match_closest_level-max spell c l true = refl
match_closest_level-max spell none l false =
    ground (arith, highest_level-greatest spell.class_levels, no_level spell.class_levels)
match_closest_level-max spell (some c) l false =
    ground (arith, highest_level-greatest spell.class_levels, no_level spell.class_levels)
