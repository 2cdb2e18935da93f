-- ===== src/Tests/Spells.antt =====
-- A cleric's buff, as the player casts it and as the player sees it cast.
use nparse_plus.Prelude.{◌≡◌, refl, true, false, none, some, [], ◌∷◌, map, max}
use nparse_plus.Spells.{cleric}
use nparse_plus.Spells.Durations.{match_closest_level, get_duration_seconds, formula_ticks}
use nparse_plus.Spells.Durations.Levels.{needed, match_closest_level-max}
use nparse_plus.Tests.Data.{clarity}

match_closest_level-max_example :
    match_closest_level clarity (some cleric) (some 5) false ≡ max 5 (needed clarity (some cleric))
match_closest_level-max_example = match_closest_level-max clarity (some cleric) 4 false

-- The player's own cast counts from level 5, another's from the 29 that a cleric needs.
get_duration_seconds_test :
    (get_duration_seconds clarity (some cleric) (some 5) true ≡ 900)
    × (get_duration_seconds clarity none (some 5) false ≡ 1620)
unfolding get_duration_seconds
get_duration_seconds_test = (refl, refl)

-- The formulas at level 33, below the cap and at it.
formula_ticks_test :
    (map (λ f. formula_ticks f 33 1000) (0 ∷ 1 ∷ 2 ∷ 3 ∷ 6 ∷ 7 ∷ 8 ∷ 9 ∷ 10 ∷ [])
      ≡ 0 ∷ 17 ∷ 20 ∷ 990 ∷ 17 ∷ 33 ∷ 43 ∷ 76 ∷ 109 ∷ [])
    × (map (λ f. formula_ticks f 33 10) (1 ∷ 2 ∷ 3 ∷ 6 ∷ 7 ∷ 8 ∷ 9 ∷ 10 ∷ [])
        ≡ 10 ∷ 10 ∷ 10 ∷ 10 ∷ 10 ∷ 10 ∷ 10 ∷ 10 ∷ [])
    × (map (λ f. formula_ticks f 33 0) (4 ∷ 5 ∷ 11 ∷ 50 ∷ 3600 ∷ [])
        ≡ 50 ∷ 3 ∷ 0 ∷ 72000 ∷ 3600 ∷ [])
    × (map (λ f. formula_ticks f 33 40) (4 ∷ 5 ∷ 11 ∷ 12 ∷ 15 ∷ 50 ∷ 3600 ∷ 99 ∷ [])
        ≡ 40 ∷ 40 ∷ 40 ∷ 40 ∷ 40 ∷ 72000 ∷ 40 ∷ 40 ∷ [])
unfolding formula_ticks
formula_ticks_test = (refl, refl, refl, refl)
