-- ===== src/Spells/Durations.antt =====
-- Buff durations (core/spells/durations.py): the caster level guessed for a spell, the tick
-- formulas, the discipline overrides and the grace tick. Ticks and seconds are whole numbers; a
-- row's duration is in microseconds, the resolution of the program's clock.
pub mod Levels
use nparse_plus.Prelude.{
  ℕ, suc, ◌+◌, ◌*◌, ◌/◌, Bool, true, ◌&&◌, Option, none, some, List, [], ◌∷◌, ltb, ◌==◌,
  if◌then◌else◌, is_yes, min,
}
use nparse_plus.Text.{Text, codes, text_eq}
use nparse_plus.Spells.{PlayerClass, PlayerClass-discrete, Spell, is_detrimental}

abbrev pub tick_seconds : ℕ
tick_seconds = 6

-- Microseconds in a second.
abbrev pub second : ℕ
second = 1_000_000

-- `spell.class_levels.get(player_class)`
unfoldable pub class_level : PlayerClass → List (PlayerClass × ℕ) → Option ℕ
class_level c [] = none
class_level c ((d, n) ∷ levels) =
    if is_yes (PlayerClass-discrete d c) then some n else class_level c levels

-- The first entry of the levels sorted from the highest down.
unfoldable pub highest_level : List (PlayerClass × ℕ) → Option ℕ
highest_level [] = none
highest_level ((_, n) ∷ levels) =
    some (elim (highest_level levels) [ none ↦ n | some m ↦ if ltb n m then m else n ])

-- `found if player_level < found else player_level`
abbrev pub at_least : ℕ → ℕ → ℕ
at_least found player_level = if ltb player_level found then found else player_level

-- `next(iter(spell.class_levels.values()), None)`
unfoldable pub first_level : List (PlayerClass × ℕ) → Option ℕ
first_level [] = none
first_level ((_, n) ∷ levels) = some n

-- The last paragraph of `match_closest_level`.
unfoldable pub default_level : Option ℕ → Option ℕ → ℕ
default_level (some (suc n)) player_level = suc n
default_level _ (some (suc n)) = suc n
default_level _ _ = 30

-- The level a class entry gives, where the class and the level are known.
unfoldable pub own_class_level : Spell → Option PlayerClass → Option ℕ → Option ℕ
unfolding class_level
own_class_level spell (some c) (some player_level) = elim (class_level c spell.class_levels) [
  | none ↦ none
  | some found ↦ some (at_least found player_level)
]
own_class_level spell _ _ = none

-- The level that the highest entry gives, where the player's level is known.
unfoldable pub any_class_level : Spell → Option ℕ → Option ℕ
unfolding highest_level
any_class_level spell none = none
any_class_level spell (some player_level) = elim (highest_level spell.class_levels) [
  | none ↦ none
  | some found ↦ some (at_least found player_level)
]

abbrev or_else : Option ℕ → ℕ → ℕ
or_else (some n) m = n
or_else none m = m

-- A level of 0 is falsy in `own_cast and player_level`.
abbrev cast_by_player : Bool → Option ℕ → Option ℕ
cast_by_player true (some (suc n)) = some (suc n)
cast_by_player _ _ = none

unfoldable pub match_closest_level : Spell → Option PlayerClass → Option ℕ → Bool → ℕ
unfolding own_class_level any_class_level default_level first_level
match_closest_level spell player_class player_level own_cast =
    or_else (cast_by_player own_cast player_level) (
      or_else (own_class_level spell player_class player_level) (
        or_else (any_class_level spell player_level)
          (default_level (first_level spell.class_levels) player_level)))

-- `ceil(n / 2.0)` and `ceil(n / 5.0 * 3)`: a whole quotient is exact in floating point, and any
-- other lies at least a fifth away from a whole number.
unfoldable pub formula_ticks : ℕ → ℕ → ℕ → ℕ
formula_ticks formula level duration =
    if formula == 0
    then 0
    else if formula == 1
    then min ((level + 1) / 2) duration
    else if formula == 6
    then min ((level + 1) / 2) duration
    else if formula == 2
    then min ((level * 3 + 4) / 5) duration
    else if formula == 3
    then min (level * 30) duration
    else if formula == 4
    then (if duration == 0 then 50 else duration)
    else if formula == 5
    then (if duration == 0 then 3 else duration)
    else if formula == 7
    then min level duration
    else if formula == 8
    then min (level + 10) duration
    else if formula == 9
    then min (level * 2 + 10) duration
    else if formula == 10
    then min (level * 3 + 10) duration
    else if formula == 50
    then 72000
    else if formula == 3600
    then (if duration == 0 then 3600 else duration)
    else duration

unfoldable pub get_duration_seconds : Spell → Option PlayerClass → Option ℕ → Bool → ℕ
unfolding match_closest_level formula_ticks
get_duration_seconds spell player_class player_level own_cast =
    formula_ticks spell.buff_duration_formula
      (match_closest_level spell player_class player_level own_cast) spell.buff_duration_ticks
    * tick_seconds

abbrev pub discipline_duration_overrides_s : List (Text × ℕ)
discipline_duration_overrides_s =
    (codes "Voiddance Discipline", 8)
    ∷ (codes "Weapon Shield Discipline", 20)
    ∷ (codes "Deftdance Discipline", 15)
    ∷ (codes "Furious Discipline", 9)
    ∷ (codes "Defensive Discipline", 180)
    ∷ (codes "Evasive Discipline", 180)
    ∷ (codes "Nimble Discipline", 12)
    ∷ (codes "Puretone Discipline", 240)
    ∷ []

unfoldable pub lookup_seconds : Text → List (Text × ℕ) → Option ℕ
lookup_seconds name [] = none
lookup_seconds name ((key, s) ∷ table) =
    if text_eq key name then some s else lookup_seconds name table

-- The discipline override, or else the formula's answer, in seconds.
unfoldable pub base_seconds : Spell → Option PlayerClass → Option ℕ → Bool → ℕ
unfolding lookup_seconds get_duration_seconds
base_seconds spell player_class player_level own_cast =
    or_else (lookup_seconds spell.name discipline_duration_overrides_s)
      (get_duration_seconds spell player_class player_level own_cast)

-- In microseconds, with the delay offset at its default of 0, as the timers service calls it.
unfoldable pub base_timer_duration : Spell → Option PlayerClass → Option ℕ → Bool → ℕ
base_timer_duration spell player_class player_level own_cast =
    base_seconds spell player_class player_level own_cast * second

-- In microseconds.
unfoldable pub npc_grace : Spell → Bool → ℕ
unfolding is_detrimental
npc_grace spell on_npc = if on_npc && is_detrimental spell then 6 * second else 0
