-- ===== src/Timers/Display.antt =====
-- The sections of the spell window (core/timers.py): `group_rows_for_display` with its raid mode.
pub mod Perms
pub mod Headers
pub mod Laws
use nparse_plus.Prelude.{
  ℕ, Bool, true, false, ◌&&◌, ◌||◌, not, Option, none, some, List, [], ◌∷◌, ◌++◌, keep, any, length,
  if◌then◌else◌, ltb, ◌==◌, is_empty_list, map,
}
use nparse_plus.Text.{Text, casefold, text_eq, text_le}
use nparse_plus.Timers.Rows.{Row, Kind, spell_row, timer_row, counter_row, roll_row, you_group}

pub data Orientation : Type 0 where
  target spell : Orientation

pub record DisplayGroup : Type 0 where
  pub header : Text
  pub orientation : Orientation
  pub rows : List Row

-- A beneficial buff on another player.
unfoldable pub is_flip_candidate : Row → Bool
is_flip_candidate r = elim r.kind [
  | spell_row c f ↦
      (r.is_target_player && not (text_eq r.group you_group))
      && (not f.detrimental && not f.is_cooldown)
  | timer_row c f ↦ false
  | counter_row n ↦ false
  | roll_row c n m ↦ false
]

-- `sorted(xs, key=…)`: a stable sort by a key.
module _ {ℓ} {A : Type ℓ} (key : A → Text) where
  unfoldable pub insert_sorted : A → List A → List A
  insert_sorted x [] = x ∷ []
  insert_sorted x (y ∷ ys) = if text_le (key x) (key y) then x ∷ y ∷ ys else y ∷ insert_sorted x ys

  unfoldable pub sorted : List A → List A
  unfolding insert_sorted
  sorted [] = []
  sorted (x ∷ xs) = insert_sorted x (sorted xs)

-- A dict from a text to the rows filed under it, in the order of first insertion.
abbrev pub Groups : Type 0
Groups = List (Text × List Row)

-- `groups.setdefault(key, []).append(row)`
unfoldable pub file_under : Text → Row → Groups → Groups
file_under key row [] = (key, row ∷ []) ∷ []
file_under key row ((k, rows) ∷ groups) =
    if text_eq k key then (k, rows ++ row ∷ []) ∷ groups else (k, rows) ∷ file_under key row groups

-- The loop that files rows under the text `key` reads off them.
unfoldable pub file_all : (Row → Text) → List Row → Groups → Groups
unfolding file_under
file_all key [] groups = groups
file_all key (r ∷ rows) groups = file_all key rows (file_under (key r) r groups)

-- A set as the list of its members: those seen, and the new ones among the texts.
unfoldable pub uniques : List Text → List Text → List Text
uniques seen [] = seen
uniques seen (x ∷ xs) = uniques (if any (text_eq x) seen then seen else x ∷ seen) xs

-- `len({key(r) for r in rows})`
unfoldable pub distinct : List Text → ℕ
unfolding uniques
distinct xs = length (uniques [] xs)

-- `flip`: the buffs span more targets than spells.
unfoldable pub flips : List Row → Bool
unfolding distinct
flips candidates =
    not (is_empty_list candidates)
    && ltb (distinct (map (λ (r : Row). r.name) candidates))
        (distinct (map (λ (r : Row). r.group) candidates))

-- `target_groups.pop(YOU_GROUP)`: the rows under a key, and the dict without it
unfoldable pub pop_group : Text → Groups → Option (List Row) × Groups
pop_group key [] = (none, [])
pop_group key ((k, rows) ∷ groups) =
    let rest = pop_group key groups in
    if text_eq k key then (some rows, groups) else (rest.0, (k, rows) ∷ rest.1)

abbrev pub by_name : List Row → List Row
by_name rows = sorted (λ (r : Row). casefold r.name) rows

abbrev pub by_target : List Row → List Row
by_target rows = sorted (λ (r : Row). casefold r.group) rows

-- The sections of the groups in the order of their casefolded keys.
unfoldable pub sections : Orientation → (List Row → List Row) → Groups → List DisplayGroup
sections o order [] = []
sections o order ((k, rows) ∷ groups) =
    record { header = k; orientation = o; rows = order rows } ∷ sections o order groups

abbrev pub by_key : Groups → Groups
by_key groups = sorted (λ (g : Text × List Row). casefold g.0) groups

abbrev you_section : Option (List Row) → List DisplayGroup
you_section none = []
you_section (some rows) =
    record { header = you_group; orientation = target; rows = by_name rows } ∷ []

-- The rows that are shown under their spell.
unfoldable pub is_flipped : List Row → Bool → Row → Bool
is_flipped candidates flip r = flip && any (λ (c : Row). c.row_id == r.row_id) candidates

unfoldable pub group_rows_for_display : List Row → Bool → List DisplayGroup
unfolding is_flipped sections pop_group flips file_all is_flip_candidate sorted
group_rows_for_display rows group_by_spell =
    let candidates = keep (λ r. group_by_spell && is_flip_candidate r) rows in
    let flip = flips candidates in
    let target_groups =
      file_all (λ (r : Row). r.group) (keep (λ r. not (is_flipped candidates flip r)) rows) [] in
    let (you, others) = pop_group you_group target_groups in
    let spell_groups = if flip then file_all (λ (r : Row). r.name) candidates [] else [] in
    you_section you
    ++ (sections spell by_target (by_key spell_groups) ++ sections target by_name (by_key others))
