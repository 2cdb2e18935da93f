-- ===== src/Timers/Counters.antt =====
-- Counters keep the tally of their key.
use nparse_plus.Prelude.{
  ℕ, suc, ◌+◌, ◌≡◌, refl, ap, Bool, true, false, Option, none, some, List, [], ◌∷◌, ◌++◌, find?,
  length, length-append, one_if, arith, if◌then◌else◌, Bool-cases, inl, inr,
}
use nparse_plus.Text.{name_eq_iff}
use nparse_plus.Timers.Rows.{Row, Kind, spell_row, timer_row, counter_row, roll_row, is_counter}
use nparse_plus.Timers.Service.{Timers, same_key, update_first, bumped, add_counter}

-- The tally of a key: the sum of the counts of its counters.
abbrev count_of : Kind → ℕ
count_of (counter_row n) = n
count_of (spell_row c f) = 0
count_of (timer_row c f) = 0
count_of (roll_row c n m) = 0

abbrev pub tally : Row → List Row → ℕ
tally k [] = 0
tally k (r ∷ rows) = (if same_key is_counter k r then count_of r.kind else 0) + tally k rows

tally-append : (k : Row) (xs ys : List Row) → tally k (xs ++ ys) ≡ tally k xs + tally k ys
tally-append k [] ys = omega arith
tally-append k (r ∷ xs) ys = omega (arith, tally-append k xs ys)

-- A counter that is refreshed counts one more, under the same key.
tally-bumped :
    (k r : Row) (kind : Kind) (now : ℕ)
    → is_counter kind ≡ true
    → tally k (bumped now (record r { kind = kind }) ∷ [])
      ≡ tally k (record r { kind = kind } ∷ [])
        + one_if (same_key is_counter k (record r { kind = kind }))
tally-bumped k r (counter_row n) now c = ground arith
tally-bumped k r _ now c = cc

abbrev pub found? : Option Row → Bool
found? none = false
found? (some r) = true

-- What `update_first` does to the tally of a key, and where it finds no counter.
abbrev Counted : Row → Row → List Row → Option (List Row) → Type 0
Counted k row rows none = find? (same_key is_counter row) rows ≡ none
Counted k row rows (some rows') =
    (tally k rows' ≡ tally k rows + one_if (same_key is_counter k row))
    × (length rows' ≡ length rows)
    × (found? (find? (same_key is_counter row) rows) ≡ true)

-- Two counters under one key lie under the same keys.
same_key_shift :
    (k row r : Row)
    → is_counter row.kind ≡ true
    → same_key is_counter row r ≡ true
    → same_key is_counter k r ≡ same_key is_counter k row
same_key_shift k row r c h = ground (
  arith,
  name_eq_iff row.name k.name,
  name_eq_iff row.group k.group,
  name_eq_iff r.name k.name,
  name_eq_iff r.group k.group,
  name_eq_iff r.name row.name,
  name_eq_iff r.group row.group,
)

is_counter_of_key : (row r : Row) → same_key is_counter row r ≡ true → is_counter r.kind ≡ true
is_counter_of_key row r h = ground arith

Counted-cons :
    (k row r : Row) (rows : List Row) (o : Option (List Row))
    → same_key is_counter row r ≡ false
    → Counted k row rows o
    → Counted k row (r ∷ rows) (elim o [ none ↦ none | some rest ↦ some (r ∷ rest) ])
Counted-cons k row r rows none e h = rw e h
Counted-cons k row r rows (some rest) e h = (omega (arith, h.0), ap suc h.1, rw e h.2)

update_first-Counted :
    (k row : Row) (rows : List Row)
    → is_counter row.kind ≡ true
    → Counted k row rows (update_first (same_key is_counter row) (bumped row.updated_at) rows)
unfolding update_first
update_first-Counted k row [] c = refl
update_first-Counted k row (r ∷ rows) c = elim (Bool-cases (same_key is_counter row r)) [
  | inl e ↦ rw e (
    omega (
      arith,
      tally-bumped k r r.kind row.updated_at (is_counter_of_key row r e),
      ap one_if (same_key_shift k row r c e),
    ),
    refl,
    rw e,
  )
  | inr e ↦ rw e (Counted-cons k row r rows _ e (update_first-Counted k row rows c))
]

-- What a counter adds to its own key: one where a counter is there, else its own count.
abbrev pub added : Row → Option Row → ℕ
added row none = count_of row.kind
added row (some r) = 1

abbrev tallied : Row → Row → List Row → ℕ
tallied k row rows =
    tally k rows
    + (if same_key is_counter k row then added row (find? (same_key is_counter row) rows) else 0)

add_counter_by :
    (k row : Row) (s : Timers) (o : Option (List Row))
    → o ≡ update_first (same_key is_counter row) (bumped row.updated_at) s.rows
    → Counted k row s.rows o
    → (tally k (add_counter row s).rows ≡ tallied k row s.rows)
      × (length (add_counter row s).rows
          ≡ length s.rows + (if found? (find? (same_key is_counter row) s.rows) then 0 else 1))
unfolding add_counter
add_counter_by k row s none e h =
    rw (← e, add_counter, h)
      (
        omega (arith, tally-append k s.rows (row ∷ [])),
        omega (arith, length-append s.rows (row ∷ [])),
      )
add_counter_by k row s (some rows) e h = rw (← e, add_counter) (ground arith)

-- A counter is counted once under its key: where the key has a counter, its tally grows by one and
-- no row is added; where it has none, the row is added with its own count. The tallies of the
-- other keys stay.
pub tally-add_counter :
    (k row : Row) (s : Timers)
    → is_counter row.kind ≡ true
    → (tally k (add_counter row s).rows
        ≡ tally k s.rows
          + (if same_key is_counter k row
              then added row (find? (same_key is_counter row) s.rows)
              else 0))
      × (length (add_counter row s).rows
          ≡ length s.rows + (if found? (find? (same_key is_counter row) s.rows) then 0 else 1))
tally-add_counter k row s c = add_counter_by k row s _ refl (update_first-Counted k row s.rows c)
