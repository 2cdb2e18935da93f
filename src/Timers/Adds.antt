-- ===== src/Timers/Adds.antt =====
-- What the operations that add rows promise: no add fails, and a name is held once in its group.
use nparse_plus.Prelude.{
  ℕ, ◌+◌, ◌-◌, ◌≡◌, refl, ap, Bool, true, false, none, some, List, [], ◌∷◌, ◌++◌, keep, find?,
  remove, length, keep-append, length-append, length-keep_if, one_if, arith, if◌then◌else◌,
  Bool-cases, Option-cases, inl, inr, max,
}
use nparse_plus.Text.{name_eq_iff}
use nparse_plus.Timers.Rows.{Row, Kind, row_eq, row_eq_iff, is_spell, is_timer}
use nparse_plus.Timers.Service.{Timers, notify_with, same_key, drop_existing, add_spell, add_timer}

-- The list without the first row that a test selects.
unfoldable pub drop_first : (Row → Bool) → List Row → List Row
drop_first p [] = []
drop_first p (r ∷ rows) = if p r then rows else r ∷ drop_first p rows

module _ (p : Row → Bool) (p-eq : (a b : Row) → row_eq a b ≡ true → p a ≡ p b) where
  find?-holds : (rows : List Row) (e : Row) → find? p rows ≡ some e → p e ≡ true
  find?-holds [] e h = ground arith
  find?-holds (r ∷ rows) e h = ground (arith, find?-holds rows e)

  remove-found :
      (rows : List Row) (e : Row)
      → find? p rows ≡ some e
      → remove row_eq e rows ≡ some (drop_first p rows)
  unfolding drop_first
  remove-found [] e h = ground arith
  remove-found (r ∷ rows) e h =
      ground (arith, p-eq r e, (row_eq_iff r r).1 refl, find?-holds rows e, remove-found rows e)

  drop_first-absent : (rows : List Row) → find? p rows ≡ none → drop_first p rows ≡ rows
  unfolding drop_first
  drop_first-absent [] h = refl
  drop_first-absent (r ∷ rows) h = ground (arith, drop_first-absent rows)

  -- `next` finds the first row, and `list.remove` removes that very row, not an equal one further
  -- up.
  pub drop_existing-drop_first : (rows : List Row) → drop_existing p rows ≡ some (drop_first p rows)
  unfolding drop_existing
  drop_existing-drop_first rows = elim (Option-cases (find? p rows)) [
    | inl e ↦ rw (e, drop_existing) (rw (drop_first-absent rows e))
    | inr (r, e) ↦ rw (e, drop_existing) (remove-found rows r e)
  ]

-- The rows of one class under one name and group.
abbrev pub held : (Kind → Bool) → Row → List Row → ℕ
held class k rows = length (keep (same_key class k) rows)

same_key-row_eq :
    (class : Kind → Bool) (k a b : Row)
    → row_eq a b ≡ true
    → same_key class k a ≡ same_key class k b
same_key-row_eq class k a b h = ap (same_key class k) ((row_eq_iff a b).0 h)

pub same_key_agree :
    (class : Kind → Bool) (k row r : Row)
    → same_key class k row ≡ true
    → same_key class k r ≡ same_key class row r
same_key_agree class k row r h = ground (
  arith,
  name_eq_iff row.name k.name,
  name_eq_iff row.group k.group,
  name_eq_iff r.name k.name,
  name_eq_iff r.group k.group,
  name_eq_iff r.name row.name,
  name_eq_iff r.group row.group,
)

-- The two directions of a key comparison.
pub same_key_apart :
    (class : Kind → Bool) (k row r : Row)
    → class row.kind ≡ true
    → same_key class k row ≡ false
    → same_key class row r ≡ true
    → same_key class k r ≡ false
same_key_apart class k row r c h m = ground (
  arith,
  name_eq_iff row.name k.name,
  name_eq_iff row.group k.group,
  name_eq_iff r.name k.name,
  name_eq_iff r.group k.group,
  name_eq_iff r.name row.name,
  name_eq_iff r.group row.group,
)

module _ (p q : Row → Bool) where
  length-drop_first_same :
      ((r : Row) → q r ≡ p r)
      → (rows : List Row) → length (keep q (drop_first p rows)) ≡ length (keep q rows) - 1
  unfolding drop_first
  length-drop_first_same e [] = omega arith
  length-drop_first_same e (r ∷ rows) = ground (arith, e r, length-drop_first_same e rows)

  length-drop_first_apart :
      ((r : Row) → p r ≡ true → q r ≡ false)
      → (rows : List Row) → length (keep q (drop_first p rows)) ≡ length (keep q rows)
  unfolding drop_first
  length-drop_first_apart e [] = refl
  length-drop_first_apart e (r ∷ rows) = ground (arith, e r, length-drop_first_apart e rows)

pub length-append_row :
    (q : Row → Bool) (rows : List Row) (row : Row)
    → length (keep q (rows ++ row ∷ [])) ≡ length (keep q rows) + one_if (q row)
length-append_row q rows row =
    rw (keep-append q rows (row ∷ []))
      (omega (arith, length-append (keep q rows) (keep q (row ∷ [])), length-keep_if q true row []))

abbrev pub replaced : (Kind → Bool) → Row → List Row → List Row
replaced class row rows = drop_first (same_key class row) rows ++ row ∷ []

held-replaced :
    (class : Kind → Bool) (row k : Row) (rows : List Row)
    → class row.kind ≡ true
    → held class k (replaced class row rows)
      ≡ (if same_key class k row then max 1 (held class k rows) else held class k rows)
held-replaced class row k rows c = elim (Bool-cases (same_key class k row)) [
  | inl e ↦ rw e (
      omega (
        arith,
        length-append_row (same_key class k) (drop_first (same_key class row) rows) row,
        ap one_if e,
        length-drop_first_same (same_key class row) (same_key class k)
            (λ r. same_key_agree class k row r e) rows,
      ))
  | inr e ↦ rw e (
      omega (
        arith,
        length-append_row (same_key class k) (drop_first (same_key class row) rows) row,
        ap one_if e,
        length-drop_first_apart (same_key class row) (same_key class k)
            (λ r m. same_key_apart class k row r c e m) rows,
      ))
]

drop_existing-key :
    (class : Kind → Bool) (row : Row) (rows : List Row)
    → drop_existing (same_key class row) rows ≡ some (drop_first (same_key class row) rows)
drop_existing-key class row rows =
    drop_existing-drop_first (same_key class row) (same_key-row_eq class row) rows

-- Adding a spell with `overwrite` never fails: the first spell under its name and group goes, all
-- else keeps its order, the row comes last, and the change is announced once. Its name and group
-- then hold as many spells as before, or one where they held none; every other name and group
-- holds as many as before.
pub add_spell-overwrite :
    (row : Row) (s : Timers)
    → is_spell row.kind ≡ true
    → (add_spell row true s ≡ some (notify_with (replaced is_spell row s.rows) s))
      × ((k : Row)
          → held is_spell k (replaced is_spell row s.rows) ≡ (
              if same_key is_spell k row
              then max 1 (held is_spell k s.rows)
              else held is_spell k s.rows))
unfolding add_spell
add_spell-overwrite row s c =
    (rw (drop_existing-key is_spell row s.rows), λ k. held-replaced is_spell row k s.rows c)

-- Adding a timer where duplicates are not allowed does the same among the timers.
pub add_timer_unique :
    (row : Row) (s : Timers)
    → is_timer row.kind ≡ true
    → (add_timer row false s ≡ some (notify_with (replaced is_timer row s.rows) s))
      × ((k : Row)
          → held is_timer k (replaced is_timer row s.rows) ≡ (
              if same_key is_timer k row
              then max 1 (held is_timer k s.rows)
              else held is_timer k s.rows))
unfolding add_timer
add_timer_unique row s c =
    (rw (drop_existing-key is_timer row s.rows), λ k. held-replaced is_timer row k s.rows c)
