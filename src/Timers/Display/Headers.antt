-- ===== src/Timers/Display/Headers.antt =====
-- A row stands under its own header.
use nparse_plus.Prelude.{
  ◌≡◌, refl, sym, subst, Bool, true, false, ◌&&◌, not, Option, none, some, List, [], ◌∷◌, keep, All,
  All-append, All-mono, All-keep, arith, if◌then◌else◌, Bool-cases, inl, inr,
}
use nparse_plus.Text.{Text, text_eq, text_le, text_eq_iff}
use nparse_plus.Timers.Rows.{Row, you_group}
use nparse_plus.Timers.Display.{
  DisplayGroup, Orientation, target, spell, Groups, is_flip_candidate, insert_sorted, sorted,
  file_under, file_all, pop_group, sections, flips, is_flipped, by_key, by_target, you_section,
  group_rows_for_display,
}

All-insert_sorted {ℓ κ} :
    {A : Type ℓ} (P : A → Type κ) (key : A → Text) (x : A) (ys : List A)
    → P x
    → All P ys
    → All P (insert_sorted key x ys)
unfolding insert_sorted
All-insert_sorted P key x [] p h = (p, tt)
All-insert_sorted P key x (y ∷ ys) p h = elim (Bool-cases (text_le (key x) (key y))) [
  | inl e ↦ rw e (p, h)
  | inr e ↦ rw e (h.0, All-insert_sorted P key x ys p h.1)
]

All-sorted {ℓ κ} :
    {A : Type ℓ} (P : A → Type κ) (key : A → Text) (xs : List A) → All P xs → All P (sorted key xs)
unfolding sorted
All-sorted P key [] h = tt
All-sorted P key (x ∷ xs) h =
    All-insert_sorted P key x (sorted key xs) h.0 (All-sorted P key xs h.1)

-- Every group holds rows that meet a predicate at its key.
module _ (P : Text → Row → Type 0) where
  abbrev pub Filed : Text × List Row → Type 0
  Filed g = All (P g.0) g.1

  module _ (key : Row → Text) where
    Filed-file_under :
        (row : Row) (groups : Groups)
        → P (key row) row
        → All Filed groups
        → All Filed (file_under (key row) row groups)
    unfolding file_under
    Filed-file_under row [] p h = ((p, tt), tt)
    Filed-file_under row ((k, rows) ∷ groups) p h = elim (Bool-cases (text_eq k (key row))) [
      | inl e ↦ rw e (
        All-append (P k) rows (row ∷ []) h.0
            (subst (λ t. P t row) (sym ((text_eq_iff k (key row)).0 e)) p, tt),
        h.1,
      )
      | inr e ↦ rw e (h.0, Filed-file_under row groups p h.1)
    ]

    Filed-file_all :
        (rows : List Row) (groups : Groups)
        → All (λ r. P (key r) r) rows
        → All Filed groups
        → All Filed (file_all key rows groups)
    unfolding file_all
    Filed-file_all [] groups p h = h
    Filed-file_all (r ∷ rows) groups p h =
        Filed-file_all rows (file_under (key r) r groups) p.1 (Filed-file_under r groups p.0 h)

  Filed-pop_group :
      (key : Text) (groups : Groups) → All Filed groups → All Filed (pop_group key groups).1
  unfolding pop_group
  Filed-pop_group key [] h = tt
  Filed-pop_group key ((k, rows) ∷ groups) h = elim (Bool-cases (text_eq k key)) [
    | inl e ↦ rw e h.1
    | inr e ↦ rw e (h.0, Filed-pop_group key groups h.1)
  ]

  abbrev Popped : Text → Option (List Row) → Type 0
  Popped key none = Unit
  Popped key (some rows) = All (P key) rows

  Popped-pop_group :
      (key : Text) (groups : Groups) → All Filed groups → Popped key (pop_group key groups).0
  unfolding pop_group
  Popped-pop_group key [] h = tt
  Popped-pop_group key ((k, rows) ∷ groups) h = elim (Bool-cases (text_eq k key)) [
    | inl e ↦ rw e (subst (λ t. All (P t) rows) ((text_eq_iff k key).0 e) h.0)
    | inr e ↦ rw e (Popped-pop_group key groups h.1)
  ]

-- Under a target stand rows of that target; under a spell, beneficial buffs of that name on other
-- players.
abbrev pub FitsTarget : Text → Row → Type 0
FitsTarget header r = r.group ≡ header

abbrev pub FitsSpell : Text → Row → Type 0
FitsSpell header r = (r.name ≡ header) × (is_flip_candidate r ≡ true)

abbrev pub Fits : Orientation → Text → Row → Type 0
Fits target header r = FitsTarget header r
Fits spell header r = FitsSpell header r

abbrev pub IsFitting : DisplayGroup → Type 0
IsFitting g = All (Fits g.orientation g.header) g.rows

sections-IsFitting :
    (o : Orientation) (key : Row → Text) (groups : Groups)
    → All (Filed (Fits o)) groups
    → All IsFitting (sections o (sorted key) groups)
unfolding sections
sections-IsFitting o key [] h = tt
sections-IsFitting o key ((k, rows) ∷ groups) h =
    (All-sorted (Fits o k) key rows h.0, sections-IsFitting o key groups h.1)

you_section-IsFitting :
    (you : Option (List Row)) → Popped FitsTarget you_group you → All IsFitting (you_section you)
you_section-IsFitting none h = tt
you_section-IsFitting (some rows) h = (All-sorted (FitsTarget you_group) _ rows h, tt)

All-refl : (key : Row → Text) (rows : List Row) → All (λ r. key r ≡ key r) rows
All-refl key [] = tt
All-refl key (r ∷ rows) = (refl, All-refl key rows)

candidates-fit :
    (b : Bool) (rows : List Row)
    → All (λ r. FitsSpell r.name r) (keep (λ r. b && is_flip_candidate r) rows)
candidates-fit b rows =
    All-mono _ (λ (r : Row). FitsSpell r.name r) (λ r e. (refl, ground arith)) _
      (All-keep (λ r. b && is_flip_candidate r) rows)

spells-fit :
    (flip b : Bool) (rows : List Row)
    → All (Filed FitsSpell) (
        if flip
        then file_all (λ (r : Row). r.name) (keep (λ r. b && is_flip_candidate r) rows) []
        else [])
spells-fit true b rows =
    Filed-file_all FitsSpell (λ (r : Row). r.name) _ [] (candidates-fit b rows) tt
spells-fit false b rows = tt

-- Every row stands under a header that is its own: a section for a target holds rows of that
-- target, and a section for a spell holds rows of that name, each a beneficial buff on another
-- player that is no cooldown.
pub group_rows_for_display-IsFitting :
    (rows : List Row) (group_by_spell : Bool)
    → All IsFitting (group_rows_for_display rows group_by_spell)
unfolding group_rows_for_display
group_rows_for_display-IsFitting rows b =
    let candidates = keep (λ r. b && is_flip_candidate r) rows in
    let flip = flips candidates in
    let left = keep (λ r. not (is_flipped candidates flip r)) rows in
    let groups = file_all (λ (r : Row). r.group) left [] in
    let filed : All (Filed FitsTarget) groups =
      Filed-file_all FitsTarget (λ (r : Row). r.group) left [] (All-refl _ left) tt in
    let spells : Groups = if flip then file_all (λ (r : Row). r.name) candidates [] else [] in
    All-append IsFitting (you_section (pop_group you_group groups).0) _
      (you_section-IsFitting _ (Popped-pop_group FitsTarget you_group groups filed))
      (All-append IsFitting (sections spell by_target (by_key spells)) _
        (sections-IsFitting spell _ _ (All-sorted _ _ spells (spells-fit flip b rows)))
        (sections-IsFitting target _ _
          (All-sorted _ _ _ (Filed-pop_group FitsTarget you_group groups filed))))
