-- ===== src/Timers/Display/Perms.antt =====
-- Filing, popping, sorting and laying out rows loses none of them.
use mathlib.Core.List.{Perm, perm_middle, perm_append_comm}
use mathlib.Core.List.Perm
use nparse_plus.Prelude.{
  ◌≡◌, refl, sym, ap, ◌∙◌, subst, Bool, not, Option, none, some, List, [], ◌∷◌, ◌++◌, append_assoc,
  append-nil, keep, Bool-cases, inl, inr,
}
use nparse_plus.Text.{Text, text_eq, text_le}
use nparse_plus.Timers.Rows.{Row}
use nparse_plus.Timers.Display.{
  DisplayGroup, Orientation, Groups, insert_sorted, sorted, file_under, file_all, pop_group,
  sections, by_name, you_section,
}

-- All the rows of the groups, of the sections, of a group that may be missing.
abbrev pub all_rows : Groups → List Row
all_rows [] = []
all_rows ((k, rows) ∷ groups) = rows ++ all_rows groups

abbrev pub shown_rows : List DisplayGroup → List Row
shown_rows [] = []
shown_rows (g ∷ groups) = g.rows ++ shown_rows groups

abbrev pub rows_of : Option (List Row) → List Row
rows_of none = []
rows_of (some rows) = rows

pub shown_rows-append :
    (xs ys : List DisplayGroup) → shown_rows (xs ++ ys) ≡ shown_rows xs ++ shown_rows ys
shown_rows-append [] ys = refl
shown_rows-append (g ∷ xs) ys =
    ap (λ k. g.rows ++ k) (shown_rows-append xs ys)
    ∙ sym (append_assoc g.rows (shown_rows xs) (shown_rows ys))

insert_sorted-perm {ℓ} :
    {A : Type ℓ} (key : A → Text) (x : A) (ys : List A) → Perm (insert_sorted key x ys) (x ∷ ys)
unfolding insert_sorted
insert_sorted-perm key x [] = Perm.refl _
insert_sorted-perm key x (y ∷ ys) = elim (Bool-cases (text_le (key x) (key y))) [
  | inl e ↦ rw e (Perm.refl _)
  | inr e ↦ rw e (Perm.trans (Perm.cons y (insert_sorted-perm key x ys)) (Perm.swap x y ys))
]

pub sorted-perm {ℓ} : {A : Type ℓ} (key : A → Text) (xs : List A) → Perm (sorted key xs) xs
unfolding sorted
sorted-perm key [] = Perm.refl []
sorted-perm key (x ∷ xs) =
    Perm.trans (insert_sorted-perm key x (sorted key xs)) (Perm.cons x (sorted-perm key xs))

-- Two lists in front of a third change places.
pub swap_front {ℓ} : {A : Type ℓ} (xs ys zs : List A) → Perm (xs ++ (ys ++ zs)) (ys ++ (xs ++ zs))
swap_front xs ys zs =
    subst (λ k. Perm k (ys ++ (xs ++ zs))) (append_assoc xs ys zs)
      (subst (Perm ((xs ++ ys) ++ zs)) (append_assoc ys xs zs)
        (Perm.append_right zs (perm_append_comm xs ys)))

-- A row filed goes to the front, as far as the set of rows is concerned.
file_under-perm :
    (key : Text) (row : Row) (groups : Groups)
    → Perm (all_rows (file_under key row groups)) (row ∷ all_rows groups)
unfolding file_under
file_under-perm key row [] = Perm.refl _
file_under-perm key row ((k, rows) ∷ groups) = elim (Bool-cases (text_eq k key)) [
  | inl e ↦ rw e (
      subst (λ l. Perm l (row ∷ (rows ++ all_rows groups)))
        (sym (append_assoc rows (row ∷ []) (all_rows groups))) (perm_middle rows (all_rows groups)))
  | inr e ↦ rw e (
      Perm.trans (Perm.append_left rows (file_under-perm key row groups))
        (perm_middle rows (all_rows groups)))
]

pub file_all-perm :
    (key : Row → Text) (rows : List Row) (groups : Groups)
    → Perm (all_rows (file_all key rows groups)) (rows ++ all_rows groups)
unfolding file_all
file_all-perm key [] groups = Perm.refl _
file_all-perm key (r ∷ rows) groups =
    Perm.trans (file_all-perm key rows (file_under (key r) r groups)) (
      Perm.trans (Perm.append_left rows (file_under-perm (key r) r groups))
        (perm_middle rows (all_rows groups)))

pub pop_group-perm :
    (key : Text) (groups : Groups)
    → Perm (rows_of (pop_group key groups).0 ++ all_rows (pop_group key groups).1) (all_rows groups)
unfolding pop_group
pop_group-perm key [] = Perm.refl []
pop_group-perm key ((k, rows) ∷ groups) = elim (Bool-cases (text_eq k key)) [
  | inl e ↦ rw e (Perm.refl _)
  | inr e ↦ rw e (
      Perm.trans
        (swap_front (rows_of (pop_group key groups).0) rows (all_rows (pop_group key groups).1))
        (Perm.append_left rows (pop_group-perm key groups)))
]

insert_group-perm :
    (key : Text × List Row → Text) (g : Text × List Row) (groups : Groups)
    → Perm (all_rows (insert_sorted key g groups)) (g.1 ++ all_rows groups)
unfolding insert_sorted
insert_group-perm key (k, rows) [] = Perm.refl _
insert_group-perm key (k, rows) ((j, others) ∷ groups) =
    elim (Bool-cases (text_le (key (k, rows)) (key (j, others)))) [
      | inl e ↦ rw e (Perm.refl _)
      | inr e ↦ rw e (
          Perm.trans (Perm.append_left others (insert_group-perm key (k, rows) groups))
            (swap_front others rows (all_rows groups)))
    ]

pub sorted_groups-perm :
    (key : Text × List Row → Text) (groups : Groups)
    → Perm (all_rows (sorted key groups)) (all_rows groups)
unfolding sorted
sorted_groups-perm key [] = Perm.refl []
sorted_groups-perm key ((k, rows) ∷ groups) =
    Perm.trans (insert_group-perm key (k, rows) (sorted key groups))
      (Perm.append_left rows (sorted_groups-perm key groups))

pub sections-perm :
    (o : Orientation) (order : List Row → List Row) (groups : Groups)
    → ((rows : List Row) → Perm (order rows) rows)
    → Perm (shown_rows (sections o order groups)) (all_rows groups)
unfolding sections
sections-perm o order [] h = Perm.refl []
sections-perm o order ((k, rows) ∷ groups) h = Perm.append (h rows) (sections-perm o order groups h)

pub you_section-perm : (o : Option (List Row)) → Perm (shown_rows (you_section o)) (rows_of o)
you_section-perm none = Perm.refl []
you_section-perm (some rows) =
    subst (λ l. Perm l rows) (sym (append-nil (by_name rows))) (sorted-perm _ rows)

-- A list is what a test keeps and what it does not.
pub partition-perm {ℓ} :
    {A : Type ℓ} (p : A → Bool) (xs : List A) → Perm (keep p xs ++ keep (λ x. not (p x)) xs) xs
partition-perm p [] = Perm.refl []
partition-perm p (x ∷ xs) = elim (Bool-cases (p x)) [
  | inl e ↦ rw e (Perm.cons x (partition-perm p xs))
  | inr e ↦ rw e (
      Perm.trans (perm_middle (keep p xs) (keep (λ x. not (p x)) xs))
        (Perm.cons x (partition-perm p xs)))
]
