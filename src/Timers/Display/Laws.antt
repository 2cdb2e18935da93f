-- ===== src/Timers/Display/Laws.antt =====
-- Every row is shown_rows once, and under its own header.
use mathlib.Core.List.{Perm}
use mathlib.Core.List.Perm
use nparse_plus.Prelude.{
  ◌≡◌, refl, sym, ap, ◌∙◌, subst, Bool, true, false, ◌&&◌, not, Option, List, [], ◌∷◌, ◌++◌,
  append-nil, keep, any, All, All-mono, arith, if◌then◌else◌, ◌==◌,
}
use nparse_plus.Text.{Text}
use nparse_plus.Timers.Rows.{Row, you_group}
use nparse_plus.Timers.Display.{
  target, spell, Groups, is_flip_candidate, file_all, pop_group, sections, flips, is_flipped,
  by_key, by_name, by_target, you_section, group_rows_for_display,
}
use nparse_plus.Timers.Display.Perms.{
  all_rows, shown_rows, rows_of, shown_rows-append, file_all-perm, pop_group-perm,
  sorted_groups-perm, sections-perm, you_section-perm, partition-perm, sorted-perm, swap_front,
}

-- No two rows of the list are one object.
abbrev pub has_id : Row → Row → Bool
has_id r c = c.row_id == r.row_id

abbrev pub AreDistinct : List Row → Type 0
AreDistinct [] = Unit
AreDistinct (r ∷ rows) = (any (has_id r) rows ≡ false) × AreDistinct rows

any-keep_none {ℓ} :
    {A : Type ℓ} (p q : A → Bool) (xs : List A) → any q xs ≡ false → any q (keep p xs) ≡ false
any-keep_none p q [] h = refl
any-keep_none p q (x ∷ xs) h = ground (arith, any-keep_none p q xs)

-- Among distinct rows, those whose identity a test keeps are those that it keeps.
Kept : (Row → Bool) → List Row → Row → Type 0
Kept p rows r = any (has_id r) (keep p rows) ≡ p r

kept_later :
    (p : Row → Bool) (x : Row) (xs rows : List Row)
    → any (has_id x) rows ≡ false
    → All (λ r. any (has_id r) (keep p xs) ≡ p r) rows
    → All (λ r. any (has_id r) (keep p (x ∷ xs)) ≡ p r) rows
kept_later p x xs [] h a = tt
kept_later p x xs (r ∷ rows) h a = (ground arith, kept_later p x xs rows (ground arith) a.1)

keep-ids :
    (p : Row → Bool) (rows : List Row)
    → AreDistinct rows
    → All (λ r. any (has_id r) (keep p rows) ≡ p r) rows
keep-ids p [] d = tt
keep-ids p (r ∷ rows) d = (
  ground (arith, any-keep_none p (has_id r) rows),
  kept_later p r rows rows d.0 (keep-ids p rows d.1),
)

keep-ext {ℓ} :
    {A : Type ℓ} (p q : A → Bool) (xs : List A) → All (λ x. p x ≡ q x) xs → keep p xs ≡ keep q xs
keep-ext p q [] h = refl
keep-ext p q (x ∷ xs) h = ground (arith, keep-ext p q xs h.1)

abbrev candidate : Bool → Row → Bool
candidate group_by_spell r = group_by_spell && is_flip_candidate r

keep-true {ℓ} : {A : Type ℓ} (xs : List A) → keep (λ x. true) xs ≡ xs
keep-true [] = refl
keep-true (x ∷ xs) = ap (◌∷◌ x) (keep-true xs)

-- The flipped rows, with the others, are the rows.
flipped-perm :
    (rows : List Row) (p : Row → Bool) (flip : Bool)
    → AreDistinct rows
    → Perm
        ((if flip then keep p rows else [])
          ++ keep (λ r. not (is_flipped (keep p rows) flip r)) rows)
        rows
unfolding is_flipped
flipped-perm rows p false d = subst (λ l. Perm l rows) (sym (keep-true rows)) (Perm.refl rows)
flipped-perm rows p true d =
    subst (λ l. Perm (keep p rows ++ l) rows)
      (sym (
        keep-ext _ _ rows (
          All-mono _ (λ r. not (any (has_id r) (keep p rows)) ≡ not (p r)) (λ r e. ap not e) rows
            (keep-ids p rows d))))
      (partition-perm p rows)

filed-perm : (key : Row → Text) (rows : List Row) → Perm (all_rows (file_all key rows [])) rows
filed-perm key rows =
    subst (Perm (all_rows (file_all key rows []))) (append-nil rows) (file_all-perm key rows [])

spell_groups-perm :
    (flip : Bool) (rows : List Row)
    → Perm
        (all_rows (if flip then file_all (λ (r : Row). r.name) rows [] else []))
        (if flip then rows else [])
spell_groups-perm true rows = filed-perm (λ (r : Row). r.name) rows
spell_groups-perm false rows = Perm.refl []

-- The sections show what was popped and what was filed.
layout-perm :
    (you : Option (List Row)) (spells others : Groups)
    → Perm
        (shown_rows (
          you_section you
          ++ (sections spell by_target (by_key spells) ++ sections target by_name (by_key others))))
        (all_rows spells ++ (rows_of you ++ all_rows others))
layout-perm you spells others =
    let xs = sections spell by_target (by_key spells) in
    let ys = sections target by_name (by_key others) in
    let xs-perm : Perm (shown_rows xs) (all_rows spells) =
      Perm.trans (sections-perm spell by_target (by_key spells) (sorted-perm _))
        (sorted_groups-perm _ spells) in
    let ys-perm : Perm (shown_rows ys) (all_rows others) =
      Perm.trans (sections-perm target by_name (by_key others) (sorted-perm _))
        (sorted_groups-perm _ others) in
    subst (λ l. Perm l (all_rows spells ++ (rows_of you ++ all_rows others)))
      (sym (
        shown_rows-append (you_section you) (xs ++ ys)
        ∙ ap (λ k. shown_rows (you_section you) ++ k) (shown_rows-append xs ys)))
      (Perm.trans (Perm.append (you_section-perm you) (Perm.append xs-perm ys-perm))
        (swap_front (rows_of you) (all_rows spells) (all_rows others)))

-- Whatever the mode, the sections show every row once: taken together they hold the rows of the
-- window, each as often as it is there, where no two of them are one object.
pub group_rows_for_display-perm :
    (rows : List Row) (group_by_spell : Bool)
    → AreDistinct rows
    → Perm (shown_rows (group_rows_for_display rows group_by_spell)) rows
unfolding group_rows_for_display
group_rows_for_display-perm rows b d =
    let candidates = keep (candidate b) rows in
    let flip = flips candidates in
    let left = keep (λ r. not (is_flipped candidates flip r)) rows in
    let groups = file_all (λ (r : Row). r.group) left [] in
    let spells : Groups = if flip then file_all (λ (r : Row). r.name) candidates [] else [] in
    Perm.trans (layout-perm (pop_group you_group groups).0 spells (pop_group you_group groups).1) (
      Perm.trans
        (Perm.append (spell_groups-perm flip candidates)
          (Perm.trans (pop_group-perm you_group groups) (filed-perm (λ (r : Row). r.group) left)))
        (flipped-perm rows (candidate b) flip d))
