-- ===== src/Timers/Removals/Single.antt =====
-- What the removals take away, and what they leave.
use nparse_plus.Prelude.{
  ◌≡◌, refl, sym, ap, ◌∙◌, Bool, true, false, ◌||◌, not, some, List, [], ◌∷◌, map, keep, remove,
  remove_each, remove_each-keep, arith, if◌then◌else◌,
}
use nparse_plus.Text.{Text, casefold}
use nparse_plus.Timers.Rows.{Row, row_eq, row_eq_iff, anonymous}
use nparse_plus.Timers.Service.{Timers, notify_with}
use nparse_plus.Timers.Removals.{
  remove_single, try_remove_unambiguous_self, try_remove_unambiguous_other, remove_other, notify_if,
  is_self_match, is_other_match, is_group_match, is_named,
}

abbrev pub is_single : List Row → Bool
is_single (m ∷ []) = true
is_single _ = false

module _ (p : Row → Bool) (p-eq : (a b : Row) → row_eq a b ≡ true → p a ≡ p b) where
  remove-only :
      (m : Row) (rows : List Row)
      → keep p rows ≡ m ∷ []
      → remove row_eq m rows ≡ some (keep (λ r. not (p r)) rows)
  remove-only m rows h = ground (
    arith,
    ap (λ ms. remove_each row_eq ms rows) h,
    remove_each-keep row_eq p p-eq (λ r. (row_eq_iff r r).1 refl) rows,
  )

  by_matches :
      (ms rows : List Row)
      → keep p rows ≡ ms
      → remove_single ms rows
        ≡ some (if is_single ms then keep (λ r. not (p r)) rows else rows, is_single ms)
  unfolding remove_single
  by_matches [] rows h = refl
  by_matches (m ∷ []) rows h = rw (remove-only m rows h, remove_single)
  by_matches (m ∷ n ∷ ms) rows h = refl

  -- A removal that wants one match takes that row where there is one, and nothing else.
  remove_single-keep :
      (rows : List Row)
      → remove_single (keep p rows) rows
        ≡ some (
          if is_single (keep p rows) then keep (λ r. not (p r)) rows else rows,
          is_single (keep p rows),
        )
  remove_single-keep rows = by_matches (keep p rows) rows refl

respects :
    (p : Row → Bool)
    → ((r : Row) → p r ≡ p (anonymous r))
    → (a b : Row) → row_eq a b ≡ true
    → p a ≡ p b
respects p f a b h = f a ∙ ap p ((row_eq_iff a b).0 h) ∙ sym (f b)

-- The rows, and whether one of them went, where one match is wanted.
abbrev pub without_single : (Row → Bool) → List Row → List Row
without_single p rows = if is_single (keep p rows) then keep (λ r. not (p r)) rows else rows

notify_if-some :
    (s : Timers) (rows : List Row) (b : Bool)
    → notify_if s (some (rows, b)) ≡ some (if b then (notify_with rows s, true) else (s, false))
notify_if-some s rows b = refl

if-same {ℓ} :
    {A : Type ℓ} (b : Bool) (f : List Row → A) (xs ys : List Row) (z : A)
    → (if b then f (if b then xs else ys) else z) ≡ (if b then f xs else z)
if-same true f xs ys z = refl
if-same false f xs ys z = refl

-- Removing a spell of one's own by its possible names never fails. It takes the one row of one's
-- own that bears one of the names, regardless of case; where there is none, or more than one, it
-- takes nothing and calls no observer.
pub try_remove_unambiguous_self_lem :
    (n : Text) (names : List Text) (s : Timers)
    → let match = is_self_match (map casefold (n ∷ names)) in
      try_remove_unambiguous_self (n ∷ names) s
      ≡ some (
          if is_single (keep match s.rows)
          then (notify_with (keep (λ r. not (match r)) s.rows) s, true)
          else (s, false))
unfolding try_remove_unambiguous_self
try_remove_unambiguous_self_lem n names s =
    let match = is_self_match (map casefold (n ∷ names)) in
    ap (notify_if s) (remove_single-keep match (respects match (λ r. refl)) s.rows)
    ∙ ap some (
        if-same (is_single (keep match s.rows)) (λ rows. (notify_with rows s, true)) _ _ (s, false))

remove_other_lem :
    (names : List Text) (rows : List Row)
    → let rest = without_single (is_other_match names) rows in
      remove_other names rows
      ≡ some (
        without_single (is_group_match names) rest,
        is_single (keep (is_other_match names) rows)
            || is_single (keep (is_group_match names) rest),
      )
unfolding remove_other
remove_other_lem names rows =
    let other = is_other_match names in
    let group = is_group_match names in
    rw (remove_single-keep other (respects other (λ r. refl)) rows, remove_other)
      (rw (
        remove_single-keep group (respects group (λ r. refl)) (without_single other rows),
        remove_other,
      ))

-- Removing another's spell by its possible names never fails. Blank names aside, it takes the one
-- row of another that bears one of the names, and then, of the rows left, the one row whose group
-- is one of the names; with no match, or several, the step takes nothing. The observers are called
-- once if a row went.
pub try_remove_unambiguous_other_lem :
    (spell_names : List Text) (n : Text) (names : List Text) (s : Timers)
    → map casefold (keep is_named spell_names) ≡ n ∷ names
    → let rest = without_single (is_other_match (n ∷ names)) s.rows in
      let removed =
        is_single (keep (is_other_match (n ∷ names)) s.rows)
        || is_single (keep (is_group_match (n ∷ names)) rest) in
      try_remove_unambiguous_other spell_names s
      ≡ some (
          if removed
          then (notify_with (without_single (is_group_match (n ∷ names)) rest) s, true)
          else (s, false))
unfolding try_remove_unambiguous_other
try_remove_unambiguous_other_lem spell_names n names s h =
    rw h (ap (notify_if s) (remove_other_lem (n ∷ names) s.rows))
