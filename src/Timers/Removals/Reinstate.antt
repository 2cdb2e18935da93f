-- ===== src/Timers/Removals/Reinstate.antt =====
-- Rows that are put back.
use nparse_plus.Prelude.{
  ◌≡◌, refl, sym, Bool, true, List, [], ◌∷◌, ◌++◌, keep, any, All, All-mono, keep_none, append-nil,
  arith, ◌==◌, Bool-cases, inl, inr,
}
use nparse_plus.Timers.Rows.{Row}
use nparse_plus.Timers.Service.{Timers}
use nparse_plus.Timers.Removals.{is_absent, extend_with, reinstate}

-- The rows that are asked for are there, by identity.
abbrev pub is_present : List Row → Row → Bool
is_present rows r = any (λ (q : Row). q.row_id == r.row_id) rows

is_present-append_left :
    (r : Row) (xs ys : List Row) → is_present xs r ≡ true → is_present (xs ++ ys) r ≡ true
is_present-append_left r [] ys h = cc
is_present-append_left r (x ∷ xs) ys h = ground (arith, is_present-append_left r xs ys)

is_present-append_right :
    (r : Row) (xs ys : List Row) → is_present ys r ≡ true → is_present (xs ++ ys) r ≡ true
is_present-append_right r [] ys h = h
is_present-append_right r (x ∷ xs) ys h = ground (arith, is_present-append_right r xs ys)

is_present-insert :
    (x r : Row) (xs ys : List Row)
    → is_present (xs ++ ys) x ≡ true
    → is_present (xs ++ r ∷ ys) x ≡ true
is_present-insert x r [] ys h = ground arith
is_present-insert x r (y ∷ xs) ys h = ground (arith, is_present-insert x r xs ys)

present_tail :
    (old more rows : List Row) (r : Row)
    → All (λ x. is_present (old ++ keep (is_absent old) more) x ≡ true) rows
    → All (λ x. is_present (old ++ keep (is_absent old) (r ∷ more)) x ≡ true) rows
present_tail old more rows r h = elim (Bool-cases (is_absent old r)) [
  | inl e ↦ rw e (All-mono _ _ (λ x. is_present-insert x r old (keep (is_absent old) more)) rows h)
  | inr e ↦ rw e h
]

present_head :
    (old more : List Row) (r : Row) → is_present (old ++ keep (is_absent old) (r ∷ more)) r ≡ true
present_head old more r = elim (Bool-cases (is_present old r)) [
  | inl e ↦ is_present-append_left r old (keep (is_absent old) (r ∷ more)) e
  | inr e ↦ is_present-append_right r old (keep (is_absent old) (r ∷ more)) (ground arith)
]

each_present :
    (old more : List Row) → All (λ r. is_present (old ++ keep (is_absent old) more) r ≡ true) more
each_present old [] = tt
each_present old (r ∷ more) =
    (present_head old more r, present_tail old more more r (each_present old more))

reinstated-rows :
    (rows : List Row) (s : Timers)
    → (reinstate rows s).0.rows ≡ s.rows ++ keep (is_absent s.rows) rows
unfolding reinstate
reinstated-rows rows s = extended (keep (is_absent s.rows) rows)
  where
    extended : (ms : List Row) → (extend_with ms s).0.rows ≡ s.rows ++ ms
    extended [] = sym (append-nil s.rows)
    extended (m ∷ ms) = refl

nothing_absent :
    (rows : List Row) (s : Timers)
    → All (λ r. is_present s.rows r ≡ true) rows
    → reinstate rows s ≡ (s, 0)
unfolding reinstate
nothing_absent rows s h = rw (keep_none (is_absent s.rows) rows (All-mono _ _ (λ r e. rw e) rows h))

-- After rows are put back, each of them is there, as the object it was; and putting them back again
-- changes nothing and calls no observer.
pub reinstate_idem :
    (rows : List Row) (s : Timers)
    → All (λ r. is_present (reinstate rows s).0.rows r ≡ true) rows
      × (reinstate rows (reinstate rows s).0 ≡ ((reinstate rows s).0, 0))
reinstate_idem rows s =
    let there : All (λ r. is_present (reinstate rows s).0.rows r ≡ true) rows =
      rw (reinstated-rows rows s) (each_present s.rows rows) in
    (there, nothing_absent rows (reinstate rows s).0 there)
