-- ===== src/Logs/Split.antt =====
-- Splitting bytes at their line ends, in pieces.
use nparse_plus.Prelude.{
  ℕ, ◌≡◌, refl, sym, ap, subst, ◌∙◌, true, false, ◌||◌, List, [], ◌∷◌, ◌++◌, is_empty_list, arith,
  append-nil,
}
use nparse_plus.Logs.Bytes.{
  Bytes, newline, ends_with_newline, has_newline, rpartition, Split, fresh, feed, feed_all, flush,
  splitlines,
}

pub append_assoc {ℓ} : {A : Type ℓ} (xs ys zs : List A) → (xs ++ ys) ++ zs ≡ xs ++ (ys ++ zs)
append_assoc [] ys zs = refl
append_assoc (x ∷ xs) ys zs = ap (◌∷◌ x) (append_assoc xs ys zs)

-- Nothing, or bytes that end with a newline.
abbrev pub IsComplete : Bytes → Type 0
IsComplete bs = (is_empty_list bs || ends_with_newline bs) ≡ true

-- Reading in two pieces.
feed_all-append :
    (xs bs : Bytes) (s : Split)
    → feed_all (xs ++ bs) s
      ≡ ((feed_all xs s).0 ++ (feed_all bs (feed_all xs s).1).0, (feed_all bs (feed_all xs s).1).1)
unfolding feed_all
feed_all-append [] bs s = refl
feed_all-append (c ∷ xs) bs s =
    let read = feed c s in
    ap (λ (p : List Bytes × Split). (read.0 ++ p.0, p.1)) (feed_all-append xs bs read.1)
    ∙ ap (λ l. (l, (feed_all bs (feed_all xs read.1).1).1))
        (sym (append_assoc read.0 (feed_all xs read.1).0 (feed_all bs (feed_all xs read.1).1).0))

-- After a newline the reading starts afresh.
feed_all-fresh :
    (c : ℕ) (xs : Bytes) (s : Split)
    → ends_with_newline (c ∷ xs) ≡ true
    → (feed_all (c ∷ xs) s).1 ≡ fresh
unfolding feed_all ends_with_newline
feed_all-fresh c [] s h = ground arith
feed_all-fresh c (d ∷ xs) s h = feed_all-fresh d xs (feed c s).1 h

pub splitlines-append :
    (xs bs : Bytes) → IsComplete xs → splitlines (xs ++ bs) ≡ splitlines xs ++ splitlines bs
unfolding splitlines
splitlines-append [] bs h = refl
splitlines-append (c ∷ xs) bs h =
    let fr = feed_all-fresh c xs fresh h in
    let first = (feed_all (c ∷ xs) fresh).0 in
    let second = feed_all bs fresh in
    ap (λ (p : List Bytes × Split). p.0 ++ flush p.1) (feed_all-append (c ∷ xs) bs fresh)
    ∙ ap (λ st. (first ++ (feed_all bs st).0) ++ flush (feed_all bs st).1) fr
    ∙ append_assoc first second.0 (flush second.1)
    ∙ ap (λ l. l ++ (second.0 ++ flush second.1)) (sym (append-nil first))
    ∙ ap (λ st. (first ++ flush st) ++ (second.0 ++ flush second.1)) (sym fr)

-- The two parts of bytes that do not end with a newline.
pub rpartition-parts :
    (bs : Bytes) → has_newline bs ≡ true → (rpartition bs).0 ++ newline ∷ (rpartition bs).1 ≡ bs
unfolding rpartition
rpartition-parts [] h = cc
rpartition-parts (c ∷ bs) h = ground (arith, rpartition-parts bs)

pub rpartition_none : (bs : Bytes) → has_newline bs ≡ false → rpartition bs ≡ ([], bs)
unfolding rpartition
rpartition_none [] h = refl
rpartition_none (c ∷ bs) h = ground arith

pub rpartition-tail : (bs : Bytes) → has_newline (rpartition bs).1 ≡ false
unfolding rpartition
rpartition-tail [] = refl
rpartition-tail (c ∷ bs) = ground (arith, rpartition-tail bs)

pub ends-append : (xs : Bytes) → ends_with_newline (xs ++ newline ∷ []) ≡ true
unfolding ends_with_newline
ends-append [] = refl
ends-append (x ∷ xs) = ground (arith, ends-append xs)

ends-append_right :
    (xs : Bytes) (c : ℕ) (bs : Bytes)
    → ends_with_newline (xs ++ c ∷ bs) ≡ ends_with_newline (c ∷ bs)
unfolding ends_with_newline
ends-append_right [] c bs = refl
ends-append_right (x ∷ []) c bs = refl
ends-append_right (x ∷ y ∷ xs) c bs = ends-append_right (y ∷ xs) c bs

pub append-IsComplete : (xs bs : Bytes) → IsComplete xs → IsComplete bs → IsComplete (xs ++ bs)
append-IsComplete [] bs h k = k
append-IsComplete (x ∷ xs) [] h k = subst IsComplete (sym (append-nil (x ∷ xs))) h
append-IsComplete (x ∷ xs) (c ∷ bs) h k = ends-append_right (x ∷ xs) c bs ∙ k
