-- ===== src/Damage/Windows.antt =====
-- What the sweep over the hits carries, and the best window that it finds (core/dps.py).
use nparse_plus.Prelude.{
  ℕ, zero, suc, ◌+◌, ◌-◌, ◌≤◌, ◌≡◌, refl, sym, ap, ◌∙◌, Bool, true, false, List, [], ◌∷◌, ◌++◌,
  arith, keep, keep-All, All, All-mono, All-append, All-keep_of_All, max, ltb, leb, ◌==◌,
  Bool-cases, inl, inr, if◌then◌else◌,
}
use nparse_plus.Damage.Entity.{Hit, hits_from, slide}

abbrev pub total : List Hit → ℕ
total [] = 0
total (h ∷ hs) = h.damage + total hs

-- A hit that is less than a window older than the time.
abbrev pub is_within : ℕ → ℕ → Hit → Bool
is_within window t h = ltb t (h.time + window)

-- The damage in the window that ends at a hit, from the hits before it.
abbrev pub window_sum : ℕ → List Hit → Hit → ℕ
window_sum window earlier h = total (keep (is_within window h.time) earlier) + h.damage

-- The most damage in a window that ends at one of the hits.
abbrev pub best_among : ℕ → List Hit → List Hit → ℕ
best_among window earlier [] = 0
best_among window earlier (h ∷ hs) =
    max (window_sum window earlier h) (best_among window (earlier ++ h ∷ []) hs)

abbrev pub best_window : ℕ → List Hit → ℕ
best_window window hits = best_among window [] hits

abbrev pub IsLate : ℕ → List Hit → Type 0
IsLate t hs = All (λ h. h.time ≤ t) hs

-- Hits that come in the order of time, from a time on.
abbrev pub Follows : ℕ → List Hit → Type 0
Follows t [] = Unit
Follows t (h ∷ hs) = (t ≤ h.time) × Follows h.time hs

abbrev pub IsOrdered : List Hit → Type 0
IsOrdered [] = Unit
IsOrdered (h ∷ hs) = All (λ k. h.time ≤ k.time) hs × IsOrdered hs

pub IsOrdered-append :
    (xs : List Hit) (h : Hit) → IsOrdered xs → IsLate h.time xs → IsOrdered (xs ++ h ∷ [])
IsOrdered-append [] h o l = (tt, tt)
IsOrdered-append (x ∷ xs) h o l =
    (All-append (λ k. x.time ≤ k.time) xs (h ∷ []) o.0 (l.0, tt), IsOrdered-append xs h o.1 l.1)

pub IsOrdered-keep : (p : Hit → Bool) (xs : List Hit) → IsOrdered xs → IsOrdered (keep p xs)
IsOrdered-keep p [] o = tt
IsOrdered-keep p (x ∷ xs) o = elim (Bool-cases (p x)) [
  | inl e ↦ rw e (All-keep_of_All (λ k. x.time ≤ k.time) p xs o.0, IsOrdered-keep p xs o.1)
  | inr e ↦ rw e (IsOrdered-keep p xs o.1)
]

-- A later window keeps no hit that an earlier one has lost.
pub keep-keep_within :
    (window t u : ℕ) (xs : List Hit)
    → t ≤ u
    → keep (is_within window u) (keep (is_within window t) xs) ≡ keep (is_within window u) xs
keep-keep_within window t u [] h = refl
keep-keep_within window t u (x ∷ xs) h = ground (arith, keep-keep_within window t u xs h)

-- The hits at which the loop stops.
abbrev pub rest : ℕ → ℕ → List Hit → List Hit
rest window t [] = []
rest window t (h ∷ []) = h ∷ []
rest window t (h ∷ k ∷ hs) =
    let next = rest window t (k ∷ hs) in if leb (h.time + window) t then next else h ∷ k ∷ hs

pub hits_from-all : (hs : List Hit) → hits_from 0 hs ≡ hs
unfolding hits_from
hits_from-all [] = refl
hits_from-all (h ∷ hs) = refl

hits_from-suc :
    (left : ℕ) (h : Hit) (hs : List Hit) → hits_from (suc left) (h ∷ hs) ≡ hits_from left hs
unfolding hits_from
hits_from-suc left h hs =
    let e : suc left - 1 ≡ left = omega arith in
    let test : (suc left == 0) ≡ false = ground arith in rw (e, test) refl

hits_from-next :
    (left : ℕ) (hs : List Hit) (x : Hit) (xs : List Hit)
    → hits_from left hs ≡ x ∷ xs
    → hits_from (left + 1) hs ≡ xs
unfolding hits_from
hits_from-next left [] x xs e = cc
hits_from-next zero (h ∷ hs) x xs e = hits_from-all hs ∙ cc
hits_from-next (suc left) (h ∷ hs) x xs e =
    let next : suc left + 1 ≡ suc (left + 1) = omega arith in
    ap (λ n. hits_from n (h ∷ hs)) next
    ∙ hits_from-suc (left + 1) h hs
    ∙ hits_from-next left hs x xs (sym (hits_from-suc left h hs) ∙ e)

-- The hits from an index on, whatever comes after them.
abbrev pub From : ℕ → List Hit → List Hit → Type 0
From left seen xs = (zs : List Hit) → hits_from left (seen ++ zs) ≡ xs ++ zs

pub slide-From :
    (window t left sum : ℕ) (seen xs : List Hit)
    → From left seen xs
    → From (slide window t xs left sum).0 seen (rest window t xs)
unfolding slide
slide-From window t left sum seen [] f = f
slide-From window t left sum seen (h ∷ []) f = f
slide-From window t left sum seen (h ∷ k ∷ hs) f = elim (Bool-cases (leb (h.time + window) t)) [
  | inl e ↦ rw e (
      slide-From window t (left + 1) (sum - h.damage) seen (k ∷ hs)
        (λ zs. hits_from-next left (seen ++ zs) h (k ∷ hs ++ zs) (f zs)))
  | inr e ↦ rw e f
]

pub slide-total :
    (window t left sum : ℕ) (xs : List Hit)
    → sum ≡ total xs
    → (slide window t xs left sum).1 ≡ total (rest window t xs)
unfolding slide
slide-total window t left sum [] e = e
slide-total window t left sum (h ∷ []) e = e
slide-total window t left sum (h ∷ k ∷ hs) e = elim (Bool-cases (leb (h.time + window) t)) [
  | inl g ↦ rw g (slide-total window t (left + 1) (sum - h.damage) (k ∷ hs) (omega arith))
  | inr g ↦ rw g e
]

-- Where the first hit is within the window, all are.
within-All :
    (window t : ℕ) (x : Hit) (xs : List Hit)
    → leb (x.time + window) t ≡ false
    → All (λ k. x.time ≤ k.time) xs
    → All (λ k. is_within window t k ≡ true) xs
within-All window t x xs e o =
    All-mono (λ k. x.time ≤ k.time) (λ k. is_within window t k ≡ true) (λ k h. ground arith) xs o

pub rest-keep :
    (window t : ℕ) (ys : List Hit) (h : Hit)
    → IsOrdered ys
    → rest window t (ys ++ h ∷ []) ≡ keep (is_within window t) ys ++ h ∷ []
rest-keep window t [] h o = refl
rest-keep window t (y ∷ []) h o = elim (Bool-cases (leb (y.time + window) t)) [
  | inl e ↦ ground arith
  | inr e ↦ ground arith
]
rest-keep window t (y ∷ z ∷ zs) h o = elim (Bool-cases (leb (y.time + window) t)) [
  | inl e ↦ ground (arith, rest-keep window t (z ∷ zs) h o.1)
  | inr e ↦ rw e (
      ap (λ l. l ++ h ∷ [])
        (sym (
          keep-All (is_within window t) (y ∷ z ∷ zs)
            (ground arith, within-All window t y (z ∷ zs) e o.0))))
]
