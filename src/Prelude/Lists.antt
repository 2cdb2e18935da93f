-- ===== src/Prelude/Lists.antt =====
-- Lists under Boolean tests, with native lengths: what `next`, comprehensions, `list.remove` and
-- `list.index` of Python do.
use Prim.Native.Nat.{ℕ, suc, ◌+◌, ◌≤◌}
use mathlib.Core.Path.{◌≡◌, refl, sym, ap, subst, ◌∙◌}
use mathlib.Core.Bool.{Bool, true, false, not, ◌&&◌, ◌||◌}
use mathlib.Core.Option.{Option, none, some}
use mathlib.Core.Logic.{inl, inr}
use mathlib.Core.Option
use mathlib.Core.List.{List, [], ◌∷◌, ◌++◌}
use native.Mathlib.Omega.{arith}
use nparse_plus.Prelude.Tests.{if◌then◌else◌, Bool-cases, Option-cases}

abbrev pub one_if : Bool → ℕ
one_if true = 1
one_if false = 0

module _ {ℓ} {A : Type ℓ} where
  abbrev pub length : List A → ℕ
  length [] = 0
  length (x ∷ xs) = suc (length xs)

  -- `not xs`
  abbrev pub is_empty_list : List A → Bool
  is_empty_list [] = true
  is_empty_list (x ∷ xs) = false

  -- `[x for x in xs if p(x)]`
  abbrev pub keep : (A → Bool) → List A → List A
  keep p [] = []
  keep p (x ∷ xs) = if p x then x ∷ keep p xs else keep p xs

  -- `next((x for x in xs if p(x)), None)`
  abbrev pub find? : (A → Bool) → List A → Option A
  find? p [] = none
  find? p (x ∷ xs) = if p x then some x else find? p xs

  -- `any(p(x) for x in xs)`
  abbrev pub any : (A → Bool) → List A → Bool
  any p [] = false
  any p (x ∷ xs) = p x || any p xs

  abbrev pub All {κ} : (A → Type κ) → List A → Type κ
  All P [] = Unit
  All P (x ∷ xs) = P x × All P xs

  pub keep-append : (p : A → Bool) (xs ys : List A) → keep p (xs ++ ys) ≡ keep p xs ++ keep p ys
  keep-append p [] ys = refl
  keep-append p (x ∷ xs) ys = ground (arith, keep-append p xs ys)

  pub length-keep_if :
      (p : A → Bool) (b : Bool) (x : A) (xs : List A)
      → length (keep p (if b then x ∷ xs else xs)) ≡ one_if (b && p x) + length (keep p xs)
  length-keep_if p true x xs = ground arith
  length-keep_if p false x xs = omega arith

  pub length-keep-le : (p : A → Bool) (xs : List A) → length (keep p xs) ≤ length xs
  length-keep-le p [] = omega arith
  length-keep-le p (x ∷ xs) = ground (arith, length-keep-le p xs)

  pub length-append : (xs ys : List A) → length (xs ++ ys) ≡ length xs + length ys
  length-append [] ys = omega arith
  length-append (x ∷ xs) ys = omega (arith, length-append xs ys)

  -- A test that fails throughout keeps nothing; one that holds throughout keeps everything.
  pub keep_none : (p : A → Bool) (xs : List A) → All (λ x. p x ≡ false) xs → keep p xs ≡ []
  keep_none p [] h = refl
  keep_none p (x ∷ xs) h = ground (arith, keep_none p xs h.1)

  pub keep-All : (p : A → Bool) (xs : List A) → All (λ x. p x ≡ true) xs → keep p xs ≡ xs
  keep-All p [] h = refl
  keep-All p (x ∷ xs) h = ground (arith, keep-All p xs h.1)

  pub All-keep : (p : A → Bool) (xs : List A) → All (λ x. p x ≡ true) (keep p xs)
  All-keep p [] = tt
  All-keep p (x ∷ xs) = ground (arith, All-keep p xs)

  All-if {κ} :
      (P : A → Type κ) (b : Bool) (xs ys : List A)
      → All P xs
      → All P ys
      → All P (if b then xs else ys)
  All-if P true xs ys h k = h
  All-if P false xs ys h k = k

  pub All-keep_of_All {κ} :
      (P : A → Type κ) (p : A → Bool) (xs : List A) → All P xs → All P (keep p xs)
  All-keep_of_All P p [] h = tt
  All-keep_of_All P p (x ∷ xs) h =
      All-if P (p x) (x ∷ keep p xs) (keep p xs) (h.0, All-keep_of_All P p xs h.1)
        (All-keep_of_All P p xs h.1)

  pub All-append {κ} : (P : A → Type κ) (xs ys : List A) → All P xs → All P ys → All P (xs ++ ys)
  All-append P [] ys h k = k
  All-append P (x ∷ xs) ys h k = (h.0, All-append P xs ys h.1 k)

  pub All-mono {κ ι} :
      (P : A → Type κ) (Q : A → Type ι)
      → ((x : A) → P x → Q x)
      → (xs : List A) → All P xs
      → All Q xs
  All-mono P Q f [] h = tt
  All-mono P Q f (x ∷ xs) h = (f x h.0, All-mono P Q f xs h.1)

-- The list of what a function gives for the elements, in order.
module _ {ℓ κ} {A : Type ℓ} {B : Type κ} (f : A → Option B) where
  abbrev pub collect : List A → List B
  collect [] = []
  collect (x ∷ xs) = elim (f x) [ none ↦ collect xs | some y ↦ y ∷ collect xs ]

  pub collect-some :
      (x : A) (y : B) (xs : List A) → f x ≡ some y → collect (x ∷ xs) ≡ y ∷ collect xs
  collect-some x y xs h = rw (h, collect)

  pub collect-none : (x : A) (xs : List A) → f x ≡ none → collect (x ∷ xs) ≡ collect xs
  collect-none x xs h = rw (h, collect)

  pub collect-append : (xs ys : List A) → collect (xs ++ ys) ≡ collect xs ++ collect ys
  collect-append [] ys = refl
  collect-append (x ∷ xs) ys = elim (Option-cases (f x)) [
    | inl e ↦ rw (collect-none x (xs ++ ys) e, collect-none x xs e) (collect-append xs ys)
    | inr (y, e) ↦
        rw (collect-some x y (xs ++ ys) e, collect-some x y xs e)
          (ap (◌∷◌ y) (collect-append xs ys))
  ]

  pub All-collect {ι χ} :
      (P : A → Type ι) (Q : B → Type χ)
      → ((x : A) (y : B) → f x ≡ some y → P x → Q y)
      → (xs : List A) → All P xs
      → All Q (collect xs)
  All-collect P Q g [] h = tt
  All-collect P Q g (x ∷ xs) h = elim (Option-cases (f x)) [
    | inl e ↦ subst (All Q) (sym (collect-none x xs e)) (All-collect P Q g xs h.1)
    | inr (y, e) ↦
        subst (All Q) (sym (collect-some x y xs e)) (g x y e h.0, All-collect P Q g xs h.1)
  ]

-- Two lists of which two functions give the same.
pub collect-cons {ℓ κ ι} :
    {A : Type ℓ} {C : Type κ} {B : Type ι} (f : A → Option B) (g : C → Option B) (x : A) (y : C)
    (xs : List A) (ys : List C)
    → f x ≡ g y
    → collect f xs ≡ collect g ys
    → collect f (x ∷ xs) ≡ collect g (y ∷ ys)
collect-cons f g x y xs ys h k = elim (Option-cases (g y)) [
  | inl e ↦ collect-none f x xs (h ∙ e) ∙ k ∙ sym (collect-none g y ys e)
  | inr (b, e) ↦ collect-some f x b xs (h ∙ e) ∙ ap (◌∷◌ b) k ∙ sym (collect-some g y b ys e)
]

-- `xs.remove(y)` by an equality test: the first equal element goes; `none` is ValueError.
module _ {ℓ} {A : Type ℓ} (beq : A → A → Bool) where
  abbrev pub remove : A → List A → Option (List A)
  remove y [] = none
  remove y (x ∷ xs) = if beq x y then some xs else Option.map (◌∷◌ x) (remove y xs)

  -- `for y in ys: xs.remove(y)`
  abbrev pub remove_each : List A → List A → Option (List A)
  remove_each [] xs = some xs
  remove_each (y ∷ ys) xs = elim (remove y xs) [ none ↦ none | some rest ↦ remove_each ys rest ]

  module _ (p : A → Bool) (p-beq : (x y : A) → beq x y ≡ true → p x ≡ p y) where
    remove_each_skip :
        (x : A) (ys xs : List A)
        → p x ≡ false
        → All (λ y. p y ≡ true) ys
        → remove_each ys (x ∷ xs) ≡ Option.map (◌∷◌ x) (remove_each ys xs)
    remove_each_skip x [] xs h a = refl
    remove_each_skip x (y ∷ ys) xs h a = elim (Bool-cases (beq x y)) [
      | inl e ↦ cc (p-beq x y e)
      | inr e ↦ elim (Option-cases (remove y xs)) [
        | inl f ↦ rw (e, remove_each) (rw (f, remove_each))
        | inr (rest, f) ↦
            rw (e, remove_each) (rw (f, remove_each) (remove_each_skip x ys rest h a.1))
      ]
    ]

    -- Removing, one by one, the elements that a test selects leaves the others in their order; no
    -- removal fails.
    pub remove_each-keep :
        ((x : A) → beq x x ≡ true)
        → (xs : List A) → remove_each (keep p xs) xs ≡ some (keep (λ x. not (p x)) xs)
    remove_each-keep same [] = refl
    remove_each-keep same (x ∷ xs) = elim (Bool-cases (p x)) [
      | inl e ↦ rw e (rw (same x, remove_each) (remove_each-keep same xs))
      | inr e ↦ rw e (
          remove_each_skip x (keep p xs) xs e (All-keep p xs)
          ∙ ap (Option.map (◌∷◌ x)) (remove_each-keep same xs))
    ]
