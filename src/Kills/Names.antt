-- ===== src/Kills/Names.antt =====
-- The name of a respawn row (core/handlers/spawn_timer.py, `_unique_dead_name`).
use nparse_plus.Prelude.{
  ℕ, zero, suc, ◌+◌, ◌≤◌, ◌<◌, ◌≡◌, refl, Bool, true, false, Bool-cases, inl, inr, List, ◌⊎◌, arith,
  ap, ◌∙◌, ℕ_discrete,
}
use nparse_plus.Text.{Text}
use nparse_plus.Timers.Rows.{Row}
use nparse_plus.Kills.SpawnTimers.{is_free, numbered, scan_numbers, unique_dead_name}

-- The name with a number that is free, where every smaller number is taken.
abbrev pub IsLeastFree : Text → List Row → ℕ → Text → Type 0
IsLeastFree base rows low name =
    (n : ℕ) × (low ≤ n)
    × (n ≤ 999)
    × (name ≡ numbered base n)
    × (is_free rows name ≡ true)
    × ((k : ℕ) → low ≤ k → k < n → is_free rows (numbered base k) ≡ false)

-- Every name with a number is taken.
abbrev pub AllTaken : Text → List Row → ℕ → Type 0
AllTaken base rows low = (k : ℕ) → low ≤ k → k < 1000 → is_free rows (numbered base k) ≡ false

-- A number that is taken, before others that are.
one_more :
    (f : ℕ → Bool) (n m : ℕ)
    → f n ≡ false
    → ((k : ℕ) → n + 1 ≤ k → k < m → f k ≡ false)
    → (k : ℕ) → n ≤ k
    → k < m
    → f k ≡ false
one_more f n m e g k l u = elim (ℕ_discrete k n) [
  | yes same ↦ ap f same ∙ e
  | no other ↦ g k (omega (arith, l, other)) u
]

scan_numbers_lem :
    (fuel n : ℕ) (base : Text) (rows : List Row)
    → fuel + n ≡ 1000
    → IsLeastFree base rows n (scan_numbers fuel n base rows)
      ⊎ (AllTaken base rows n × (scan_numbers fuel n base rows ≡ numbered base 999))
unfolding scan_numbers
scan_numbers_lem zero n base rows h = inr (λ k l u. ground (arith, h), refl)
scan_numbers_lem (suc fuel) n base rows h = elim (Bool-cases (is_free rows (numbered base n))) [
  | inl e ↦ rw e (inl (n, omega arith, omega (arith, h), refl, e, λ k l u. ground arith))
  | inr e ↦ elim (scan_numbers_lem fuel (n + 1) base rows (omega (arith, h))) [
    | inl (m, l, u, same, free, taken) ↦ rw e (
        inl (
          m,
          omega (arith, l),
          u,
          same,
          free,
          one_more (λ k. is_free rows (numbered base k)) n m e taken,
        ))
    | inr (taken, last) ↦
        rw e (inr (one_more (λ k. is_free rows (numbered base k)) n 1000 e taken, last))
  ]
]

-- The row of a death gets the bare name or the one with the smallest number up to 999 that no row of
-- the group has, or, where all of these are taken, the one with 999.
pub unique_dead_name-least :
    (base : Text) (rows : List Row)
    → IsLeastFree base rows 0 (unique_dead_name base rows)
      ⊎ (AllTaken base rows 0 × (unique_dead_name base rows ≡ numbered base 999))
unfolding unique_dead_name
unique_dead_name-least base rows = elim (Bool-cases (is_free rows base)) [
  | inl e ↦ rw e (inl (0, omega arith, omega arith, refl, e, λ k l u. ground arith))
  | inr e ↦ rw e (elim (scan_numbers_lem 999 1 base rows refl) [
    | inl (m, l, u, same, free, taken) ↦
        inl (
          m,
          omega arith,
          u,
          same,
          free,
          one_more (λ k. is_free rows (numbered base k)) 0 m e taken,
        )
    | inr (taken, last) ↦ inr (one_more (λ k. is_free rows (numbered base k)) 0 1000 e taken, last)
  ])
]
