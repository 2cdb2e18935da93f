-- ===== src/Text/Decimal.antt =====
-- Python's `str(n)` of a natural number.
use nparse_plus.Prelude.{ℕ, zero, suc, ◌+◌, ◌/◌, ◌%◌, ◌≡◌, refl, true, false, [], ◌∷◌, ltb}
use nparse_plus.Text.{Text, codes}

-- The digits from the last on, before the text that follows. A number has no more digits than units.
unfoldable pub digits : ℕ → ℕ → Text → Text
digits zero n rest = rest
digits (suc fuel) n rest = elim (ltb n 10) [
  | true ↦ (48 + n) ∷ rest
  | false ↦ digits fuel (n / 10) ((48 + n % 10) ∷ rest)
]

unfoldable pub decimal : ℕ → Text
unfolding digits
decimal n = digits (n + 1) n []

decimal_test : decimal 1050 ≡ codes "1050"
unfolding decimal
decimal_test = refl
