-- ===== src/BardCount/Names.antt =====
-- The normal form of a spell's name (core/handlers/bard_count.py).
use nparse_plus.Prelude.{
  ℕ, zero, suc, ◌≤◌, ◌<◌, ◌≡◌, refl, true, false, Bool-cases, inl, inr, [], ◌∷◌, arith, length,
}
use nparse_plus.Text.{Text}
use nparse_plus.Logs.LineInfo.{strip}
use nparse_plus.BardCount.Lines.{
  replace_doubles, has_double, single_spaces, normalize_spell_name, translate_quotes,
}

length-replace_doubles-le : (s : Text) → length (replace_doubles s) ≤ length s
unfolding replace_doubles
length-replace_doubles-le [] = omega arith
length-replace_doubles-le (c ∷ []) = omega arith
length-replace_doubles-le (c ∷ d ∷ s) =
    ground (arith, length-replace_doubles-le s, length-replace_doubles-le (d ∷ s))

-- Where two spaces stand together, a pass makes the text shorter.
replace_doubles-shorter : (s : Text) → has_double s ≡ true → length (replace_doubles s) < length s
unfolding replace_doubles has_double
replace_doubles-shorter [] h = ground arith
replace_doubles-shorter (c ∷ []) h = ground arith
replace_doubles-shorter (c ∷ d ∷ s) h =
    ground (arith, length-replace_doubles-le s, replace_doubles-shorter (d ∷ s))

short : (s : Text) → length s ≤ 0 → has_double s ≡ false
unfolding has_double
short [] h = refl
short (c ∷ s) h = ground arith

single_spaces_end :
    (fuel : ℕ) (s : Text) → length s ≤ fuel → has_double (single_spaces fuel s) ≡ false
unfolding single_spaces
single_spaces_end zero s h = short s h
single_spaces_end (suc fuel) s h = elim (Bool-cases (has_double s)) [
  | inl e ↦
      rw e
        (single_spaces_end fuel (replace_doubles s) (omega (arith, h, replace_doubles-shorter s e)))
  | inr e ↦ rw (e, e) refl
]

-- The loop that joins spaces comes to its end: no two of them stand together in a normal name.
pub normalize_spell_name-single : (name : Text) → has_double (normalize_spell_name name) ≡ false
unfolding normalize_spell_name
normalize_spell_name-single name =
    let s = translate_quotes (strip name) in single_spaces_end (length s) s (omega arith)
