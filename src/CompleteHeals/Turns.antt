-- ===== src/CompleteHeals/Turns.antt =====
-- Chains whose positions are numbers of three digits.
use nparse_plus.Prelude.{
  ℕ, ◌+◌, ◌*◌, ◌≤◌, ◌≡◌, refl, Bool, true, false, ◌&&◌, ◌||◌, [], ◌∷◌, arith, leb, ◌==◌, Bool-cases,
  inl, inr,
}
use nparse_plus.Text.{Text, text_eq, text_le, isspace}
use nparse_plus.CompleteHeals.{
  CompleteHealEvent, should_warn_of_chain, answer, in_turn, to_int, is_blank_text, isalpha, isdigit,
  you,
}

-- A number of three digits, and its text.
pub record Digits : Type 0 where
  pub hundreds : ℕ
  pub tens : ℕ
  pub ones : ℕ

abbrev pub AreDigits : Digits → Type 0
AreDigits d = (d.hundreds ≤ 9) × (d.tens ≤ 9) × (d.ones ≤ 9)

abbrev pub value : Digits → ℕ
value d = d.hundreds * 100 + d.tens * 10 + d.ones

abbrev pub text_of : Digits → Text
text_of d = (48 + d.hundreds) ∷ (48 + d.tens) ∷ (48 + d.ones) ∷ []

to_int-text_of : (d : Digits) → AreDigits d → to_int (text_of d) ≡ value d
unfolding to_int
to_int-text_of d h = ground arith

text_le-text_of :
    (d e : Digits)
    → AreDigits d
    → AreDigits e
    → text_le (text_of d) (text_of e) ≡ leb (value d) (value e)
unfolding text_le
text_le-text_of d e h k = ground arith

is_blank-text_of : (d : Digits) → AreDigits d → is_blank_text (text_of d) ≡ false
unfolding is_blank_text isspace
is_blank-text_of d h = ground arith

not_letter : (n : ℕ) → n ≤ 9 → isalpha (48 + n) ≡ false
unfolding isalpha
not_letter n h = ground arith

is_number : (n : ℕ) → n ≤ 9 → isdigit (48 + n) ≡ true
unfolding isdigit
is_number n h = ground arith

-- The answer to numbers.
answer-numbers :
    (highest mine current : Digits) (increased : Bool)
    → AreDigits highest
    → AreDigits mine
    → AreDigits current
    → answer
        (record { highest_order = text_of highest; your_chain_order = text_of mine })
        (text_of current)
        increased
      ≡ in_turn increased (value highest) (value mine) (value current) 1 (value highest)
unfolding answer
answer-numbers highest mine current increased h m c =
    rw
      (
        not_letter highest.hundreds h.0,
        is_number highest.hundreds h.0,
        is_number mine.hundreds m.0,
        is_number current.hundreds c.0,
        to_int-text_of highest h,
        to_int-text_of mine m,
        to_int-text_of current c,
      )
      refl

-- In a chain of numbers a call of another healer warns exactly where one's own number follows the
-- caller's: it is one more, or one's own is the first and the caller's is the highest of the chain.
pub should_warn_of_chain-turn :
    (e : CompleteHealEvent) (highest mine current : Digits)
    → AreDigits highest
    → AreDigits mine
    → AreDigits current
    → e.position ≡ text_of current
    → text_eq e.caster you ≡ false
    → (should_warn_of_chain
        (record { highest_order = text_of highest; your_chain_order = text_of mine })
        e).1
      ≡ (value mine == value current + 1 || (value mine == 1 && value current == value highest))
unfolding should_warn_of_chain
should_warn_of_chain-turn e highest mine current h m c at other =
    elim (Bool-cases (leb (value current) (value highest))) [
      | inl le ↦
          rw
            (
              at,
              other,
              is_blank-text_of current c,
              is_blank-text_of highest h,
              text_le-text_of current highest c h,
              le,
              is_blank-text_of mine m,
              answer-numbers highest mine current false h m c,
            )
            (ground arith)
      | inr gt ↦
          rw
            (
              at,
              other,
              is_blank-text_of current c,
              is_blank-text_of highest h,
              text_le-text_of current highest c h,
              gt,
              is_blank-text_of mine m,
              answer-numbers current mine current true c m c,
            )
            (ground arith)
    ]
