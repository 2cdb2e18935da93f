-- ===== src/Tests/CompleteHeals.antt =====
-- A chain of three on one target, with a call for another in between.
use nparse_plus.Prelude.{◌≡◌, ◌+◌, ◌||◌, ◌&&◌, ◌==◌, refl, true, List, [], ◌∷◌, ◌*◌, arith}
use nparse_plus.Text.{Text, codes, text_eq, text_le, isspace}
use nparse_plus.Spells.Durations.{second}
use nparse_plus.CompleteHeals.{
  CompleteHealEvent, you, chain_of, live, should_warn_of_chain, observe, answer, to_int,
  is_blank_text, isalpha, isdigit,
}
use nparse_plus.CompleteHeals.Turns.{Digits, text_of, value, should_warn_of_chain-turn}
use nparse_plus.CompleteHeals.Histories.{after, own, observe-own}

abbrev call : Text → Text → Text → CompleteHealEvent
call target position caster = record {
  timestamp = 5 * second;
  recipient = target;
  position = position;
  caster = caster;
}

abbrev calls : List CompleteHealEvent
calls =
    call (codes "Borin") (codes "001") (codes "Cali")
    ∷ call (codes "Ayla") (codes "003") (codes "Dorn")
    ∷ call (codes "Ayla") (codes "001") you
    ∷ []

abbrev last_of_three : CompleteHealEvent
last_of_three = call (codes "Ayla") (codes "003") (codes "Dorn")

-- The call of the last of three warns the first.
warn_test : (observe last_of_three (after calls)).1 ≡ true
unfolding observe after is_blank_text isspace text_eq text_le answer isalpha isdigit to_int
warn_test = refl

observe-own_example :
    (observe last_of_three (after calls)).1
    ≡ (should_warn_of_chain
        (chain_of (live (5 * second) (own (codes "Ayla") calls)))
        last_of_three).1
observe-own_example =
    observe-own last_of_three calls (omega arith, (omega arith, (omega arith, tt)))

abbrev first_place : Digits
first_place = record { hundreds = 0; tens = 0; ones = 1 }

abbrev third_place : Digits
third_place = record { hundreds = 0; tens = 0; ones = 3 }

should_warn_of_chain-turn_example :
    (should_warn_of_chain
      (record { highest_order = text_of third_place; your_chain_order = text_of first_place })
      last_of_three).1
    ≡ (value first_place == value third_place + 1
        || (value first_place == 1 && value third_place == value third_place))
unfolding text_eq
should_warn_of_chain-turn_example =
    should_warn_of_chain-turn last_of_three third_place first_place third_place
      (omega arith, omega arith, omega arith) (omega arith, omega arith, omega arith)
      (omega arith, omega arith, omega arith) refl refl
