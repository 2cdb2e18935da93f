-- ===== src/CompleteHeals.antt =====
-- Chains of complete heals (core/ch_chain.py): when a call of another healer warns that one's own
-- turn comes, and the chains by target.
--
-- Times are microseconds. Of an event the service reads the time, the target of the heal, the
-- position in the chain and the caster.
pub mod Histories
pub mod Turns
use nparse_plus.Prelude.{
  ℕ, ◌+◌, ◌-◌, ◌*◌, Bool, true, false, ◌&&◌, ◌||◌, not, Option, none, some, List, [], ◌∷◌, ltb, leb,
  ◌==◌, if◌then◌else◌,
}
use nparse_plus.Text.{Text, codes, text_eq, text_le, isspace, is_space, is_empty}

pub record CompleteHealEvent : Type 0 where
  pub timestamp : ℕ
  pub recipient : Text
  pub position : Text
  pub caster : Text

pub record ChainData : Type 0 where
  pub highest_order : Text
  pub your_chain_order : Text

-- `ChainData()`
abbrev pub new_chain : ChainData
new_chain = record { highest_order = []; your_chain_order = [] }

-- `not s.strip()`, which on a single text is `not s or s.isspace()`
unfoldable pub is_blank_text : Text → Bool
is_blank_text s = is_empty s || isspace s

-- `c.isalpha()` and `c.isdigit()`, for the code points below 256
unfoldable pub isalpha : ℕ → Bool
isalpha c =
    (leb 65 c && leb c 90)
    || (leb 97 c && leb c 122)
    || c == 170
    || c == 181
    || c == 186
    || (leb 192 c && leb c 255 && not (c == 215) && not (c == 247))

unfoldable pub isdigit : ℕ → Bool
isdigit c = (leb 48 c && leb c 57) || c == 178 || c == 179 || c == 185

-- `c.lower()` of one character
unfoldable pub lower : ℕ → ℕ
lower c = if (leb 65 c && leb c 90) || (leb 192 c && leb c 222 && not (c == 215)) then c + 32 else c

-- The first character of a text that is not empty.
abbrev pub first : Text → ℕ
first [] = 0
first (c ∷ s) = c

-- What `int(s)` has read of a text that starts with a digit: digits, single underscores between
-- them, and white space behind. `none` is ValueError.
pub data Reading : Type 0 where
  digit underscore space : Reading

abbrev is_ascii_digit : ℕ → Bool
is_ascii_digit c = leb 48 c && leb c 57

next_reading : ℕ → Reading → ℕ → Option (ℕ × Reading)
next_reading n digit c =
    if is_ascii_digit c
    then some (n * 10 + (c - 48), digit)
    else if c == 95
    then some (n, underscore)
    else if is_space c
    then some (n, space)
    else none
next_reading n underscore c = if is_ascii_digit c then some (n * 10 + (c - 48), digit) else none
next_reading n space c = if is_space c then some (n, space) else none

read_digits : ℕ → Reading → Text → Option ℕ
unfolding next_reading
read_digits n underscore [] = none
read_digits n digit [] = some n
read_digits n space [] = some n
read_digits n last (c ∷ s) = elim (next_reading n last c) [
  | none ↦ none
  | some (n', last') ↦ read_digits n' last' s
]

-- `_to_int`, of a text whose first character is a digit
unfoldable pub to_int : Text → ℕ
unfolding read_digits
to_int [] = 0
to_int (c ∷ s) =
    if is_ascii_digit c then (elim (read_digits (c - 48) digit s) [ none ↦ 0 | some n ↦ n ]) else 0

-- The answer where the first characters are letters, or digits.
abbrev pub in_turn : Bool → ℕ → ℕ → ℕ → ℕ → ℕ → Bool
in_turn increased highest mine current lowest last =
    (not (mine == lowest) || (not increased || not (mine == current + 1)))
    && ((highest == last && (mine == lowest && (current == last && not increased)))
        || mine == current + 1)

all_three : (ℕ → Bool) → ChainData → Text → Bool
all_three test chain position =
    test (first chain.highest_order)
    && (test (first position) && test (first chain.your_chain_order))

-- The last part of `should_warn_of_chain`.
unfoldable pub answer : ChainData → Text → Bool → Bool
unfolding all_three
answer chain position increased =
    if all_three isalpha chain position
    then (let highest = lower (first chain.highest_order) in
        let mine = lower (first chain.your_chain_order) in
        let current = lower (first position) in in_turn increased highest mine current 97 122)
    else if all_three isdigit chain position
    then (let highest = to_int chain.highest_order in
        let mine = to_int chain.your_chain_order in
        let current = to_int position in in_turn increased highest mine current 1 highest)
    else false

abbrev pub you : Text
you = codes "You"

-- The chain after, and whether to warn.
unfoldable pub should_warn_of_chain : ChainData → CompleteHealEvent → ChainData × Bool
should_warn_of_chain chain event =
    if is_blank_text event.position
    then (chain, false)
    else (let first_run = text_eq event.caster you in
        let chain1 : ChainData =
          if first_run then record chain { your_chain_order = event.position } else chain in
        let increased =
          is_blank_text chain1.highest_order || not (text_le event.position chain1.highest_order) in
        let chain2 : ChainData =
          if increased then record chain1 { highest_order = event.position } else chain1 in
        (
          chain2,
          if is_blank_text chain2.your_chain_order || first_run
              then false
              else answer chain2 event.position increased,
        ))

-- Twenty seconds.
abbrev pub chain_idle_expiry : ℕ
chain_idle_expiry = 20_000_000

pub record Entry : Type 0 where
  pub chain : ChainData
  pub updated_at : ℕ

-- The dict of the service, as a function of the target.
abbrev pub ChChainService : Type 0
ChChainService = Text → Option Entry

-- The deletion of an entry that is stale.
abbrev pub live : ℕ → Option Entry → Option Entry
live now none = none
live now (some entry) = if ltb (entry.updated_at + chain_idle_expiry) now then none else some entry

abbrev pub chain_of : Option Entry → ChainData
chain_of none = new_chain
chain_of (some entry) = entry.chain

-- The service after, and whether to warn.
unfoldable pub observe : CompleteHealEvent → ChChainService → ChChainService × Bool
unfolding should_warn_of_chain
observe event entries =
    let now = event.timestamp in
    let chain = chain_of (live now (entries event.recipient)) in
    let (chain', warn) = should_warn_of_chain chain event in
    (
      λ target.
          if text_eq target event.recipient
          then some (record { chain = chain'; updated_at = now })
          else live now (entries target),
      warn,
    )
