-- ===== src/Logs/Integers.antt =====
-- Python's `int(s)` of a text, for the code points below 256: white space around, a sign, and digits
-- with single underscores between them.
use nparse_plus.Prelude.{
  ◌/◌, ◌%◌, ◌≤◌, ◌<◌, ◌≡◌, arith, refl, ap, ◌∙◌, ℕ, ◌+◌, ◌-◌, ◌*◌, Bool, true, false, ◌&&◌, Option,
  none, some, [], ◌∷◌, leb, ◌==◌, if◌then◌else◌,
}
use nparse_plus.Text.{Text, is_space}

pub record Number : Type 0 where
  pub negative : Bool
  pub magnitude : ℕ

-- What has been read last.
data Reading : Type 0 where
  start sign digit underscore space : Reading

abbrev is_ascii_digit : ℕ → Bool
is_ascii_digit c = leb 48 c && leb c 57

abbrev with_digit : Number → ℕ → Option (Number × Reading)
with_digit n c =
    if is_ascii_digit c
    then some (record n { magnitude = n.magnitude * 10 + (c - 48) }, digit)
    else none

next_reading : Number → Reading → ℕ → Option (Number × Reading)
next_reading n start c =
    if is_space c
    then some (n, start)
    else if c == 43
    then some (n, sign)
    else if c == 45
    then some (record n { negative = true }, sign)
    else with_digit n c
next_reading n sign c = with_digit n c
next_reading n digit c =
    if c == 95 then some (n, underscore) else if is_space c then some (n, space) else with_digit n c
next_reading n underscore c = with_digit n c
next_reading n space c = if is_space c then some (n, space) else none

is_end : Reading → Bool
is_end digit = true
is_end space = true
is_end _ = false

read : Number → Reading → Text → Option Number
read n last [] = if is_end last then some n else none
read n last (c ∷ s) = elim (next_reading n last c) [
  | none ↦ none
  | some (n', last') ↦ read n' last' s
]

-- `none` is ValueError.
pub int_of : Text → Option Number
int_of s = read (record { negative = false; magnitude = 0 }) start s

abbrev pub natural : ℕ → Number
natural n = record { negative = false; magnitude = n }

-- `f"{n:02d}"` and `f"{n:04d}"` of numbers that fit.
abbrev pub two_digits : ℕ → Text
two_digits n = (48 + n / 10) ∷ (48 + n % 10) ∷ []

abbrev pub four_digits : ℕ → Text
four_digits n = (48 + n / 1000) ∷ (48 + n / 100 % 10) ∷ (48 + n / 10 % 10) ∷ (48 + n % 10) ∷ []

read-digit :
    (m a : ℕ) (last : Reading) (s : Text)
    → next_reading (natural m) last (48 + a) ≡ some (natural (m * 10 + a), digit)
    → read (natural m) last ((48 + a) ∷ s) ≡ read (natural (m * 10 + a)) digit s
unfolding read
read-digit m a last s e = rw (e, read) refl

next-start :
    (a : ℕ) → a ≤ 9 → next_reading (natural 0) start (48 + a) ≡ some (natural (0 * 10 + a), digit)
unfolding next_reading is_space
next-start a h = ground arith

next-digit :
    (m a : ℕ) → a ≤ 9 → next_reading (natural m) digit (48 + a) ≡ some (natural (m * 10 + a), digit)
unfolding next_reading is_space
next-digit m a h = ground arith

read-first :
    (a : ℕ) (s : Text)
    → a ≤ 9
    → read (natural 0) start ((48 + a) ∷ s) ≡ read (natural (0 * 10 + a)) digit s
read-first a s h = read-digit 0 a start s (next-start a h)

read-next :
    (m a : ℕ) (s : Text)
    → a ≤ 9
    → read (natural m) digit ((48 + a) ∷ s) ≡ read (natural (m * 10 + a)) digit s
read-next m a s h = read-digit m a digit s (next-digit m a h)

read-end : (m n : ℕ) → m ≡ n → read (natural m) digit [] ≡ some (natural n)
unfolding read is_end
read-end m n e = ap (λ i. some (natural i)) e

pub int_of-two_digits : (n : ℕ) → n < 100 → int_of (two_digits n) ≡ some (natural n)
unfolding int_of
int_of-two_digits n h =
    read-first (n / 10) ((48 + n % 10) ∷ []) (omega arith)
    ∙ read-next (0 * 10 + n / 10) (n % 10) [] (omega arith)
    ∙ read-end _ n (omega arith)

pub int_of-four_digits : (n : ℕ) → n < 10000 → int_of (four_digits n) ≡ some (natural n)
unfolding int_of
int_of-four_digits n h =
    let a = n / 1000 in
    let b = n / 100 % 10 in
    let c = n / 10 % 10 in
    let d = n % 10 in
    let ab = (0 * 10 + a) * 10 + b in
    read-first a ((48 + b) ∷ (48 + c) ∷ (48 + d) ∷ []) (omega arith)
    ∙ read-next (0 * 10 + a) b ((48 + c) ∷ (48 + d) ∷ []) (omega arith)
    ∙ read-next ab c ((48 + d) ∷ []) (omega arith)
    ∙ read-next (ab * 10 + c) d [] (omega arith)
    ∙ read-end _ n (omega arith)
