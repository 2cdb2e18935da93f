-- ===== src/Text.antt =====
-- Python's `str` as a list of code points, with the operations the program uses on it.
--
-- `casefold` is written out for the code points below 256 (the game writes its log in Latin-1 or
-- ASCII); a code point above is taken as its own fold.
pub mod Decimal
use Prim.Native.Char.{code}
use Prim.Native.String.{String}
use nparse_plus.Prelude.{
  ℕ, ◌+◌, ◌≡◌, refl, ◌↔◌, Bool, true, false, ◌&&◌, ◌||◌, List, [], ◌∷◌, ◌++◌, arith, leb, ltb, ◌==◌,
  if◌then◌else◌, any, ℕ_discrete,
}

abbrev pub Text : Type 0
Text = List ℕ

-- The code points of a literal.
abbrev pub codes : String → Text
codes String.[] = []
codes (String.◌∷◌ c s) = code c ∷ codes s

-- The fold of one code point.
unfoldable pub fold_code : ℕ → Text
fold_code c =
    if leb 65 c && leb c 90
    then (c + 32) ∷ []
    else if c == 181
    then 956 ∷ []
    else if c == 223
    then 115 ∷ 115 ∷ []
    else if leb 192 c && leb c 222 && (ltb c 215 || ltb 215 c)
    then (c + 32) ∷ []
    else c ∷ []

-- `s.lower()`, for the code points below 256
unfoldable pub lower_code : ℕ → ℕ
lower_code c =
    if (leb 65 c && leb c 90) || (leb 192 c && leb c 222 && (ltb c 215 || ltb 215 c))
    then c + 32
    else c

unfoldable pub lower : Text → Text
unfolding lower_code
lower [] = []
lower (c ∷ s) = lower_code c ∷ lower s

-- `s.casefold()`
unfoldable pub casefold : Text → Text
unfolding fold_code
casefold [] = []
casefold (c ∷ s) = fold_code c ++ casefold s

-- `a == b` on strings
unfoldable pub text_eq : Text → Text → Bool
text_eq [] [] = true
text_eq [] (d ∷ t) = false
text_eq (c ∷ s) [] = false
text_eq (c ∷ s) (d ∷ t) = c == d && text_eq s t

pub text_eq_iff : (s t : Text) → (text_eq s t ≡ true) ↔ (s ≡ t)
unfolding text_eq
text_eq_iff [] [] = ground arith
text_eq_iff [] (d ∷ t) = ground arith
text_eq_iff (c ∷ s) [] = ground arith
text_eq_iff (c ∷ s) (d ∷ t) = ground (arith, text_eq_iff s t)

pub text_eq_refl : (s : Text) → text_eq s s ≡ true
text_eq_refl s = (text_eq_iff s s).1 refl

pub Text-discrete : Discrete Text
Text-discrete = hlevel ℕ_discrete

-- `a <= b` on strings, by code points
unfoldable pub text_le : Text → Text → Bool
text_le [] t = true
text_le (c ∷ s) [] = false
text_le (c ∷ s) (d ∷ t) = ltb c d || (c == d && text_le s t)

-- `not s`
abbrev pub is_empty : Text → Bool
is_empty [] = true
is_empty (c ∷ s) = false

-- `s.isspace()` of one character, for the code points below 256
unfoldable pub is_space : ℕ → Bool
is_space c = (leb 9 c && leb c 13) || (leb 28 c && leb c 32) || c == 133 || c == 160

-- `s.isspace()`: false on the empty string
unfoldable pub all_space : Text → Bool
unfolding is_space
all_space [] = true
all_space (c ∷ s) = is_space c && all_space s

unfoldable pub isspace : Text → Bool
unfolding all_space
isspace [] = false
isspace (c ∷ s) = is_space c && all_space s

-- `_eq` of timers.py: equality without regard to case
unfoldable pub name_eq : Text → Text → Bool
name_eq a b = text_eq (casefold a) (casefold b)

pub name_eq_iff : (a b : Text) → (name_eq a b ≡ true) ↔ (casefold a ≡ casefold b)
unfolding name_eq
name_eq_iff a b = text_eq_iff (casefold a) (casefold b)

pub name_eq_refl : (a : Text) → name_eq a a ≡ true
name_eq_refl a = (name_eq_iff a a).1 refl

-- `x in xs` for strings
abbrev pub is_in : Text → List Text → Bool
is_in x xs = any (text_eq x) xs

-- `part in s`
unfoldable pub begins : Text → Text → Bool
begins [] s = true
begins (c ∷ p) [] = false
begins (c ∷ p) (d ∷ s) = c == d && begins p s

unfoldable pub contains : Text → Text → Bool
unfolding begins
contains part [] = is_empty part
contains part (c ∷ s) = begins part (c ∷ s) || contains part s

casefold_test : casefold (codes "Clarity É") ≡ codes "clarity é"
unfolding casefold
casefold_test = refl
