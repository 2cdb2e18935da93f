-- ===== src/Logs/Brackets.antt =====
-- The stamp of a line holds no bracket, and what stripping leaves as it is (core/lineinfo.py).
use nparse_plus.Prelude.{
  ℕ, ◌-◌, ◌<◌, ◌≡◌, refl, Bool, true, false, Option, none, some, List, [], ◌∷◌, ◌++◌, ◌==◌,
  if◌then◌else◌, length, All, All-append, arith, Bool-cases, inl, inr,
}
use nparse_plus.Text.{Text, codes}
use nparse_plus.Logs.Integers.{two_digits, four_digits}
use nparse_plus.Logs.Stamps.{
  DateTime, is_date, is_laid_out, name_at, month_names, weekdays, weekday, parse_timestamp,
  format_timestamp,
}
use nparse_plus.Logs.StampTrip.{fitting, parse-format_timestamp}
use nparse_plus.Logs.LineInfo.{lstrip, rstrip, find_bracket}

-- No character of the text passes the test at its first, and none at its last place.
abbrev pub starts_with : (ℕ → Bool) → Text → Bool
starts_with p [] = false
starts_with p (c ∷ s) = p c

abbrev pub ends_with : (ℕ → Bool) → Text → Bool
ends_with p [] = false
ends_with p (c ∷ []) = p c
ends_with p (c ∷ d ∷ s) = ends_with p (d ∷ s)

pub lstrip_same : (p : ℕ → Bool) (s : Text) → starts_with p s ≡ false → lstrip p s ≡ s
unfolding lstrip
lstrip_same p [] h = refl
lstrip_same p (c ∷ s) h = rw h refl

pub rstrip_same : (p : ℕ → Bool) (s : Text) → ends_with p s ≡ false → rstrip p s ≡ s
unfolding rstrip
rstrip_same p [] h = refl
rstrip_same p (c ∷ []) h = rw h refl
rstrip_same p (c ∷ d ∷ s) h = rw (rstrip_same p (d ∷ s) h) refl

-- What is not a bracket stands before the first bracket.
pub find_bracket-append :
    (s t : Text) → All (λ c. (c == 93) ≡ false) s → find_bracket (s ++ 93 ∷ t) ≡ some (s, t)
unfolding find_bracket
find_bracket-append [] t a = refl
find_bracket-append (c ∷ s) t a = rw (a.0, find_bracket-append s t a.1) refl

abbrev pub NoBracket : Text → Type 0
NoBracket s = All (λ c. (c == 93) ≡ false) s

name_at-NoBracket : (i : ℕ) (names : List Text) → All NoBracket names → NoBracket (name_at i names)
unfolding name_at
name_at-NoBracket i [] a = tt
name_at-NoBracket i (name ∷ names) a = elim (Bool-cases (i == 0)) [
  | inl e ↦ rw e a.0
  | inr e ↦ rw e (name_at-NoBracket (i - 1) names a.1)
]

weekdays-NoBracket : All NoBracket weekdays
weekdays-NoBracket = ground arith

month_names-NoBracket : All NoBracket month_names
month_names-NoBracket = ground arith

two_digits-NoBracket : (n : ℕ) → n < 100 → NoBracket (two_digits n)
two_digits-NoBracket n h = ground arith

four_digits-NoBracket : (n : ℕ) → n < 10000 → NoBracket (four_digits n)
four_digits-NoBracket n h = ground arith

-- The text of a stamp, from the names of its weekday and month.
abbrev stamp_text : Text → Text → DateTime → Text
stamp_text w m d =
    w
    ++ codes " "
    ++ m
    ++ codes " "
    ++ two_digits d.day
    ++ codes " "
    ++ two_digits d.hour
    ++ codes ":"
    ++ two_digits d.minute
    ++ codes ":"
    ++ two_digits d.second
    ++ codes " "
    ++ four_digits d.year

both_NoBracket : (s t : Text) → NoBracket s → NoBracket t → NoBracket (s ++ t)
both_NoBracket s t = All-append (λ c. (c == 93) ≡ false) s t

-- A text, one character, and another text.
joined_NoBracket :
    (s t : Text) (c : ℕ)
    → (c == 93) ≡ false
    → NoBracket s
    → NoBracket t
    → NoBracket (s ++ c ∷ [] ++ t)
joined_NoBracket s t c h a b =
    both_NoBracket (s ++ c ∷ []) t (both_NoBracket s (c ∷ []) a (h, tt)) b

stamp_text-NoBracket :
    (w m : Text) (d : DateTime)
    → is_date d ≡ true
    → NoBracket w
    → NoBracket m
    → NoBracket (stamp_text w m d)
stamp_text-NoBracket w m d h a b =
    let (year, day, hour, minute, second, low, high) = fitting d h in
    joined_NoBracket _ (four_digits d.year) 32 refl
      (joined_NoBracket _ (two_digits d.second) 58 refl
        (joined_NoBracket _ (two_digits d.minute) 58 refl
          (joined_NoBracket _ (two_digits d.hour) 32 refl
            (joined_NoBracket _ (two_digits d.day) 32 refl (joined_NoBracket w m 32 refl a b)
              (two_digits-NoBracket d.day day))
            (two_digits-NoBracket d.hour hour))
          (two_digits-NoBracket d.minute minute))
        (two_digits-NoBracket d.second second))
      (four_digits-NoBracket d.year year)

pub stamp_NoBracket : (d : DateTime) → is_date d ≡ true → NoBracket (format_timestamp d)
unfolding format_timestamp
stamp_NoBracket d h =
    stamp_text-NoBracket (name_at (weekday d) weekdays) (name_at (d.month - 1) month_names) d h
      (name_at-NoBracket (weekday d) weekdays weekdays-NoBracket)
      (name_at-NoBracket (d.month - 1) month_names month_names-NoBracket)

length_of_parsed :
    (s : Text) (b : Bool) (d : DateTime) (o : Option DateTime)
    → is_laid_out s ≡ b
    → (if b then o else none) ≡ some d
    → length s ≡ 24
unfolding is_laid_out
length_of_parsed s true d o l e = ground arith
length_of_parsed s false d o l e = cc

pub stamp_length : (d : DateTime) → is_date d ≡ true → length (format_timestamp d) ≡ 24
unfolding parse_timestamp
stamp_length d h =
    length_of_parsed (format_timestamp d) (is_laid_out (format_timestamp d)) _ _ refl
      (parse-format_timestamp d h)
