-- ===== src/Logs/StampTrip.antt =====
-- A time stamp that was formatted is parsed again.
use nparse_plus.Prelude.{
  ℕ, ◌-◌, ◌<◌, ◌≤◌, ◌≡◌, refl, sym, ap, ◌∙◌, true, Option, none, some, List, [], ◌∷◌, ◌++◌, ◌==◌,
  length, All, arith, Bool-cases, inl, inr,
}
use nparse_plus.Text.{Text, codes, text_eq}
use nparse_plus.Logs.Bytes.{drop, take}
use nparse_plus.Logs.Integers.{
  Number, two_digits, four_digits, int_of-two_digits, int_of-four_digits,
}
use nparse_plus.Logs.Stamps.{
  DateTime, is_date, days_in_month, field, fields, unsigned, month_of, is_laid_out, checked,
  parse_timestamp, name_at, month_names, weekdays, weekday, format_timestamp,
}

-- A name of three letters.
abbrev HasThree : Text → Type 0
HasThree s = (a : ℕ) × (b : ℕ) × (c : ℕ) × (s ≡ a ∷ b ∷ c ∷ [])

name_at-HasThree :
    (i : ℕ) (names : List Text) → All HasThree names → i < length names → HasThree (name_at i names)
unfolding name_at
name_at-HasThree i [] h lt = absurd (omega (arith, lt))
name_at-HasThree i (name ∷ names) h lt = elim (Bool-cases (i == 0)) [
  | inl e ↦ rw e h.0
  | inr e ↦ rw e (name_at-HasThree (i - 1) names h.1 (ground arith))
]

month_of-name_at : (m : ℕ) → 1 ≤ m → m ≤ 12 → month_of (name_at (m - 1) month_names) ≡ some m
unfolding month_of name_at text_eq
month_of-name_at m h k = ground arith

weekday-small : (d : DateTime) → weekday d < 7
unfolding weekday
weekday-small d = omega arith

-- The stamp of three letters of a weekday, three of a month, and the numbers of a date.
abbrev stamp_of : ℕ → ℕ → ℕ → ℕ → ℕ → ℕ → DateTime → Text
stamp_of a b c e f g d =
    (a ∷ b ∷ c ∷ [])
    ++ codes " "
    ++ (e ∷ f ∷ g ∷ [])
    ++ codes " "
    ++ two_digits d.day
    ++ codes " "
    ++ two_digits d.hour
    ++ codes ":"
    ++ two_digits d.minute
    ++ codes ":"
    ++ two_digits d.second
    ++ codes " "
    ++ four_digits d.year

laid_out : (a b c e f g : ℕ) (d : DateTime) → is_laid_out (stamp_of a b c e f g d) ≡ true
unfolding is_laid_out take drop text_eq
laid_out a b c e f g d = refl

-- The numbers of a date fit the places that they have in a stamp.
pub fitting :
    (d : DateTime)
    → is_date d ≡ true
    → (d.year < 10000)
      × (d.day < 100)
      × (d.hour < 100)
      × (d.minute < 100)
      × (d.second < 100)
      × (1 ≤ d.month)
      × (d.month ≤ 12)
unfolding is_date days_in_month
fitting d h = ground arith

-- What `field` gives for a number that was read.
abbrev given : Option Number → Option ℕ
given o = elim o [ none ↦ none | some n ↦ unsigned n ]

module _ (a b c e f g : ℕ) (d : DateTime) (h : is_date d ≡ true) where
  abbrev stamp : Text
  stamp = stamp_of a b c e f g d

  year-stamp : field 20 24 stamp ≡ some d.year
  unfolding field take drop
  year-stamp = ap given (int_of-four_digits d.year (fitting d h).0)

  day-stamp : field 8 10 stamp ≡ some d.day
  unfolding field take drop
  day-stamp = ap given (int_of-two_digits d.day (fitting d h).1)

  hour-stamp : field 11 13 stamp ≡ some d.hour
  unfolding field take drop
  hour-stamp = ap given (int_of-two_digits d.hour (fitting d h).2)

  minute-stamp : field 14 16 stamp ≡ some d.minute
  unfolding field take drop
  minute-stamp = ap given (int_of-two_digits d.minute (fitting d h).3)

  second-stamp : field 17 19 stamp ≡ some d.second
  unfolding field take drop
  second-stamp = ap given (int_of-two_digits d.second (fitting d h).4)

  fields-stamp_of : fields stamp d.month ≡ some (record d { microsecond = 0 })
  fields-stamp_of = rw (year-stamp, day-stamp, hour-stamp, minute-stamp, second-stamp) refl

parse-stamp_of :
    (a b c e f g : ℕ) (d : DateTime)
    → is_date d ≡ true
    → month_of (e ∷ f ∷ g ∷ []) ≡ some d.month
    → parse_timestamp (stamp_of a b c e f g d) ≡ some (record d { microsecond = 0 })
unfolding parse_timestamp take drop is_date
parse-stamp_of a b c e f g d h m = rw (laid_out a b c e f g d) (
    ap (λ o. elim o [ none ↦ none | some month ↦ checked (fields (stamp_of a b c e f g d) month) ])
      m
    ∙ ap checked (fields-stamp_of a b c e f g d h)
    ∙ rw h refl)

three : (x y z : ℕ) → HasThree (x ∷ y ∷ z ∷ [])
three x y z = (x, y, z, refl)

weekdays-HasThree : All HasThree weekdays
weekdays-HasThree = (
  three _ _ _,
  (three _ _ _, (three _ _ _, (three _ _ _, (three _ _ _, (three _ _ _, (three _ _ _, tt)))))),
)

month_names-HasThree : All HasThree month_names
month_names-HasThree = (
  three _ _ _,
  (
    three _ _ _,
    (
      three _ _ _,
      (
        three _ _ _,
        (
          three _ _ _,
          (
            three _ _ _,
            (
              three _ _ _,
              (three _ _ _, (three _ _ _, (three _ _ _, (three _ _ _, (three _ _ _, tt))))),
            ),
          ),
        ),
      ),
    ),
  ),
)

-- A date and time that `datetime` accepts comes back from its stamp, without the microseconds, which
-- a stamp does not have.
pub parse-format_timestamp :
    (d : DateTime)
    → is_date d ≡ true
    → parse_timestamp (format_timestamp d) ≡ some (record d { microsecond = 0 })
unfolding format_timestamp
parse-format_timestamp d h =
    let (y, day, hour, minute, sec, low, high) = fitting d h in
    let (a, b, c, w) = name_at-HasThree (weekday d) weekdays weekdays-HasThree (weekday-small d) in
    let (e, f, g, n) =
      name_at-HasThree (d.month - 1) month_names month_names-HasThree (omega (arith, low, high)) in
    rw (w, n)
      (parse-stamp_of a b c e f g d h (sym (ap month_of n) ∙ month_of-name_at d.month low high))
