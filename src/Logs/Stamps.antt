-- ===== src/Logs/Stamps.antt =====
-- The time stamp of a log line (core/lineinfo.py): `parse_timestamp` and `format_timestamp`.
use nparse_plus.Prelude.{
  ℕ, zero, suc, ◌≡◌, refl, ◌+◌, ◌-◌, ◌*◌, ◌/◌, ◌%◌, Bool, ◌&&◌, ◌||◌, not, Option, none, some, List,
  [], ◌∷◌, ◌++◌, leb, ◌==◌, if◌then◌else◌, length, ◌>>=◌,
}
use nparse_plus.Text.{Text, codes, text_eq}
use nparse_plus.Logs.Bytes.{drop, take}
use nparse_plus.Logs.Integers.{Number, int_of, two_digits, four_digits}

-- `datetime`
pub record DateTime : Type 0 where
  pub year : ℕ
  pub month : ℕ
  pub day : ℕ
  pub hour : ℕ
  pub minute : ℕ
  pub second : ℕ
  pub microsecond : ℕ

unfoldable pub is_leap : ℕ → Bool
is_leap year = year % 4 == 0 && (not (year % 100 == 0) || year % 400 == 0)

unfoldable pub days_in_month : ℕ → ℕ → ℕ
unfolding is_leap
days_in_month year month =
    if month == 2
    then (if is_leap year then 29 else 28)
    else if month == 4 || month == 6 || month == 9 || month == 11
    then 30
    else 31

-- What the constructor of `datetime` accepts; else it raises ValueError.
unfoldable pub is_date : DateTime → Bool
is_date d =
    (leb 1 d.year && leb d.year 9999)
    && (leb 1 d.month && leb d.month 12)
    && (leb 1 d.day && leb d.day (days_in_month d.year d.month))
    && (leb d.hour 23 && leb d.minute 59 && leb d.second 59)

-- `-0` is 0, and every other negative number is out of range.
abbrev pub unsigned : Number → Option ℕ
unsigned n = if n.negative && not (n.magnitude == 0) then none else some n.magnitude

-- `int(stamp[i:j])` as an argument of `datetime`
unfoldable pub field : ℕ → ℕ → Text → Option ℕ
field from to stamp = elim (int_of (take (to - from) (drop from stamp))) [
  | none ↦ none
  | some n ↦ unsigned n
]

-- `_MONTHS`
unfoldable pub month_of : Text → Option ℕ
month_of name =
    if text_eq name (codes "Jan")
    then some 1
    else if text_eq name (codes "Feb")
    then some 2
    else if text_eq name (codes "Mar")
    then some 3
    else if text_eq name (codes "Apr")
    then some 4
    else if text_eq name (codes "May")
    then some 5
    else if text_eq name (codes "Jun")
    then some 6
    else if text_eq name (codes "Jul")
    then some 7
    else if text_eq name (codes "Aug")
    then some 8
    else if text_eq name (codes "Sep")
    then some 9
    else if text_eq name (codes "Oct")
    then some 10
    else if text_eq name (codes "Nov")
    then some 11
    else if text_eq name (codes "Dec")
    then some 12
    else none

-- `stamp[i]`
abbrev pub char_at : ℕ → Text → Text
char_at i stamp = take 1 (drop i stamp)

unfoldable pub is_laid_out : Text → Bool
is_laid_out stamp =
    length stamp == 24
    && text_eq (char_at 3 stamp) (codes " ")
    && text_eq (char_at 7 stamp) (codes " ")
    && text_eq (char_at 10 stamp) (codes " ")
    && text_eq (char_at 13 stamp) (codes ":")
    && text_eq (char_at 16 stamp) (codes ":")
    && text_eq (char_at 19 stamp) (codes " ")

-- The numbers of a stamp.
abbrev pub fields : Text → ℕ → Option DateTime
fields stamp month = do
  year ← field 20 24 stamp
  day ← field 8 10 stamp
  hour ← field 11 13 stamp
  minute ← field 14 16 stamp
  second ← field 17 19 stamp
  some (record {
    year = year;
    month = month;
    day = day;
    hour = hour;
    minute = minute;
    second = second;
    microsecond = 0;
  })

abbrev pub checked : Option DateTime → Option DateTime
checked none = none
checked (some d) = if is_date d then some d else none

unfoldable pub parse_timestamp : Text → Option DateTime
parse_timestamp stamp =
    if is_laid_out stamp
    then (elim (month_of (take 3 (drop 4 stamp))) [
      | none ↦ none
      | some month ↦ checked (fields stamp month)
    ])
    else none

-- `_MONTH_NAMES[month - 1]` and `_WEEKDAYS[day]`
unfoldable pub name_at : ℕ → List Text → Text
name_at i [] = []
name_at i (name ∷ names) = let rest = name_at (i - 1) names in if i == 0 then name else rest

abbrev pub month_names : List Text
month_names =
    codes "Jan"
    ∷ codes "Feb"
    ∷ codes "Mar"
    ∷ codes "Apr"
    ∷ codes "May"
    ∷ codes "Jun"
    ∷ codes "Jul"
    ∷ codes "Aug"
    ∷ codes "Sep"
    ∷ codes "Oct"
    ∷ codes "Nov"
    ∷ codes "Dec"
    ∷ []

abbrev pub weekdays : List Text
weekdays =
    codes "Mon"
    ∷ codes "Tue"
    ∷ codes "Wed"
    ∷ codes "Thu"
    ∷ codes "Fri"
    ∷ codes "Sat"
    ∷ codes "Sun"
    ∷ []

-- `when.weekday()`: the days since a Monday, the first of January of year 1, modulo seven.
unfoldable pub days_before_month : ℕ → ℕ → ℕ
unfolding days_in_month
days_before_month year zero = 0
days_before_month year (suc m) =
    let before = days_before_month year m in if m == 0 then 0 else before + days_in_month year m

unfoldable pub weekday : DateTime → ℕ
unfolding days_before_month
weekday d =
    let y = d.year - 1 in
    (y * 365 + y / 4 - y / 100 + y / 400 + days_before_month d.year d.month + (d.day - 1)) % 7

unfoldable pub format_timestamp : DateTime → Text
unfolding name_at weekday
format_timestamp d =
    name_at (weekday d) weekdays
    ++ codes " "
    ++ name_at (d.month - 1) month_names
    ++ codes " "
    ++ two_digits d.day
    ++ codes " "
    ++ two_digits d.hour
    ++ codes ":"
    ++ two_digits d.minute
    ++ codes ":"
    ++ two_digits d.second
    ++ codes " "
    ++ four_digits d.year

-- 8 July 2026 is a Wednesday.
format_test :
    format_timestamp (record {
      year = 2026;
      month = 7;
      day = 8;
      hour = 21;
      minute = 59;
      second = 36;
      microsecond = 5;
    })
    ≡ codes "Wed Jul 08 21:59:36 2026"
unfolding format_timestamp
format_test = refl
