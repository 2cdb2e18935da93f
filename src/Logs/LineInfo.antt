-- ===== src/Logs/LineInfo.antt =====
-- A line of the log as its time and message (core/lineinfo.py): `parse_line` and `format_line`.
use nparse_plus.Prelude.{
  ℕ, Bool, false, ◌||◌, not, Option, none, some, [], ◌∷◌, ◌++◌, leb, ◌==◌, if◌then◌else◌, length,
}
use nparse_plus.Text.{Text, codes, is_space, is_empty}
use nparse_plus.Logs.Stamps.{DateTime, parse_timestamp, format_timestamp}

pub record LineInfo : Type 0 where
  pub raw : Text
  pub message : Text
  pub timestamp : DateTime
  pub line_number : ℕ

-- `s.lstrip(chars)` and `s.rstrip(chars)`, by the test that the characters pass.
unfoldable pub lstrip : (ℕ → Bool) → Text → Text
lstrip p [] = []
lstrip p (c ∷ s) = let rest = lstrip p s in if p c then rest else c ∷ s

abbrev end_strip : (ℕ → Bool) → ℕ → Text → Text
end_strip p c [] = if p c then [] else c ∷ []
end_strip p c (d ∷ s) = c ∷ d ∷ s

unfoldable pub rstrip : (ℕ → Bool) → Text → Text
rstrip p [] = []
rstrip p (c ∷ s) = end_strip p c (rstrip p s)

-- `s.strip()`
unfoldable pub strip : Text → Text
unfolding is_space lstrip rstrip
strip s = rstrip is_space (lstrip is_space s)

abbrev pub is_line_end : ℕ → Bool
is_line_end c = c == 10 || c == 13

abbrev pub is_bom : ℕ → Bool
is_bom c = c == 65279

-- `raw.find("]")`, as what stands before the bracket and what behind it.
unfoldable pub find_bracket : Text → Option (Text × Text)
find_bracket [] = none
find_bracket (c ∷ s) =
    let rest = find_bracket s in
    if c == 93
    then some ([], s)
    else (elim rest [ none ↦ none | some (before, after) ↦ some (c ∷ before, after) ])

-- `raw[0] != "["`
abbrev pub opens : Text → Bool
opens [] = false
opens (c ∷ s) = c == 91

-- `raw[1:end]`
abbrev pub behind_first : Text → Text
behind_first [] = []
behind_first (c ∷ s) = s

-- `parse_timestamp(…)` or the clock
abbrev pub stamp_or : DateTime → Option DateTime → DateTime
stamp_or now none = now
stamp_or now (some d) = d

-- The line between its brackets and its message; none of a message of white space.
unfoldable pub line_of : Text → ℕ → DateTime → Option (Text × Text) → Option LineInfo
unfolding strip parse_timestamp
line_of raw n now none = none
line_of raw n now (some (before, after)) =
    let message = strip after in
    if is_empty message
    then none
    else some (record {
      raw = raw;
      message = message;
      timestamp = stamp_or now (parse_timestamp (behind_first before));
      line_number = n;
    })

-- The line without its line end and its mark of the byte order.
unfoldable pub parse_stripped : Text → ℕ → DateTime → Option LineInfo
unfolding find_bracket line_of
parse_stripped raw n now =
    let line = line_of raw n now (find_bracket raw) in
    if leb (length raw) 27 || not (opens raw) then none else line

unfoldable pub parse_line : Text → ℕ → DateTime → Option LineInfo
unfolding lstrip rstrip parse_stripped
parse_line line n now = parse_stripped (lstrip is_bom (rstrip is_line_end line)) n now

unfoldable pub format_line : Text → DateTime → Text
unfolding format_timestamp
format_line message when = codes "[" ++ format_timestamp when ++ codes "] " ++ message
