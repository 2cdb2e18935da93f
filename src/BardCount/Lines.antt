-- ===== src/BardCount/Lines.antt =====
-- Which lines count for a bard's songs (core/handlers/bard_count.py): the three patterns and the
-- normal form of the name of a spell. The patterns are written out for code points below 256.
use nparse_plus.Prelude.{
  ℕ, zero, suc, Bool, false, ◌&&◌, ◌||◌, not, Option, none, some, List, [], ◌∷◌, if◌then◌else◌,
  ◌==◌, leb, length, any,
}
use nparse_plus.Text.{Text, codes, lower, text_eq, is_empty, contains}
use nparse_plus.Logs.LineInfo.{strip}

-- The rest behind a prefix, without regard to case; the prefix is in small letters.
unfoldable pub behind_prefix : Text → Text → Option Text
unfolding lower
behind_prefix [] s = some s
behind_prefix (p ∷ ps) [] = none
behind_prefix (p ∷ ps) (c ∷ s) =
    let rest = behind_prefix ps s in if text_eq (lower (c ∷ [])) (p ∷ []) then rest else none

-- What stands before an end, without regard to case.
unfoldable pub before_end : Text → Text → Option Text
unfolding lower
before_end end [] = if is_empty end then some [] else none
before_end end (c ∷ s) =
    let rest = before_end end s in
    if text_eq (lower (c ∷ s)) end
    then some []
    else (elim rest [ none ↦ none | some before ↦ some (c ∷ before) ])

-- The first of the ends that the text has.
unfoldable pub before_one_of : List Text → Text → Option Text
unfolding before_end
before_one_of [] s = none
before_one_of (end ∷ ends) s = elim (before_end end s) [
  | none ↦ before_one_of ends s
  | some before ↦ some before
]

-- `(?P<spell>.+?)` before one of the ends, the longest of which comes first.
unfoldable pub spell_before : List Text → Option Text → Option Text
unfolding before_one_of
spell_before ends none = none
spell_before ends (some []) = none
spell_before ends (some (c ∷ s)) = elim (before_one_of ends s) [
  | none ↦ none
  | some before ↦ some (c ∷ before)
]

abbrev or_spell : Option Text → Option Text → Option Text
or_spell (some a) b = some a
or_spell none b = b

-- `(?: the)? ` and then the name of the spell
abbrev named_spell : List Text → Option Text → Option Text
named_spell ends none = none
named_spell ends (some rest) =
    or_spell (spell_before ends (behind_prefix (codes " the ") rest))
      (spell_before ends (behind_prefix (codes " ") rest))

-- `_RESIST_TARGET_RE.match(message)`, as the name of the spell
unfoldable pub resist_target : Text → Option Text
unfolding behind_prefix spell_before
resist_target message =
    named_spell (codes " spell." ∷ codes "." ∷ [])
      (behind_prefix (codes "your target resisted") message)

-- `_RESIST_YOU_RE.match(message)`
unfoldable pub resist_you : Text → Option Text
unfolding behind_prefix spell_before
resist_you message =
    named_spell (codes " spell!" ∷ codes " spell" ∷ codes "!" ∷ [] ∷ [])
      (behind_prefix (codes "you resist") message)

-- `\w`
abbrev is_word : ℕ → Bool
is_word c =
    (leb 48 c && leb c 57)
    || (leb 65 c && leb c 90)
    || c == 95
    || (leb 97 c && leb c 122)
    || any (◌==◌ c) (170 ∷ 178 ∷ 179 ∷ 181 ∷ 185 ∷ 186 ∷ 188 ∷ 189 ∷ 190 ∷ [])
    || (leb 192 c && not (c == 215) && not (c == 247))

-- `_WINCE_RE.search(message)` from a place on; the test is whether a word stands before it.
unfoldable pub winces_after : Bool → Text → Bool
unfolding lower
winces_after in_word [] = false
winces_after in_word (c ∷ s) =
    (not in_word && text_eq (lower (c ∷ s)) (codes "winces.")) || winces_after (is_word c) s

abbrev pub hit_substrings : List Text
hit_substrings =
    codes "is bound by silver strands of music" ∷ codes "is bound in chords of music" ∷ []

unfoldable pub is_hit_line : Text → Bool
unfolding contains winces_after lower
is_hit_line message =
    any (λ token. contains token (lower message)) hit_substrings || winces_after false message

-- `_QUOTE_TRANSLATION`
unfoldable pub translate_quotes : Text → Text
translate_quotes [] = []
translate_quotes (c ∷ s) =
    (if c == 96 || c == 8216 || c == 8217 then 39 else if c == 8220 || c == 8221 then 34 else c)
    ∷ translate_quotes s

-- `s.replace("  ", " ")`, in one pass from the left
unfoldable pub replace_doubles : Text → Text
replace_doubles [] = []
replace_doubles (c ∷ []) = c ∷ []
replace_doubles (c ∷ d ∷ s) =
    let behind = replace_doubles s in
    let rest = replace_doubles (d ∷ s) in if c == 32 && d == 32 then 32 ∷ behind else c ∷ rest

-- `"  " in s`
unfoldable pub has_double : Text → Bool
has_double [] = false
has_double (c ∷ []) = false
has_double (c ∷ d ∷ s) = (c == 32 && d == 32) || has_double (d ∷ s)

-- The loop, which runs at most as often as the text is long.
unfoldable pub single_spaces : ℕ → Text → Text
unfolding replace_doubles has_double
single_spaces zero s = s
single_spaces (suc fuel) s =
    let rest = single_spaces fuel (replace_doubles s) in if has_double s then rest else s

unfoldable pub normalize_spell_name : Text → Text
unfolding strip translate_quotes single_spaces
normalize_spell_name name = let s = translate_quotes (strip name) in single_spaces (length s) s
