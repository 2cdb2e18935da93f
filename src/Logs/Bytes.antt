-- ===== src/Logs/Bytes.antt =====
-- Python's `bytes` as a list of numbers, with the operations that core/logfile.py uses on it.
use nparse_plus.Prelude.{
  ℕ, ◌-◌, ◌≡◌, refl, Bool, true, false, ◌&&◌, ◌||◌, not, List, [], ◌∷◌, ◌++◌, leb, ◌==◌,
  if◌then◌else◌, is_empty_list, any,
}

abbrev pub Bytes : Type 0
Bytes = List ℕ

-- `b"\n"` and `b"\r"`
abbrev pub newline : ℕ
newline = 10

abbrev pub carriage_return : ℕ
carriage_return = 13

-- `xs[n:]` and `xs[:n]`
unfoldable pub drop : ℕ → Bytes → Bytes
drop n [] = []
drop n (c ∷ s) = let rest = drop (n - 1) s in if n == 0 then c ∷ s else rest

unfoldable pub take : ℕ → Bytes → Bytes
take n [] = []
take n (c ∷ s) = let rest = take (n - 1) s in if n == 0 then [] else c ∷ rest

-- `s.endswith(b"\n")`
unfoldable pub ends_with_newline : Bytes → Bool
ends_with_newline [] = false
ends_with_newline (c ∷ s) = if is_empty_list s then c == newline else ends_with_newline s

abbrev pub has_newline : Bytes → Bool
has_newline s = any (λ c. c == newline) s

-- `s.rpartition(b"\n")`: what stands before the last newline, and what behind it. Without a newline
-- the first is empty.
unfoldable pub rpartition : Bytes → Bytes × Bytes
rpartition [] = ([], [])
rpartition (c ∷ s) =
    let rest = rpartition s in
    if has_newline s then (c ∷ rest.0, rest.1) else if c == newline then ([], s) else ([], c ∷ s)

-- `not s.strip()`
abbrev pub is_space_byte : ℕ → Bool
is_space_byte c = (leb 9 c && leb c 13) || c == 32

abbrev pub is_blank : Bytes → Bool
is_blank s = not (any (λ c. not (is_space_byte c)) s)

-- `s.splitlines()`, one byte at a time: the line that is being read, and whether the byte before it
-- was a carriage return, which a newline follows as one line end.
pub record Split : Type 0 where
  pub after_return : Bool
  pub line : Bytes

abbrev pub fresh : Split
fresh = record { after_return = false; line = [] }

unfoldable pub feed : ℕ → Split → List Bytes × Split
feed c s =
    if c == newline
    then (if s.after_return then [] else s.line ∷ [], fresh)
    else if c == carriage_return
    then (s.line ∷ [], record { after_return = true; line = [] })
    else ([], record { after_return = false; line = s.line ++ c ∷ [] })

unfoldable pub feed_all : Bytes → Split → List Bytes × Split
unfolding feed
feed_all [] s = ([], s)
feed_all (c ∷ bs) s =
    let now = feed c s in let rest = feed_all bs now.1 in (now.0 ++ rest.0, rest.1)

-- The last line has no end.
abbrev pub flush : Split → List Bytes
flush s = if is_empty_list s.line then [] else s.line ∷ []

unfoldable pub splitlines : Bytes → List Bytes
unfolding feed_all
splitlines bs = let read = feed_all bs fresh in read.0 ++ flush read.1

splitlines_test :
    splitlines (97 ∷ 13 ∷ 10 ∷ 98 ∷ 13 ∷ 10 ∷ 10 ∷ 99 ∷ [])
    ≡ (97 ∷ []) ∷ (98 ∷ []) ∷ [] ∷ (99 ∷ []) ∷ []
unfolding splitlines
splitlines_test = refl
