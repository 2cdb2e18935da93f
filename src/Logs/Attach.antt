-- ===== src/Logs/Attach.antt =====
-- Attaching to a log (core/logfile.py): `LogTail.attach`, and the names of log files.
use nparse_plus.Prelude.{
  ℕ, ◌+◌, ◌-◌, ◌≡◌, refl, Bool, true, false, ◌&&◌, Option, none, some, [], ◌∷◌, if◌then◌else◌,
  length, ◌==◌, leb, ◌||◌, ◌>>=◌,
}
use nparse_plus.Text.{Text, codes, text_eq, is_empty}
use nparse_plus.Logs.Bytes.{Bytes, newline, drop, take}
use nparse_plus.Logs.Tail.{LogTail, signature_bytes}

-- `_ATTACH_BACKTRACK_BYTES` and `_SESSION_MARKER`
abbrev pub attach_backtrack_bytes : ℕ
attach_backtrack_bytes = 4096

abbrev pub session_marker : Bytes
session_marker = codes "] Welcome to EverQuest!"

unfoldable pub begins_with : Bytes → Bytes → Bool
begins_with [] s = true
begins_with (c ∷ p) [] = false
begins_with (c ∷ p) (d ∷ s) = c == d && begins_with p s

-- `s.rfind(marker)`: the index of the last occurrence.
abbrev pub first_if : Bool → Option ℕ → Option ℕ
first_if b (some i) = some (i + 1)
first_if b none = if b then some 0 else none

unfoldable pub rfind : Bytes → Bytes → Option ℕ
unfolding begins_with
rfind marker [] = none
rfind marker (c ∷ s) = first_if (begins_with marker (c ∷ s)) (rfind marker s)

-- `find(b"\n", …) + 1`, or the length where there is none.
unfoldable pub line_end : Bytes → ℕ
line_end [] = 0
line_end (c ∷ s) = let rest = line_end s in if c == newline then 1 else rest + 1

-- Behind the line of the marker, or the end of the chunk.
abbrev pub offset_from : Bytes → Option ℕ → ℕ
offset_from chunk none = length chunk
offset_from chunk (some marker) = marker + line_end (drop marker chunk)

unfoldable pub offset_in : Bytes → ℕ
unfolding rfind line_end drop
offset_in chunk = offset_from chunk (rfind session_marker chunk)

-- The size is that of `stat`, the contents those of `open`.
unfoldable pub attach : ℕ → Bytes → LogTail
unfolding offset_in drop take
attach size contents =
    let start = size - attach_backtrack_bytes in
    let chunk = drop start contents in
    let offset = offset_in chunk in
    record {
      position = start + offset;
      partial = [];
      signature = drop (offset - signature_bytes) (take offset chunk);
    }

-- The name of a log file without its folders: the name of the character and the server's token.
abbrev is_letter : ℕ → Bool
is_letter c = (leb 65 c && leb c 90) || (leb 97 c && leb c 122)

abbrev is_letter_or_digit : ℕ → Bool
is_letter_or_digit c = is_letter c || (leb 48 c && leb c 57)

-- The longest beginning whose characters pass the test, and what follows it.
unfoldable pub span : (ℕ → Bool) → Text → Text × Text
span p [] = ([], [])
span p (c ∷ s) = let (run, rest) = span p s in if p c then (c ∷ run, rest) else ([], c ∷ s)

unfoldable pub behind : Text → Text → Option Text
behind [] s = some s
behind (c ∷ p) [] = none
behind (c ∷ p) (d ∷ s) = if c == d then behind p s else none

abbrev not_empty : Text → Option Text
not_empty s = if is_empty s then none else some s

-- `$` stands at the end, or before a last line end.
abbrev at_end : Text → Bool
at_end [] = true
at_end (c ∷ s) = c == 10 && is_empty s

unfoldable pub parse_log_filename : Text → Option (Text × Text)
unfolding span behind
parse_log_filename name = do
  after_prefix ← behind (codes "eqlog_") name
  let (char, after_char) = span is_letter after_prefix
  char ← not_empty char
  after_bar ← behind (codes "_") after_char
  let (server, after_server) = span is_letter_or_digit after_bar
  server ← not_empty server
  after ← behind (codes ".txt") after_server
  if at_end after then some (char, server) else none

-- `Server` of core/enums.py, as far as a log names it.
pub data Server : Type 0 where
  green blue red : Server

unfoldable pub server_from_log_token : Text → Server
unfolding text_eq
server_from_log_token token =
    if text_eq token (codes "P1999PVP")
    then red
    else if text_eq token (codes "P1999Green")
    then green
    else blue

parse_log_filename_test :
    parse_log_filename (codes "eqlog_Soandso_P1999Green.txt")
    ≡ some (codes "Soandso", codes "P1999Green")
unfolding parse_log_filename
parse_log_filename_test = refl

attach_test : (attach 3 (codes "a\nb")).position ≡ 3
unfolding attach
attach_test = refl
