-- ===== src/Logs/Tail.antt =====
-- `LogTail` (core/logfile.py): the complete lines that were appended to a file since the last poll,
-- and the detection of a file that is another one than before.
--
-- A poll sees the file as `stat` and the two `open` calls do; a line is left as its bytes, of which
-- `decode` makes a text that is empty only where they are none.
use nparse_plus.Prelude.{
  ℕ, ◌+◌, ◌-◌, ◌&&◌, not, Option, none, some, List, [], ◌∷◌, ◌++◌, keep, length, min, ltb, ◌==◌,
  if◌then◌else◌, is_empty_list,
}
use nparse_plus.Text.{text_eq}
use nparse_plus.Logs.Bytes.{
  Bytes, newline, drop, take, ends_with_newline, rpartition, is_blank, splitlines,
}

pub record LogTail : Type 0 where
  pub position : ℕ
  pub partial : Bytes
  pub signature : Bytes

abbrev pub signature_bytes : ℕ
signature_bytes = 64

unfoldable pub restart : LogTail → LogTail
restart t = record { position = 0; partial = []; signature = [] }

-- What one poll sees: the size, the bytes at the first opening, and those at the second.
pub record File : Type 0 where
  pub size : ℕ
  pub contents : Bytes
  pub reopened : Bytes

-- `[line for raw in data.splitlines() if (line := raw.decode(…))]`
unfoldable pub lines_of : Bytes → List Bytes
unfolding splitlines
lines_of chunk = keep (λ line. not (is_empty_list line)) (splitlines chunk)

-- The end of `poll`: the complete lines, and what is kept for the next one.
unfoldable pub deliver : LogTail → Bytes → LogTail × List Bytes
deliver t chunk =
    if ends_with_newline chunk
    then (record t { partial = [] }, lines_of chunk)
    else (let (head, tail) = rpartition chunk in
        let complete = head ++ newline ∷ [] in
        (record t { partial = tail }, if is_blank complete then [] else lines_of complete))

-- The bytes that are new.
unfoldable pub consume : LogTail → Bytes → LogTail × List Bytes
consume t [] = (t, [])
consume t (c ∷ s) =
    let chunk = c ∷ s in
    let seen = t.signature ++ chunk in
    let t' = record t {
      position = t.position + length chunk;
      signature = drop (length seen - signature_bytes) seen;
    } in
    deliver t' (t.partial ++ chunk)

-- The comparison with the signature, and the reading from the offset or from the top; `back` bytes
-- of the signature are compared.
unfoldable pub resume_from : ℕ → LogTail → File → LogTail × List Bytes
resume_from back t f =
    let chunk = drop (t.position - back) f.contents in
    if f.size == t.position && back == 0
    then (t, [])
    else if not (back == 0)
        && not (text_eq (take back chunk) (drop (length t.signature - back) t.signature))
    then consume (restart t) f.reopened
    else consume t (drop back chunk)

unfoldable pub resume : LogTail → File → LogTail × List Bytes
resume t f = resume_from (min (length t.signature) t.position) t f

-- `none` is the OSError of `stat`.
unfoldable pub poll : LogTail → Option File → LogTail × List Bytes
poll t none = (t, [])
poll t (some f) = resume (if ltb f.size t.position then restart t else t) f
