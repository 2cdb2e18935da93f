-- ===== src/Logs/Lines.antt =====
-- The lines of a growing file, whatever the moments of the polls.
use nparse_plus.Prelude.{
  ℕ, ◌+◌, ◌-◌, ◌≡◌, refl, sym, ap, ap₂, subst, ◌∙◌, Bool, true, false, ◌&&◌, ◌||◌, not, some, List,
  [], ◌∷◌, ◌++◌, ltb, if◌then◌else◌, length, length-append, arith, Bool-cases, inl, inr,
  is_empty_list, keep, keep-append, append-nil,
}
use nparse_plus.Text.{text_eq, text_eq_refl}
use nparse_plus.Logs.Bytes.{
  Bytes, newline, drop, take, ends_with_newline, has_newline, rpartition, is_blank, Split, fresh,
  feed, feed_all, flush, splitlines, is_space_byte,
}
use nparse_plus.Logs.Split.{
  IsComplete, splitlines-append, rpartition-parts, rpartition_none, rpartition-tail, ends-append,
  append-IsComplete, append_assoc,
}
use nparse_plus.Logs.Tail.{LogTail, consume, deliver, lines_of, poll, signature_bytes}
use nparse_plus.Logs.Polls.{file, poll_lem, drop-append, take-append, take-drop}

-- The lines that hold more than white space.
abbrev pub written : List Bytes → List Bytes
written lines = keep (λ l. not (is_blank l)) lines

written-nonempty :
    (lines : List Bytes) → written (keep (λ l. not (is_empty_list l)) lines) ≡ written lines
written-nonempty [] = refl
written-nonempty ([] ∷ lines) = written-nonempty lines
written-nonempty ((c ∷ l) ∷ lines) = ground (arith, written-nonempty lines)

is_blank-append : (xs ys : Bytes) → is_blank (xs ++ ys) ≡ (is_blank xs && is_blank ys)
is_blank-append [] ys = ground arith
is_blank-append (x ∷ xs) ys = ground (arith, is_blank-append xs ys)

feed-blank :
    (c : ℕ) (s : Split)
    → is_space_byte c ≡ true
    → is_blank s.line ≡ true
    → (written (feed c s).0 ≡ []) × (is_blank (feed c s).1.line ≡ true)
unfolding feed
feed-blank c s h k = ground (arith, is_blank-append s.line (c ∷ []))

-- Bytes that are white space hold no written line.
blank-lines :
    (bs : Bytes) (s : Split)
    → is_blank bs ≡ true
    → is_blank s.line ≡ true
    → written ((feed_all bs s).0 ++ flush (feed_all bs s).1) ≡ []
unfolding feed_all
blank-lines [] s h k = ground arith
blank-lines (c ∷ bs) s h k =
    let (blank, line) = feed-blank c s (ground arith) k in
    let (now, next) = feed c s in
    let (rest, last) = feed_all bs next in
    ap written (append_assoc now rest (flush last))
    ∙ keep-append (λ l. not (is_blank l)) now (rest ++ flush last)
    ∙ ap (λ k. k ++ written (rest ++ flush last)) blank
    ∙ blank-lines bs next (ground arith) line

-- The bytes that were read so far: complete ones, of which these are the written lines, and a rest
-- that is kept.
abbrev pub Delivered : Bytes → LogTail × List Bytes → Type 0
Delivered bs (t, lines) =
    (done : Bytes) × (bs ≡ done ++ t.partial)
    × IsComplete done
    × (has_newline t.partial ≡ false)
    × (written lines ≡ written (splitlines done))

or_true : {c : Bool} (b : Bool) → c ≡ true → (b || c) ≡ true
or_true true h = refl
or_true false h = h

written_if_blank :
    (bs : Bytes) → written (if is_blank bs then [] else lines_of bs) ≡ written (splitlines bs)
unfolding lines_of splitlines
written_if_blank bs = elim (Bool-cases (is_blank bs)) [
  | inl e ↦ rw e (sym (blank-lines bs fresh e refl))
  | inr e ↦ rw e (written-nonempty (splitlines bs))
]

deliver-Delivered : (t : LogTail) (bs : Bytes) → Delivered bs (deliver t bs)
unfolding deliver lines_of
deliver-Delivered t bs = elim (Bool-cases (ends_with_newline bs)) [
  | inl e ↦ rw e (
    bs,
    sym (append-nil bs),
    or_true (is_empty_list bs) e,
    refl,
    written-nonempty (splitlines bs),
  )
  | inr e ↦ rw e (elim (Bool-cases (has_newline bs)) [
    | inl n ↦
        let (head, tail) = rpartition bs in
        (
          head ++ newline ∷ [],
          sym (rpartition-parts bs n) ∙ sym (append_assoc head (newline ∷ []) tail),
          or_true (is_empty_list (head ++ newline ∷ [])) (ends-append head),
          rpartition-tail bs,
          written_if_blank (head ++ newline ∷ []),
        )
    | inr n ↦ rw (rpartition_none bs n) ([], refl, refl, n, refl)
  ])
]

consume-Delivered :
    (t : LogTail) (bs : Bytes)
    → has_newline t.partial ≡ false
    → Delivered (t.partial ++ bs) (consume t bs)
unfolding consume splitlines
consume-Delivered t [] h = ([], append-nil t.partial, refl, h, refl)
consume-Delivered t (c ∷ bs) h = deliver-Delivered _ (t.partial ++ c ∷ bs)

-- A tail that has read a file to its end: the offset is the length of the file, and the signature is
-- what the file ends with.
abbrev pub Follows : Bytes → LogTail → Type 0
Follows bs t =
    (pre : Bytes) × (bs ≡ pre ++ t.signature)
    × (t.position ≡ length bs)
    × (has_newline t.partial ≡ false)

pub poll_appended :
    (t : LogTail) (bs more : Bytes)
    → Follows bs t
    → poll t (some (file (bs ++ more))) ≡ consume t more
poll_appended t bs more (pre, e, p, n) =
    let k = length t.signature in
    let len : t.position ≡ length pre + k = p ∙ ap length e ∙ length-append pre t.signature in
    let there : drop (t.position - k) (bs ++ more) ≡ t.signature ++ more =
      ap (λ b. drop (t.position - k) (b ++ more)) e
      ∙ ap (drop (t.position - k)) (append_assoc pre t.signature more)
      ∙ ap (λ i. drop i (pre ++ (t.signature ++ more))) (omega (arith, len))
      ∙ drop-append pre (t.signature ++ more) in
    let same : text_eq (take k (drop (t.position - k) (bs ++ more))) t.signature ≡ true =
      rw (there, take-append t.signature more) (text_eq_refl t.signature) in
    let long : ltb (length (bs ++ more)) t.position ≡ false =
      ground (arith, length-append bs more, p) in
    poll_lem t (bs ++ more) (omega (arith, len))
    ∙ rw (long, same) (ap (consume t) (ap (λ i. drop i (bs ++ more)) p ∙ drop-append bs more))

deliver-position : (t : LogTail) (bs : Bytes) → (deliver t bs).0.position ≡ t.position
unfolding deliver
deliver-position t bs = ground arith

deliver-signature : (t : LogTail) (bs : Bytes) → (deliver t bs).0.signature ≡ t.signature
unfolding deliver
deliver-signature t bs = ground arith

abbrev new_signature : LogTail → Bytes → Bytes
new_signature t more = let seen = t.signature ++ more in drop (length seen - signature_bytes) seen

consume-signature :
    (t : LogTail) (c : ℕ) (more : Bytes)
    → (consume t (c ∷ more)).0.signature ≡ new_signature t (c ∷ more)
unfolding consume
consume-signature t c more = deliver-signature _ (t.partial ++ c ∷ more)

consume-position :
    (t : LogTail) (c : ℕ) (more : Bytes)
    → (consume t (c ∷ more)).0.position ≡ t.position + length (c ∷ more)
unfolding consume
consume-position t c more = deliver-position _ (t.partial ++ c ∷ more)

consume-Follows :
    (t : LogTail) (bs more : Bytes) → Follows bs t → Follows (bs ++ more) (consume t more).0
consume-Follows t bs [] (pre, e, p, n) =
    unfold consume in (pre, append-nil bs ∙ e, p ∙ ap length (sym (append-nil bs)), n)
consume-Follows t bs (c ∷ more) (pre, e, p, n) =
    let seen = t.signature ++ c ∷ more in
    let k = length seen - signature_bytes in
    let (d, eq, full, kept, w) = consume-Delivered t (c ∷ more) n in
    (
      pre ++ take k seen,
      ap (λ b. b ++ c ∷ more) e
          ∙ append_assoc pre t.signature (c ∷ more)
          ∙ ap (λ b. pre ++ b) (sym (take-drop k seen))
          ∙ sym (append_assoc pre (take k seen) (drop k seen))
          ∙ ap (λ b. (pre ++ take k seen) ++ b) (sym (consume-signature t c more)),
      consume-position t c more ∙ omega (arith, p, length-append bs (c ∷ more)),
      kept,
    )

-- Polls of a file, between which bytes are appended to it.
unfoldable pub polls : LogTail → Bytes → List Bytes → LogTail × List Bytes
polls t bs [] = (t, [])
polls t bs (more ∷ later) =
    let (t1, lines) = poll t (some (file (bs ++ more))) in
    let rest = polls t1 (bs ++ more) later in (rest.0, lines ++ rest.1)

abbrev pub concat : List Bytes → Bytes
concat [] = []
concat (bs ∷ later) = bs ++ concat later

-- What two polls deliver, one behind the other.
later-Delivered :
    (part more later : Bytes) (t : LogTail) (lines : List Bytes) (rest : LogTail × List Bytes)
    → Delivered (part ++ more) (t, lines)
    → Delivered (t.partial ++ later) rest
    → Delivered (part ++ (more ++ later)) (rest.0, lines ++ rest.1)
later-Delivered part more later t lines (t', lines') (d, e, c, n, w) (d', e', c', n', w') = (
  d ++ d',
  sym (append_assoc part more later)
      ∙ ap (λ b. b ++ later) e
      ∙ append_assoc d t.partial later
      ∙ ap (λ b. d ++ b) e'
      ∙ sym (append_assoc d d' t'.partial),
  append-IsComplete d d' c c',
  n',
  keep-append (λ l. not (is_blank l)) lines lines'
      ∙ ap₂ (λ x y. x ++ y) w w'
      ∙ sym (keep-append (λ l. not (is_blank l)) (splitlines d) (splitlines d'))
      ∙ ap written (sym (splitlines-append d d' c)),
)

-- However the bytes that are appended to a file fall between the polls, what was kept of a line and
-- all that was appended are split in two: complete bytes, of which the polls together give the
-- lines, in their order and each once, and a last line without an end, which is kept. Lines of
-- white space may or may not be given. The tail had read the file to its end.
pub polls-lines :
    (t : LogTail) (bs : Bytes) (later : List Bytes)
    → Follows bs t
    → Delivered (t.partial ++ concat later) (polls t bs later)
unfolding polls splitlines
polls-lines t bs [] (pre, e, p, n) = ([], append-nil t.partial, refl, n, refl)
polls-lines t bs (more ∷ later) (pre, e, p, n) =
    let f : Follows bs t = (pre, e, p, n) in
    let (t1, lines) = consume t more in
    let whole = t.partial ++ concat (more ∷ later) in
    let step : LogTail × List Bytes → LogTail × List Bytes =
      λ x. let rest = polls x.0 (bs ++ more) later in (rest.0, x.1 ++ rest.1) in
    subst (λ x. Delivered whole (step x)) (sym (poll_appended t bs more f))
      (later-Delivered t.partial more (concat later) t1 lines (polls t1 (bs ++ more) later)
        (consume-Delivered t more n)
        (polls-lines t1 (bs ++ more) later (consume-Follows t bs more f)))
