-- ===== src/Logs/Attached.antt =====
-- A tail that was attached goes on from where it was set (core/logfile.py).
use nparse_plus.Prelude.{
  ℕ, zero, suc, ◌+◌, ◌-◌, ◌≤◌, ◌≡◌, refl, sym, ap, ap₂, ◌∙◌, Bool, Option, none, some, [], ◌∷◌,
  ◌++◌, length, arith, append_assoc,
}
use nparse_plus.Logs.Bytes.{Bytes, drop, take}
use nparse_plus.Logs.Tail.{signature_bytes, poll, consume}
use nparse_plus.Logs.Polls.{file, take-drop, take-zero, drop-zero, take-suc, drop-suc}
use nparse_plus.Logs.Lines.{Follows, poll_appended}
use nparse_plus.Logs.Attach.{
  attach_backtrack_bytes, session_marker, rfind, first_if, begins_with, line_end, offset_from,
  offset_in, attach,
}

length-take : (n : ℕ) (s : Bytes) → n ≤ length s → length (take n s) ≡ n
unfolding take
length-take n [] h = omega arith
length-take n (c ∷ s) h = ground (arith, length-take (n - 1) s)

length-drop : (n : ℕ) (s : Bytes) → length (drop n s) ≡ length s - n
unfolding drop
length-drop n [] = omega arith
length-drop n (c ∷ s) = ground (arith, length-drop (n - 1) s)

take-more : (m n : ℕ) (s : Bytes) → take (m + n) s ≡ take m s ++ take n (drop m s)
unfolding take drop
take-more m n [] = refl
take-more zero n (c ∷ s) =
    let e : 0 + n ≡ n = omega arith in
    ap (λ k. take k (c ∷ s)) e
    ∙ ap₂ (λ a b. a ++ take n b) (sym (take-zero (c ∷ s))) (sym (drop-zero (c ∷ s)))
take-more (suc m) n (c ∷ s) =
    let e : suc m + n ≡ suc (m + n) = omega arith in
    ap (λ k. take k (c ∷ s)) e
    ∙ take-suc (m + n) c s
    ∙ ap (◌∷◌ c) (take-more m n s)
    ∙ ap₂ (λ a b. a ++ take n b) (sym (take-suc m c s)) (sym (drop-suc m c s))

first_if-le :
    (b : Bool) (o : Option ℕ) (i n : ℕ)
    → ((j : ℕ) → o ≡ some j → j ≤ n)
    → first_if b o ≡ some i
    → i ≤ suc n
first_if-le b (some j) i n f e = ground (arith, f j refl)
first_if-le b none i n f e = ground arith

rfind-le : (marker s : Bytes) (i : ℕ) → rfind marker s ≡ some i → i ≤ length s
unfolding rfind
rfind-le marker [] i e = cc
rfind-le marker (c ∷ s) i e =
    first_if-le (begins_with marker (c ∷ s)) (rfind marker s) i (length s)
      (λ j f. rfind-le marker s j f) e

line_end-le : (s : Bytes) → line_end s ≤ length s
unfolding line_end
line_end-le [] = omega arith
line_end-le (c ∷ s) = ground (arith, line_end-le s)

offset_from-le :
    (chunk : Bytes) (o : Option ℕ)
    → rfind session_marker chunk ≡ o
    → offset_from chunk o ≤ length chunk
offset_from-le chunk none e = omega arith
offset_from-le chunk (some i) e =
    omega
      (arith, line_end-le (drop i chunk), length-drop i chunk, rfind-le session_marker chunk i e)

offset_in-le : (chunk : Bytes) → offset_in chunk ≤ length chunk
unfolding offset_in
offset_in-le chunk = offset_from-le chunk (rfind session_marker chunk) refl

-- A tail that was attached stands within the file, at most 4096 bytes before the size that it saw, and
-- follows what stands before it.
pub attach-Follows :
    (size : ℕ) (contents : Bytes)
    → size ≤ length contents
    → (size - attach_backtrack_bytes ≤ (attach size contents).position)
      × ((attach size contents).position ≤ length contents)
      × Follows (take (attach size contents).position contents) (attach size contents)
unfolding attach
attach-Follows size contents h =
    let start = size - attach_backtrack_bytes in
    let chunk = drop start contents in
    let offset = offset_in chunk in
    let short : offset ≤ length contents - start =
      omega (arith, offset_in-le chunk, length-drop start contents) in
    let within : start + offset ≤ length contents = omega arith in
    let behind = drop (offset - signature_bytes) (take offset chunk) in
    (
      omega arith,
      within,
      (
        take start contents ++ take (offset - signature_bytes) (take offset chunk),
        take-more start offset contents
            ∙ ap (λ b. take start contents ++ b)
                (sym (take-drop (offset - signature_bytes) (take offset chunk)))
            ∙ sym (
                append_assoc (take start contents)
                  (take (offset - signature_bytes) (take offset chunk)) behind),
        sym (length-take (start + offset) contents within),
        refl,
      ),
    )

-- The first poll after an attachment gives what the file holds behind the position that was set, and
-- what was appended since, as new bytes: nothing of it is lost, and nothing before it comes again.
pub poll-attach :
    (size : ℕ) (contents more : Bytes)
    → size ≤ length contents
    → let t = attach size contents in
      poll t (some (file (contents ++ more))) ≡ consume t (drop t.position contents ++ more)
poll-attach size contents more h =
    let t = attach size contents in
    let (low, high, f) = attach-Follows size contents h in
    ap (λ b. poll t (some (file b)))
      (ap (λ b. b ++ more) (sym (take-drop t.position contents))
        ∙ append_assoc (take t.position contents) (drop t.position contents) more)
    ∙ poll_appended t (take t.position contents) (drop t.position contents ++ more) f
