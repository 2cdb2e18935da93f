-- ===== src/Logs/Polls.antt =====
-- A poll of a file that does not change while it is polled, against its description.
use nparse_plus.Prelude.{
  ℕ, zero, suc, ◌+◌, ◌-◌, ◌≤◌, ◌≡◌, refl, sym, ap, ◌∙◌, Bool, true, false, ◌||◌, not, some, List,
  [], ◌∷◌, ◌++◌, ◌==◌, ltb, if◌then◌else◌, length, arith, Bool-cases, inl, inr,
}
use nparse_plus.Text.{text_eq, text_eq_refl}
use nparse_plus.Logs.Bytes.{Bytes, drop, take}
use nparse_plus.Logs.Tail.{LogTail, File, restart, consume, resume_from, resume, poll}

pub drop-zero : (s : Bytes) → drop 0 s ≡ s
unfolding drop
drop-zero [] = refl
drop-zero (c ∷ s) = refl

pub drop-suc : (n c : ℕ) (s : Bytes) → drop (suc n) (c ∷ s) ≡ drop n s
unfolding drop
drop-suc n c s = ground arith

pub take-zero : (s : Bytes) → take 0 s ≡ []
unfolding take
take-zero [] = refl
take-zero (c ∷ s) = refl

pub take-suc : (n c : ℕ) (s : Bytes) → take (suc n) (c ∷ s) ≡ c ∷ take n s
unfolding take
take-suc n c s = ground arith

drop-add : (a b : ℕ) (s : Bytes) → drop a (drop b s) ≡ drop (b + a) s
drop-add a b [] = unfold drop in refl
drop-add a zero (c ∷ s) = ap (drop a) (drop-zero (c ∷ s)) ∙ ap (λ i. drop i (c ∷ s)) (omega arith)
drop-add a (suc b) (c ∷ s) =
    ap (drop a) (drop-suc b c s)
    ∙ drop-add a b s
    ∙ sym (drop-suc (b + a) c s)
    ∙ ap (λ i. drop i (c ∷ s)) (omega arith)

drop_all : (n : ℕ) (s : Bytes) → length s ≤ n → drop n s ≡ []
unfolding drop
drop_all n [] h = refl
drop_all n (c ∷ s) h = ground (arith, drop_all (n - 1) s)

pub drop-append : (p x : Bytes) → drop (length p) (p ++ x) ≡ x
drop-append [] x = drop-zero x
drop-append (c ∷ p) x = drop-suc (length p) c (p ++ x) ∙ drop-append p x

pub take-append : (p x : Bytes) → take (length p) (p ++ x) ≡ p
take-append [] x = take-zero x
take-append (c ∷ p) x = take-suc (length p) c (p ++ x) ∙ ap (◌∷◌ c) (take-append p x)

pub take-drop : (n : ℕ) (s : Bytes) → take n s ++ drop n s ≡ s
unfolding take drop
take-drop n [] = refl
take-drop n (c ∷ s) = ground (arith, take-drop (n - 1) s)

abbrev pub file : Bytes → File
file bs = record { size = length bs; contents = bs; reopened = bs }

-- The file is not the one that was read: it is shorter than the offset, or other bytes than the
-- signature stand before the offset.
abbrev pub is_other : LogTail → Bytes → Bool
is_other t bs =
    ltb (length bs) t.position
    || not (
        text_eq (take (length t.signature) (drop (t.position - length t.signature) bs)) t.signature)

resume_restarted :
    (t : LogTail) (bs : Bytes) → resume (restart t) (file bs) ≡ consume (restart t) bs
unfolding resume resume_from restart consume
resume_restarted t [] = refl
resume_restarted t (c ∷ bs) =
    let nz : (suc (length bs) == 0) ≡ false = ground arith in
    rw nz (ap (consume (restart t)) (drop-zero (drop 0 (c ∷ bs)) ∙ drop-zero (c ∷ bs)))

abbrev resumed : LogTail → Bytes → LogTail × List Bytes
resumed t bs =
    if not
      (text_eq (take (length t.signature) (drop (t.position - length t.signature) bs)) t.signature)
    then consume (restart t) bs
    else consume t (drop t.position bs)

-- The bytes that a resumed poll reads, and the signature that it compares.
dropped :
    (n position : ℕ) (bs : Bytes)
    → n ≤ position
    → drop n (drop (position - n) bs) ≡ drop position bs
dropped n position bs h = drop-add n (position - n) bs ∙ ap (λ i. drop i bs) (omega arith)

whole_signature : (s : Bytes) → drop (length s - length s) s ≡ s
whole_signature s = ap (λ i. drop i s) (omega arith) ∙ drop-zero s

nothing_new :
    (t : LogTail) (bs : Bytes) → length bs ≡ t.position → (t, []) ≡ consume t (drop t.position bs)
unfolding consume
nothing_new t bs e = sym (ap (consume t) (drop_all t.position bs (omega arith)))

resume_from_lem :
    (t : LogTail) (bs sig : Bytes)
    → t.signature ≡ sig
    → length sig ≤ t.position
    → t.position ≤ length bs
    → resume_from (length t.signature) t (file bs) ≡ resumed t bs
unfolding resume_from
resume_from_lem t bs [] e h k =
    let n = length t.signature in
    let nz : (n == 0) ≡ true = rw e refl in
    let same : text_eq (take n (drop (t.position - n) bs)) t.signature ≡ true =
      rw (e, take-zero) (text_eq_refl []) in
    ground (arith, nz, same, dropped n t.position bs (rw e h), nothing_new t bs)
resume_from_lem t bs (c ∷ sig) e h k =
    let n = length t.signature in
    let nz : (n == 0) ≡ false = rw e (ground arith) in
    rw (whole_signature t.signature, dropped n t.position bs (rw e h)) (ground (arith, nz))

resume-signature :
    (t : LogTail) (bs : Bytes)
    → length t.signature ≤ t.position
    → t.position ≤ length bs
    → resume t (file bs) ≡ resumed t bs
unfolding resume
resume-signature t bs h k =
    ap (λ n. resume_from n t (file bs)) (omega arith) ∙ resume_from_lem t bs t.signature refl h k

-- A poll reads the file from the top, as at a restart, where it is not the one that was read: it is
-- shorter than the offset, or its bytes before the offset differ from the signature. Else it reads
-- from the offset. The signature is not longer than the offset.
pub poll_lem :
    (t : LogTail) (bs : Bytes)
    → length t.signature ≤ t.position
    → poll t (some (file bs))
      ≡ (if is_other t bs then consume (restart t) bs else consume t (drop t.position bs))
unfolding poll
poll_lem t bs h = elim (Bool-cases (ltb (length bs) t.position)) [
  | inl e ↦ rw e (resume_restarted t bs)
  | inr e ↦ rw e (resume-signature t bs h (ground arith))
]
