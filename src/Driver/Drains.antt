-- ===== src/Driver/Drains.antt =====
-- The end of the driver's thread (core/driver.py).
use nparse_plus.Prelude.{
  ℕ, zero, suc, ◌+◌, ◌*◌, ◌≤◌, ◌≡◌, refl, sym, ap, subst, ◌∙◌, true, false, List, [], ◌∷◌, ◌++◌,
  append_assoc, append-nil, arith, if◌then◌else◌, length,
}
use nparse_plus.Driver.Inbox.{
  Inbox, Thread, unstarted, testing, draining, working, closing, looking, ended, running,
  closing_running, is_alive, turn, take_turn,
}
use nparse_plus.Driver.Steps.{in_hand}

-- The driver's thread, for some pieces in a row.
unfoldable pub drive : ℕ → Inbox → Inbox
unfolding take_turn
drive zero s = s
drive (suc n) s = drive n (take_turn s)

-- How many pieces the thread takes at most to its end, once the stop is set.
abbrev pub pieces : Thread → List ℕ → ℕ
pieces unstarted q = 0
pieces ended q = 0
pieces looking [] = 1
pieces looking (c ∷ q) = 2 * length (c ∷ q) + 3
pieces closing q = 2 * length q + 2
pieces (closing_running c) q = 2 * length q + 3
pieces testing q = 2 * length q + 3
pieces working q = 2 * length q + 4
pieces draining q = 2 * length q + 5
pieces (running c) q = 2 * length q + 6

-- The thread is over, the gate is shut, nothing is queued, and what ran is the list.
pub record IsOver (ran : List ℕ) (t : Inbox) : Type 0 where
  pub all_ran : t.ran ≡ ran
  pub none_queued : t.queue ≡ []
  pub shut : t.accepting_commands ≡ false
  pub over : t.thread ≡ ended

take_turn_lem :
    (s : Inbox) (t : Thread) (q : List ℕ) → s.thread ≡ t → s.queue ≡ q → take_turn s ≡ turn t q s
unfolding take_turn
take_turn_lem s t q e h = ap (λ x. turn x s.queue s) e ∙ ap (λ x. turn t x s) h

drive-ended : (n : ℕ) (s : Inbox) → s.thread ≡ ended → drive n s ≡ s
unfolding drive
drive-ended zero s e = refl
drive-ended (suc n) s e = ap (drive n) (take_turn_lem s ended s.queue e refl) ∙ drive-ended n s e

pieces-pos : (t : Thread) (q : List ℕ) → is_alive t ≡ true → 1 ≤ pieces t q
pieces-pos unstarted q a = cc
pieces-pos ended q a = cc
pieces-pos looking [] a = omega arith
pieces-pos looking (c ∷ q) a = omega arith
pieces-pos closing q a = omega arith
pieces-pos (closing_running c) q a = omega arith
pieces-pos testing q a = omega arith
pieces-pos working q a = omega arith
pieces-pos draining q a = omega arith
pieces-pos (running c) q a = omega arith

abbrev Ends : ℕ → Inbox → List ℕ → Type 0
Ends n s ran = IsOver ran (drive n s)

-- One piece, and what follows it.
step-Ends :
    (n : ℕ) (t : Thread) (q : List ℕ) (s : Inbox) (ran ran' : List ℕ)
    → s.thread ≡ t
    → s.queue ≡ q
    → ran ≡ ran'
    → Ends n (turn t q s) ran
    → Ends (suc n) s ran'
unfolding drive
step-Ends n t q s ran ran' e h same o =
    subst (λ r. IsOver r (drive n (take_turn s))) same
      (subst (λ x. IsOver ran (drive n x)) (sym (take_turn_lem s t q e h)) o)

take_moves : (ran q : List ℕ) (c : ℕ) → ran ++ c ∷ [] ++ q ≡ ran ++ [] ++ c ∷ q
take_moves ran q c = simp (append-nil, append_assoc)

run_moves : (ran q : List ℕ) (c : ℕ) → (ran ++ c ∷ []) ++ [] ++ q ≡ ran ++ c ∷ [] ++ q
run_moves ran q c = simp (append-nil, append_assoc)

drive-Ends :
    (n : ℕ) (t : Thread) (q : List ℕ) (s : Inbox)
    → s.thread ≡ t
    → s.queue ≡ q
    → s.stop_set ≡ true
    → is_alive t ≡ true
    → pieces t q ≤ n
    → Ends n s (s.ran ++ in_hand t ++ q)
drive-Ends zero t q s e h stop a b =
    let some_left : 1 ≤ pieces t q = pieces-pos t q a in absurd (omega arith)
drive-Ends (suc n) unstarted q s e h stop a b = cc
drive-Ends (suc n) ended q s e h stop a b = cc
drive-Ends (suc n) looking [] s e h stop a b =
    step-Ends n looking [] s (s.ran ++ []) (s.ran ++ [] ++ []) e h (sym (append-nil (s.ran ++ [])))
      (subst (IsOver (s.ran ++ []))
        (sym (drive-ended n (record s { accepting_commands = false; thread = ended }) refl))
        (record { all_ran = sym (append-nil s.ran); none_queued = h; shut = refl; over = refl }))
drive-Ends (suc n) looking (c ∷ q) s e h stop a b =
    step-Ends n looking (c ∷ q) s _ _ e h refl
      (drive-Ends n closing (c ∷ q) (record s { thread = closing }) refl h stop refl (omega arith))
drive-Ends (suc n) closing [] s e h stop a b =
    step-Ends n closing [] s _ _ e h refl
      (drive-Ends n looking [] (record s { thread = looking }) refl h stop refl (omega arith))
drive-Ends (suc n) closing (c ∷ q) s e h stop a b =
    step-Ends n closing (c ∷ q) s _ _ e h (take_moves s.ran q c) (
      drive-Ends n (closing_running c) q (record s { queue = q; thread = closing_running c }) refl
        refl stop refl (omega arith))
drive-Ends (suc n) (closing_running c) q s e h stop a b =
    step-Ends n (closing_running c) q s _ _ e h (run_moves s.ran q c) (
      drive-Ends n closing q (record s { thread = closing; ran = s.ran ++ c ∷ [] }) refl h stop refl
        (omega arith))
drive-Ends (suc n) testing q s e h stop a b = step-Ends n testing q s _ _ e h refl (
    subst (λ x. Ends n (record s { thread = if x then closing else draining }) (s.ran ++ [] ++ q))
      (sym stop)
      (drive-Ends n closing q (record s { thread = closing }) refl h stop refl (omega arith)))
drive-Ends (suc n) working q s e h stop a b =
    step-Ends n working q s _ _ e h refl
      (drive-Ends n testing q (record s { thread = testing }) refl h stop refl (omega arith))
drive-Ends (suc n) draining [] s e h stop a b =
    step-Ends n draining [] s _ _ e h refl
      (drive-Ends n working [] (record s { thread = working }) refl h stop refl (omega arith))
drive-Ends (suc n) draining (c ∷ q) s e h stop a b =
    step-Ends n draining (c ∷ q) s _ _ e h (take_moves s.ran q c) (
      drive-Ends n (running c) q (record s { queue = q; thread = running c }) refl refl stop refl
        (omega arith))
drive-Ends (suc n) (running c) q s e h stop a b =
    step-Ends n (running c) q s _ _ e h (run_moves s.ran q c) (
      drive-Ends n draining q (record s { thread = draining; ran = s.ran ++ c ∷ [] }) refl h stop
        refl (omega arith))

-- Once the stop is set, a driver's thread that lives comes to its end by its own pieces, when nothing
-- is submitted meanwhile: after as many as `pieces` says, or more, wherever it was, the command in
-- hand and all that was queued have run, in order, the queue is empty, and the gate is shut.
pub drive-IsOver :
    (n : ℕ) (s : Inbox)
    → s.stop_set ≡ true
    → is_alive s.thread ≡ true
    → pieces s.thread s.queue ≤ n
    → IsOver (s.ran ++ in_hand s.thread ++ s.queue) (drive n s)
drive-IsOver n s stop a b = drive-Ends n s.thread s.queue s refl refl stop a b
