-- ===== src/Driver/Steps.antt =====
-- Every interleaving of the threads at the command inbox (core/driver.py).
use nparse_plus.Prelude.{
  ℕ, ◌+◌, ◌≡◌, refl, sym, ap, ◌∙◌, Bool, true, false, List, [], ◌∷◌, ◌++◌, append_assoc, ◌||◌, ◌&&◌,
  not, arith, Bool-cases, Option-cases, inl, inr, is_empty_list, Option, none, some, remove, one_if,
  ◌==◌,
}
use mathlib.Core.Option
use nparse_plus.Driver.Inbox.{
  Inbox, Thread, Owner, is_alive, running, closing_running, idle, opened, clearing,
  clearing_running, submit_to_driver, run_inline, start, begin, stop, clear_commands, take_turn,
  skip_drain,
}

-- One piece of some thread.
pub data Step : Inbox → Inbox → Type 0 where
  submitted : (s : Inbox) (command : ℕ) → Step s (submit_to_driver command s)
  called : (s : Inbox) (command : ℕ) → Step s (run_inline command s)
  started : (s : Inbox) → Step s (start s)
  begun : (s : Inbox) → Step s (begin s)
  stopped : (s : Inbox) → Step s (stop s)
  cleared : (s : Inbox) → Step s (clear_commands s)
  turned : (s : Inbox) → Step s (take_turn s)
  skipped : (s : Inbox) → Step s (skip_drain s)

pub data Reach (s : Inbox) : Inbox → Type 0 where
  here : Reach s s
  next : {t u : Inbox} → Reach s t → Step t u → Reach s u

-- What was taken off the queue and is not over.
abbrev pub in_hand : Thread → List ℕ
in_hand (running command) = command ∷ []
in_hand (closing_running command) = command ∷ []
in_hand _ = []

abbrev pub owner_hand : Owner → List ℕ
owner_hand (clearing_running command) = command ∷ []
owner_hand _ = []

abbrev pub is_opened : Owner → Bool
is_opened opened = true
is_opened _ = false

abbrev pub is_idle : Owner → Bool
is_idle idle = true
is_idle _ = false

-- How often a command is in a list.
abbrev pub count : ℕ → List ℕ → ℕ
count c [] = 0
count c (x ∷ xs) = one_if (x == c) + count c xs

pub record IsSound (s : Inbox) : Type 0 where
  pub in_turn : s.ran ++ in_hand s.thread ++ owner_hand s.owner ++ s.queue ≡ s.accepted
  pub accounted :
      (c : ℕ) → count c s.accepted + count c s.pending + count c s.called ≡ count c s.submitted
  pub gate : s.accepting_commands ≡ (is_opened s.owner || is_alive s.thread)
  pub no_orphan : (is_empty_list s.queue || s.accepting_commands) ≡ true
  pub apart : (is_alive s.thread && not (is_idle s.owner)) ≡ false

count-append : (c : ℕ) (xs ys : List ℕ) → count c (xs ++ ys) ≡ count c xs + count c ys
count-append c [] ys = omega arith
count-append c (x ∷ xs) ys = omega (arith, count-append c xs ys)

abbrev After : ℕ → ℕ → List ℕ → Option (List ℕ) → Type 0
After c command xs none = Unit
After c command xs (some rest) = count c xs ≡ one_if (command == c) + count c rest

After-put :
    (c command x : ℕ) (xs : List ℕ) (r : Option (List ℕ))
    → After c command xs r
    → After c command (x ∷ xs) (Option.map (◌∷◌ x) r)
After-put c command x xs none h = tt
After-put c command x xs (some rest) h = omega (arith, h)

count-remove : (c command : ℕ) (xs : List ℕ) → After c command xs (remove ◌==◌ command xs)
count-remove c command [] = tt
count-remove c command (x ∷ xs) = elim (Bool-cases (x == command)) [
  | inl e ↦ rw e (ground (arith, e))
  | inr e ↦ rw e (After-put c command x xs (remove ◌==◌ command xs) (count-remove c command xs))
]

pub empty_of : {A : Type 0} (xs : List A) → is_empty_list xs ≡ true → xs ≡ []
empty_of [] h = refl
empty_of (x ∷ xs) h = cc

pub idle_of : (o : Owner) → is_idle o ≡ true → o ≡ idle
idle_of idle h = refl
idle_of opened h = cc
idle_of clearing h = cc
idle_of (clearing_running c) h = cc

pub submit-IsSound : (s : Inbox) (command : ℕ) → IsSound s → IsSound (submit_to_driver command s)
unfolding submit_to_driver
submit-IsSound s command v = elim (Bool-cases s.accepting_commands) [
  | inl h ↦ rw h (record {
    in_turn =
        sym (append_assoc (s.ran ++ in_hand s.thread ++ owner_hand s.owner) s.queue (command ∷ []))
        ∙ ap (λ l. l ++ command ∷ []) v.in_turn;
    accounted = λ c. omega (
      arith,
      v.accounted c,
      count-append c s.accepted (command ∷ []),
      count-append c s.submitted (command ∷ []),
    );
    gate = sym h ∙ v.gate;
    no_orphan = ground (arith, h);
    apart = v.apart;
  })
  | inr h ↦ rw h (record {
    in_turn = v.in_turn;
    accounted = λ c. omega (
      arith,
      v.accounted c,
      count-append c s.pending (command ∷ []),
      count-append c s.submitted (command ∷ []),
    );
    gate = sym h ∙ v.gate;
    no_orphan = ground (arith, v.no_orphan, h);
    apart = v.apart;
  })
]

pub run_inline-IsSound : (s : Inbox) (command : ℕ) → IsSound s → IsSound (run_inline command s)
unfolding run_inline
run_inline-IsSound s command v = elim (Option-cases (remove ◌==◌ command s.pending)) [
  | inl e ↦ rw (e, run_inline) v
  | inr (rest, e) ↦
      rw (e, run_inline)
        (record {
          in_turn = v.in_turn;
          accounted = λ c.
              let taken : count c s.pending ≡ one_if (command == c) + count c rest =
                rw e at (count-remove c command s.pending) in
              omega (arith, v.accounted c, taken, count-append c s.called (command ∷ []));
          gate = v.gate;
          no_orphan = v.no_orphan;
          apart = v.apart;
        })
]
