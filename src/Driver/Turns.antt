-- ===== src/Driver/Turns.antt =====
-- The pieces of the driver's thread at the inbox (core/driver.py).
use nparse_plus.Prelude.{
  ℕ, ◌≡◌, refl, sym, ap, subst, ◌∙◌, true, false, List, [], ◌∷◌, ◌++◌, append_assoc, append-nil,
  ◌||◌, arith, Bool-cases, inl, inr, is_empty_list, if◌then◌else◌,
}
use nparse_plus.Driver.Inbox.{
  Inbox, Thread, is_alive, unstarted, testing, draining, working, closing, looking, ended, running,
  closing_running, idle, turn, skip,
}
use nparse_plus.Driver.Steps.{in_hand, owner_hand, is_opened, is_idle, IsSound, idle_of}

-- A piece of the thread after which it lives on, and what it took off the queue is in hand or over.
move-IsSound :
    (s : Inbox) (t t' : Thread) (q q' ran' : List ℕ)
    → s.thread ≡ t
    → s.queue ≡ q
    → is_alive t ≡ true
    → is_alive t' ≡ true
    → ran' ++ in_hand t' ++ [] ++ q' ≡ s.ran ++ in_hand t ++ [] ++ q
    → IsSound s
    → IsSound (record s { queue = q'; thread = t'; ran = ran' })
move-IsSound s t t' q q' ran' e h a b moved v =
    let alive : is_alive s.thread ≡ true = ap is_alive e ∙ a in
    let alone : s.owner ≡ idle = idle_of s.owner (ground (arith, v.apart, alive)) in
    let open_gate : s.accepting_commands ≡ true = ground (arith, v.gate, alive) in
    record {
      in_turn =
          ap (λ o. ran' ++ in_hand t' ++ owner_hand o ++ q') alone
          ∙ moved
          ∙ ap (λ o. s.ran ++ in_hand t ++ owner_hand o ++ q) (sym alone)
          ∙ ap (λ x. s.ran ++ in_hand x ++ owner_hand s.owner ++ q) (sym e)
          ∙ ap (λ x. s.ran ++ in_hand s.thread ++ owner_hand s.owner ++ x) (sym h)
          ∙ v.in_turn;
      accounted = v.accounted;
      gate = ground (arith, open_gate, b);
      no_orphan = ground (arith, open_gate);
      apart = ground (arith, ap is_idle alone);
    }

take_moves : (ran rest : List ℕ) (c : ℕ) → ran ++ c ∷ [] ++ [] ++ rest ≡ ran ++ [] ++ [] ++ c ∷ rest
take_moves ran rest c = simp (append-nil, append_assoc)

run_moves : (ran q : List ℕ) (c : ℕ) → (ran ++ c ∷ []) ++ [] ++ [] ++ q ≡ ran ++ c ∷ [] ++ [] ++ q
run_moves ran q c = simp (append-nil, append_assoc)

pub own_moves : (ran q : List ℕ) (c : ℕ) → ran ++ c ∷ [] ++ [] ++ [] ++ q ≡ ran ++ [] ++ c ∷ [] ++ q
own_moves ran q c = simp (append-nil, append_assoc)

ended-IsSound :
    (s : Inbox)
    → s.thread ≡ looking
    → s.queue ≡ []
    → IsSound s
    → IsSound (record s { accepting_commands = false; thread = ended })
ended-IsSound s e h v =
    let alive : is_alive s.thread ≡ true = ap is_alive e in
    let alone : s.owner ≡ idle = idle_of s.owner (ground (arith, v.apart, alive)) in
    record {
      in_turn = ap (λ x. s.ran ++ in_hand x ++ owner_hand s.owner ++ s.queue) (sym e) ∙ v.in_turn;
      accounted = v.accounted;
      gate = sym (ap (λ o. is_opened o || false) alone);
      no_orphan = ap (λ q. is_empty_list q || false) h;
      apart = refl;
    }

pub turn-IsSound :
    (t : Thread) (q : List ℕ) (s : Inbox)
    → s.thread ≡ t
    → s.queue ≡ q
    → IsSound s
    → IsSound (turn t q s)
turn-IsSound unstarted q s e h v = v
turn-IsSound ended q s e h v = v
turn-IsSound testing q s e h v = elim (Bool-cases s.stop_set) [
  | inl b ↦
      subst (λ x. IsSound (record s { thread = if x then closing else draining })) (sym b)
        (move-IsSound s testing closing s.queue s.queue s.ran e refl refl refl refl v)
  | inr b ↦
      subst (λ x. IsSound (record s { thread = if x then closing else draining })) (sym b)
        (move-IsSound s testing draining s.queue s.queue s.ran e refl refl refl refl v)
]
turn-IsSound draining [] s e h v =
    move-IsSound s draining working s.queue s.queue s.ran e refl refl refl refl v
turn-IsSound draining (c ∷ rest) s e h v =
    move-IsSound s draining (running c) (c ∷ rest) rest s.ran e h refl refl
      (take_moves s.ran rest c) v
turn-IsSound (running c) q s e h v =
    move-IsSound s (running c) draining s.queue s.queue (s.ran ++ c ∷ []) e refl refl refl
      (run_moves s.ran s.queue c) v
turn-IsSound working q s e h v =
    move-IsSound s working testing s.queue s.queue s.ran e refl refl refl refl v
turn-IsSound closing [] s e h v =
    move-IsSound s closing looking s.queue s.queue s.ran e refl refl refl refl v
turn-IsSound closing (c ∷ rest) s e h v =
    move-IsSound s closing (closing_running c) (c ∷ rest) rest s.ran e h refl refl
      (take_moves s.ran rest c) v
turn-IsSound (closing_running c) q s e h v =
    move-IsSound s (closing_running c) closing s.queue s.queue (s.ran ++ c ∷ []) e refl refl refl
      (run_moves s.ran s.queue c) v
turn-IsSound looking [] s e h v = ended-IsSound s e h v
turn-IsSound looking (c ∷ rest) s e h v =
    move-IsSound s looking closing s.queue s.queue s.ran e refl refl refl refl v

pub skip-IsSound : (t : Thread) (s : Inbox) → s.thread ≡ t → IsSound s → IsSound (skip t s)
skip-IsSound testing s e v = elim (Bool-cases s.stop_set) [
  | inl b ↦ simp b v
  | inr b ↦
      subst (λ x. IsSound (if x then s else record s { thread = working })) (sym b)
        (move-IsSound s testing working s.queue s.queue s.ran e refl refl refl refl v)
]
skip-IsSound t s e v = v
