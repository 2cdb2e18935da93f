-- ===== src/Driver/Soundness.antt =====
-- The inbox over all interleavings (core/driver.py).
use nparse_plus.Prelude.{
  ℕ, ◌≡◌, refl, sym, ap, ◌∙◌, true, false, List, [], ◌∷◌, ◌++◌, ◌||◌, arith, Bool-cases, inl, inr,
  is_empty_list,
}
use nparse_plus.Driver.Inbox.{
  Inbox, Thread, Owner, is_alive, is_unstarted, unstarted, testing, draining, working, closing,
  looking, ended, running, closing_running, idle, opened, clearing, clearing_running, new_inbox,
  start, begin, stop, clear_commands, take_turn, skip_drain, start_by, begin_by, stop_by, clear_by,
}
use nparse_plus.Driver.Steps.{
  Step, submitted, called, started, begun, stopped, cleared, turned, skipped, Reach, here, next,
  in_hand, owner_hand, is_opened, is_idle, IsSound, empty_of, submit-IsSound, run_inline-IsSound,
}
use nparse_plus.Driver.Turns.{own_moves, turn-IsSound, skip-IsSound}

dead_queue : (s : Inbox) → IsSound s → s.accepting_commands ≡ false → s.queue ≡ []
dead_queue s v h = empty_of s.queue (ground (arith, v.no_orphan, h))

start-IsSound : (o : Owner) (s : Inbox) → s.owner ≡ o → IsSound s → IsSound (start_by o s)
start-IsSound idle s e v = elim (Bool-cases (is_alive s.thread)) [
  | inl b ↦ rw b v
  | inr b ↦ rw b (record {
    in_turn = ap (λ o. s.ran ++ in_hand s.thread ++ owner_hand o ++ s.queue) (sym e) ∙ v.in_turn;
    accounted = v.accounted;
    gate = refl;
    no_orphan = ground arith;
    apart = ground (arith, b);
  })
]
start-IsSound opened s e v = v
start-IsSound clearing s e v = v
start-IsSound (clearing_running c) s e v = v

dead_hand : (t : Thread) → is_alive t ≡ false → in_hand t ≡ []
dead_hand unstarted h = refl
dead_hand ended h = refl
dead_hand testing h = cc
dead_hand draining h = cc
dead_hand working h = cc
dead_hand closing h = cc
dead_hand looking h = cc
dead_hand (running c) h = cc
dead_hand (closing_running c) h = cc

dead_thread : (s : Inbox) → IsSound s → is_idle s.owner ≡ false → is_alive s.thread ≡ false
dead_thread s v h = ground (arith, v.apart, h)

begin-IsSound : (o : Owner) (s : Inbox) → s.owner ≡ o → IsSound s → IsSound (begin_by o s)
begin-IsSound idle s e v = v
begin-IsSound opened s e v =
    let dead = dead_hand s.thread (dead_thread s v (ap is_idle e)) in
    record {
      in_turn =
          ap (λ x. s.ran ++ x ++ [] ++ s.queue) (sym dead)
          ∙ ap (λ o. s.ran ++ in_hand s.thread ++ owner_hand o ++ s.queue) (sym e)
          ∙ v.in_turn;
      accounted = v.accounted;
      gate = v.gate ∙ ap (λ o. is_opened o || is_alive s.thread) e;
      no_orphan = v.no_orphan;
      apart = refl;
    }
begin-IsSound clearing s e v = v
begin-IsSound (clearing_running c) s e v = v

not_alive : (t : Thread) → is_unstarted t ≡ true → is_alive t ≡ false
not_alive unstarted h = refl
not_alive testing h = cc
not_alive draining h = cc
not_alive working h = cc
not_alive closing h = cc
not_alive looking h = cc
not_alive ended h = cc
not_alive (running c) h = cc
not_alive (closing_running c) h = cc

stop-IsSound : (o : Owner) (s : Inbox) → s.owner ≡ o → IsSound s → IsSound (stop_by o s)
stop-IsSound idle s e v = elim (Bool-cases (is_unstarted s.thread)) [
  | inl b ↦
      let dead = not_alive s.thread b in
      let shut : s.accepting_commands ≡ false =
        v.gate ∙ ap (λ o. is_opened o || is_alive s.thread) e ∙ dead in
      rw b (record {
        in_turn =
            ap (λ o. s.ran ++ in_hand s.thread ++ owner_hand o ++ s.queue) (sym e) ∙ v.in_turn;
        accounted = v.accounted;
        gate = sym dead;
        no_orphan = ground (arith, ap is_empty_list (dead_queue s v shut));
        apart = ground (arith, dead);
      })
  | inr b ↦ rw b (record {
    in_turn = v.in_turn;
    accounted = v.accounted;
    gate = v.gate;
    no_orphan = v.no_orphan;
    apart = v.apart;
  })
]
stop-IsSound opened s e v = v
stop-IsSound clearing s e v = v
stop-IsSound (clearing_running c) s e v = v

clear-IsSound :
    (o : Owner) (q : List ℕ) (s : Inbox)
    → s.owner ≡ o
    → s.queue ≡ q
    → IsSound s
    → IsSound (clear_by o q s)
clear-IsSound idle q s e h v = v
clear-IsSound opened q s e h v = v
clear-IsSound clearing [] s e h v = record {
  in_turn = ap (λ o. s.ran ++ in_hand s.thread ++ owner_hand o ++ s.queue) (sym e) ∙ v.in_turn;
  accounted = v.accounted;
  gate = v.gate ∙ ap (λ o. is_opened o || is_alive s.thread) e;
  no_orphan = v.no_orphan;
  apart = ground (arith, dead_thread s v (ap is_idle e));
}
clear-IsSound clearing (c ∷ rest) s e h v =
    let shut : s.accepting_commands ≡ false =
      v.gate ∙ ap (λ o. is_opened o || is_alive s.thread) e ∙ dead_thread s v (ap is_idle e) in
    cc (dead_queue s v shut, h)
clear-IsSound (clearing_running c) q s e h v =
    let dead = dead_hand s.thread (dead_thread s v (ap is_idle e)) in
    record {
      in_turn =
          ap (λ x. s.ran ++ c ∷ [] ++ x ++ [] ++ s.queue) dead
          ∙ own_moves s.ran s.queue c
          ∙ ap (λ x. s.ran ++ x ++ c ∷ [] ++ s.queue) (sym dead)
          ∙ ap (λ o. s.ran ++ in_hand s.thread ++ owner_hand o ++ s.queue) (sym e)
          ∙ v.in_turn;
      accounted = v.accounted;
      gate = v.gate ∙ ap (λ o. is_opened o || is_alive s.thread) e;
      no_orphan = v.no_orphan;
      apart = ground (arith, dead_thread s v (ap is_idle e));
    }

Step-IsSound : {s t : Inbox} → Step s t → IsSound s → IsSound t
unfolding start begin stop clear_commands take_turn skip_drain
Step-IsSound (submitted s c) v = submit-IsSound s c v
Step-IsSound (called s c) v = run_inline-IsSound s c v
Step-IsSound (started s) v = start-IsSound s.owner s refl v
Step-IsSound (begun s) v = begin-IsSound s.owner s refl v
Step-IsSound (stopped s) v = stop-IsSound s.owner s refl v
Step-IsSound (cleared s) v = clear-IsSound s.owner s.queue s refl refl v
Step-IsSound (turned s) v = turn-IsSound s.thread s.queue s refl refl v
Step-IsSound (skipped s) v = skip-IsSound s.thread s refl v

new-IsSound : IsSound new_inbox
unfolding new_inbox
new-IsSound = record {
  in_turn = refl;
  accounted = λ c. refl;
  gate = refl;
  no_orphan = refl;
  apart = refl;
}

-- However the threads take turns from a new driver on, and wherever a piece of one is followed by
-- pieces of others: the commands run from the queue, with the one in hand and those queued, are those
-- that were queued, each once and in order; every submission of a command was queued, or waits for its
-- caller to run it, or was run by its caller, and is just one of these; the gate is open exactly while
-- `start` has opened it or the driver's thread lives; nothing is queued behind a shut gate; and no
-- thread lives while the owner is in `start` with the gate open, or drains for one that never started.
pub Reach-IsSound : {s : Inbox} → Reach new_inbox s → IsSound s
Reach-IsSound here = new-IsSound
Reach-IsSound (next r st) = Step-IsSound st (Reach-IsSound r)
