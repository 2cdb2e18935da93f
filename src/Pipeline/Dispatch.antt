-- ===== src/Pipeline/Dispatch.antt =====
-- Whom a publication calls (core/bus.py).
use nparse_plus.Prelude.{
  ℕ, ◌≡◌, sym, ap, ◌∙◌, false, List, [], ◌∷◌, ◌++◌, if◌then◌else◌, ◌==◌, arith, Bool-cases, inl,
  inr, any, append_assoc, append-nil,
}
use nparse_plus.Pipeline.Bus.{
  EventBus, Event, State, subscribed, change_list, drop_first, subscribe, unsubscribe, call_handler,
  call_each, publish,
}

module _ {ℓ κ} {P : Type ℓ} {W : Type κ} (act : ℕ → Event P → EventBus → W → EventBus × W) where
  call_each-called :
      (fns : List ℕ) (event : Event P) (s : State W)
      → (call_each act fns event s).called ≡ s.called ++ fns
  unfolding call_each
  call_each-called [] event s = sym (append-nil s.called)
  call_each-called (fn ∷ fns) event s =
      call_each-called fns event (call_handler act fn event s) ∙ append_assoc s.called (fn ∷ []) fns

  -- A publication calls the handlers that were subscribed to its type when it began, once each and in
  -- order, whatever these do to the bus meanwhile; and then those that are on the firehose once the
  -- subscribers are through, which a subscriber can still join or leave.
  pub publish-called :
      (event : Event P) (s : State W)
      → let fns = subscribed event.type s.bus.subscribers in
        (publish act event s).called ≡ s.called ++ (fns ++ (call_each act fns event s).bus.firehose)
  unfolding publish
  publish-called event s =
      let fns = subscribed event.type s.bus.subscribers in
      let s' = call_each act fns event s in
      call_each-called s'.bus.firehose event s'
      ∙ ap (λ l. l ++ s'.bus.firehose) (call_each-called fns event s)
      ∙ append_assoc s.called fns s'.bus.firehose

-- A handler that is not in the list goes again.
drop_first-append :
    (fn : ℕ) (fns : List ℕ) → any (λ f. f == fn) fns ≡ false → drop_first fn (fns ++ fn ∷ []) ≡ fns
unfolding drop_first
drop_first-append fn [] h = ground arith
drop_first-append fn (f ∷ fns) h = ground (arith, drop_first-append fn fns)

change_list-twice :
    (type : ℕ) (f g : List ℕ → List ℕ) (l : List (ℕ × List ℕ)) (other : ℕ)
    → g (f (subscribed type l)) ≡ subscribed type l
    → subscribed other (change_list type g (change_list type f l)) ≡ subscribed other l
unfolding subscribed change_list
change_list-twice type f g [] other h = ground (arith, h)
change_list-twice type f g ((t, fns) ∷ rest) other h = elim (Bool-cases (t == type)) [
  | inl e ↦
      let back : g (f fns) ≡ fns = rw e at h in
      rw e (rw e (ap (λ l. if t == other then l else subscribed other rest) back))
  | inr e ↦
      let more : g (f (subscribed type rest)) ≡ subscribed type rest = rw e at h in
      rw e (
        rw e (ap (λ l. if t == other then fns else l) (change_list-twice type f g rest other more)))
]

-- Unsubscribing a handler that was not subscribed before leaves, for every type, the subscribers that
-- there were.
pub unsubscribe-subscribe :
    (type fn : ℕ) (b : EventBus) (other : ℕ)
    → any (λ f. f == fn) (subscribed type b.subscribers) ≡ false
    → subscribed other (unsubscribe type fn (subscribe type fn b)).subscribers
      ≡ subscribed other b.subscribers
unfolding subscribe unsubscribe
unsubscribe-subscribe type fn b other h =
    change_list-twice type (λ fns. fns ++ fn ∷ []) (drop_first fn) b.subscribers other
      (drop_first-append fn (subscribed type b.subscribers) h)
