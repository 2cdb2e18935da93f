-- ===== src/Pipeline/Bus.antt =====
-- The event bus (core/bus.py): `EventBus`.
--
-- A handler is known by its identity, and an event by its type and what it holds. What handlers do,
-- to the bus as well, is a parameter of `publish`; one that raises is over, and the next is called.
use nparse_plus.Prelude.{ℕ, List, [], ◌∷◌, ◌++◌, if◌then◌else◌, ◌==◌}

-- `_subscribers` as an association list from types, and `_firehose`.
pub record EventBus : Type 0 where
  pub subscribers : List (ℕ × List ℕ)
  pub firehose : List ℕ

abbrev pub new_bus : EventBus
new_bus = record { subscribers = []; firehose = [] }

-- `_subscribers.get(event_type, ())`
unfoldable pub subscribed : ℕ → List (ℕ × List ℕ) → List ℕ
subscribed type [] = []
subscribed type ((t, fns) ∷ rest) = if t == type then fns else subscribed type rest

-- A change of the list of a type, which is there from its first use on.
unfoldable pub change_list : ℕ → (List ℕ → List ℕ) → List (ℕ × List ℕ) → List (ℕ × List ℕ)
change_list type change [] = (type, change []) ∷ []
change_list type change ((t, fns) ∷ rest) =
    if t == type then (t, change fns) ∷ rest else (t, fns) ∷ change_list type change rest

-- `fns.remove(fn)`, of which a missing handler is ignored.
unfoldable pub drop_first : ℕ → List ℕ → List ℕ
drop_first fn [] = []
drop_first fn (f ∷ fns) = if f == fn then fns else f ∷ drop_first fn fns

unfoldable pub subscribe : ℕ → ℕ → EventBus → EventBus
unfolding change_list
subscribe type fn b = record b {
  subscribers = change_list type (λ fns. fns ++ fn ∷ []) b.subscribers;
}

-- The function that `subscribe` returns.
unfoldable pub unsubscribe : ℕ → ℕ → EventBus → EventBus
unfolding change_list drop_first
unsubscribe type fn b = record b { subscribers = change_list type (drop_first fn) b.subscribers }

unfoldable pub subscribe_all : ℕ → EventBus → EventBus
subscribe_all fn b = record b { firehose = b.firehose ++ fn ∷ [] }

unfoldable pub unsubscribe_all : ℕ → EventBus → EventBus
unfolding drop_first
unsubscribe_all fn b = record b { firehose = drop_first fn b.firehose }

pub record Event {ℓ} (P : Type ℓ) : Type ℓ where
  pub type : ℕ
  pub payload : P

-- The bus, the rest of the program, and the handlers called so far.
pub record State {κ} (W : Type κ) : Type κ where
  pub bus : EventBus
  pub world : W
  pub called : List ℕ

module _ {ℓ κ} {P : Type ℓ} {W : Type κ} (act : ℕ → Event P → EventBus → W → EventBus × W) where
  -- One call of a handler.
  abbrev pub call_handler : ℕ → Event P → State W → State W
  call_handler fn event s =
      let (bus, world) = act fn event s.bus s.world in
      record { bus = bus; world = world; called = s.called ++ fn ∷ [] }

  -- The loop over a copy of a list.
  unfoldable pub call_each : List ℕ → Event P → State W → State W
  call_each [] event s = s
  call_each (fn ∷ fns) event s = call_each fns event (call_handler fn event s)

  unfoldable pub publish : Event P → State W → State W
  unfolding subscribed call_each
  publish event s =
      let s' = call_each (subscribed event.type s.bus.subscribers) event s in
      call_each s'.bus.firehose event s'
