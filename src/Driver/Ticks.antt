-- ===== src/Driver/Ticks.antt =====
-- The ticks of the driver and their budget (core/driver.py): registration, removal, and a pass over
-- the supervised ticks.
--
-- A callback is a number. What one run of it does is its outcome: the time that it took, or none
-- where it raised. What a callback registers or removes is a command in the inbox, so it finds the
-- list as it is until the pass is over. Times are microseconds.
use nparse_plus.Prelude.{
  ℕ, ◌+◌, Bool, not, Option, none, some, List, [], ◌∷◌, ◌++◌, if◌then◌else◌, ◌==◌, ltb, keep,
}
use nparse_plus.Text.{Text}

abbrev pub tick_budget : ℕ
tick_budget = 250000

abbrev pub tick_breach_limit : ℕ
tick_breach_limit = 2

pub record SupervisedTick : Type 0 where
  pub label : Text
  pub has_on_dropped : Bool
  pub breaches : ℕ

-- `dropped` holds the callbacks whose `on_dropped` was called, and their breaches.
pub record Ticks : Type 0 where
  pub on_tick : List ℕ
  pub supervised : List (ℕ × SupervisedTick)
  pub dropped : List (ℕ × ℕ)

-- `self._supervised.get(fn)`
unfoldable pub watch_of : ℕ → List (ℕ × SupervisedTick) → Option SupervisedTick
watch_of fn [] = none
watch_of fn ((k, w) ∷ rest) = let later = watch_of fn rest in if k == fn then some w else later

-- `self._supervised[fn] = watch`
unfoldable pub set_watch :
    ℕ → SupervisedTick → List (ℕ × SupervisedTick) → List (ℕ × SupervisedTick)
set_watch fn watch [] = (fn, watch) ∷ []
set_watch fn watch ((k, w) ∷ rest) =
    let later = set_watch fn watch rest in if k == fn then (k, watch) ∷ rest else (k, w) ∷ later

-- `self._supervised.pop(fn, None)`
unfoldable pub pop_watch : ℕ → List (ℕ × SupervisedTick) → List (ℕ × SupervisedTick)
pop_watch fn supervised = keep (λ (entry : ℕ × SupervisedTick). not (entry.0 == fn)) supervised

-- `self.on_tick.remove(fn)`, with its ValueError suppressed
unfoldable pub without_tick : ℕ → List ℕ → List ℕ
without_tick fn [] = []
without_tick fn (k ∷ ticks) =
    let rest = without_tick fn ticks in if k == fn then ticks else k ∷ rest

unfoldable pub register_tick : ℕ → Text → Bool → Ticks → Ticks
unfolding set_watch
register_tick fn label has_on_dropped s = record s {
  on_tick = s.on_tick ++ fn ∷ [];
  supervised =
      set_watch fn (record { label = label; has_on_dropped = has_on_dropped; breaches = 0 })
        s.supervised;
}

unfoldable pub remove_tick_now : ℕ → Ticks → Ticks
unfolding pop_watch without_tick
remove_tick_now fn s = record s {
  supervised = pop_watch fn s.supervised;
  on_tick = without_tick fn s.on_tick;
}

abbrev pub with_breaches : ℕ → ℕ → SupervisedTick → Ticks → Ticks
with_breaches fn n watch s = record s {
  supervised = set_watch fn (record watch { breaches = n }) s.supervised;
}

abbrev pub drop_tick : ℕ → SupervisedTick → Ticks → Ticks
drop_tick fn watch s =
    let removed = remove_tick_now fn s in
    if watch.has_on_dropped
    then record removed { dropped = removed.dropped ++ (fn, watch.breaches + 1) ∷ [] }
    else removed

-- The watch object is changed in place.
unfoldable pub record_tick_duration : ℕ → SupervisedTick → ℕ → Ticks → Ticks
unfolding remove_tick_now set_watch
record_tick_duration fn watch elapsed s =
    if ltb elapsed tick_budget
    then with_breaches fn 0 watch s
    else if ltb (watch.breaches + 1) tick_breach_limit
    then with_breaches fn (watch.breaches + 1) watch s
    else drop_tick fn watch s

-- One run of a callback; one that is not supervised is not timed.
abbrev pub timed : ℕ → ℕ → Ticks → Option SupervisedTick → Ticks
timed fn elapsed s none = s
timed fn elapsed s (some watch) = record_tick_duration fn watch elapsed s

-- The callbacks of the copy in turn, with the log of those that ran to their end; one that raises
-- ends the pass.
unfoldable pub run_ticks : (ℕ → Option ℕ) → List ℕ → Ticks → Ticks × List (ℕ × ℕ)
unfolding record_tick_duration watch_of
run_ticks outcome [] s = (s, [])
run_ticks outcome (fn ∷ ticks) s = elim (outcome fn) [
  | none ↦ (s, [])
  | some elapsed ↦
      let (s', log) = run_ticks outcome ticks (timed fn elapsed s (watch_of fn s.supervised)) in
      (s', (fn, elapsed) ∷ log)
]

unfoldable pub run_supervised_ticks : (ℕ → Option ℕ) → Ticks → Ticks × List (ℕ × ℕ)
unfolding run_ticks
run_supervised_ticks outcome s = run_ticks outcome s.on_tick s

-- The commands of `add_supervised_tick` and `remove_tick`.
pub data Registration : Type 0 where
  add_supervised_tick : ℕ → Text → Bool → Registration
  remove_tick : ℕ → Registration

abbrev pub apply : Registration → Ticks → Ticks
apply (add_supervised_tick fn label has_on_dropped) s = register_tick fn label has_on_dropped s
apply (remove_tick fn) s = remove_tick_now fn s

unfoldable pub apply_all : List Registration → Ticks → Ticks
unfolding register_tick remove_tick_now
apply_all [] s = s
apply_all (command ∷ commands) s = apply_all commands (apply command s)

-- What an iteration of the loop finds: the commands in the inbox, and the outcome of each callback.
pub record Iteration : Type 0 where
  pub commands : List Registration
  pub outcome : ℕ → Option ℕ

-- The ticks in `_iterate`, behind the drain. Where nothing is supervised the pass is the plain loop,
-- which is the same but for the reads of the clock.
unfoldable pub iterate : Iteration → Ticks → Ticks × List (ℕ × ℕ)
unfolding apply_all run_supervised_ticks
iterate i s = run_supervised_ticks i.outcome (apply_all i.commands s)

-- Iterations in turn, with the log of all of them.
unfoldable pub run_iterations : List Iteration → Ticks → Ticks × List (ℕ × ℕ)
unfolding iterate
run_iterations [] s = (s, [])
run_iterations (i ∷ rest) s =
    let (s1, now) = iterate i s in let (s2, later) = run_iterations rest s1 in (s2, now ++ later)
