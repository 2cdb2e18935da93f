-- ===== src/Driver/Budget.antt =====
-- The eviction of slow ticks (core/driver.py).
use nparse_plus.Prelude.{
  ℕ, ◌+◌, ◌≡◌, refl, ap, sym, ◌∙◌, Bool, true, false, not, ◌&&◌, ◌||◌, Option, none, some, List, [],
  ◌∷◌, ◌++◌, if◌then◌else◌, ◌==◌, one_if, arith, Bool-cases, Option-cases, inl, inr,
}
use nparse_plus.Text.{Text}
use nparse_plus.Driver.Ticks.{
  SupervisedTick, Ticks, Registration, add_supervised_tick, remove_tick, apply, apply_all,
  Iteration, iterate, run_iterations, remove_tick_now, watch_of, register_tick, timed, run_ticks,
  run_supervised_ticks,
}
use nparse_plus.Driver.Watches.{
  breaches_of, seen, listed, is_slow, after_run, after_runs, watch_of-set_watch, watch_of-pop_watch,
  listed-without_tick, is_some?, IsListed, timed-Follows,
}

-- The times that a callback took.
abbrev pub own_times : ℕ → List (ℕ × ℕ) → List ℕ
own_times fn [] = []
own_times fn ((k, elapsed) ∷ log) = if k == fn then elapsed ∷ own_times fn log else own_times fn log

abbrev pub first_slow : List ℕ → Bool
first_slow [] = false
first_slow (d ∷ ds) = is_slow d

-- There are two times over the budget with none between them.
abbrev pub has_two_slow : List ℕ → Bool
has_two_slow [] = false
has_two_slow (d ∷ ds) = (is_slow d && first_slow ds) || has_two_slow ds

after_runs-none : (ds : List ℕ) → after_runs ds none ≡ none
after_runs-none [] = refl
after_runs-none (d ∷ ds) = after_runs-none ds

after_runs-has_two_slow :
    (ds : List ℕ)
    → (is_some? (after_runs ds (some 0)) ≡ not (has_two_slow ds))
      × (is_some? (after_runs ds (some 1)) ≡ not (first_slow ds || has_two_slow ds))
after_runs-has_two_slow [] = (refl, refl)
after_runs-has_two_slow (d ∷ ds) =
    let (zero_before, one_before) = after_runs-has_two_slow ds in
    elim (Bool-cases (is_slow d)) [
      | inl b ↦ rw b (one_before, ap is_some? (after_runs-none ds))
      | inr b ↦ rw b (zero_before, zero_before)
    ]

own_times-append :
    (fn : ℕ) (xs ys : List (ℕ × ℕ)) → own_times fn (xs ++ ys) ≡ own_times fn xs ++ own_times fn ys
own_times-append fn [] ys = refl
own_times-append fn ((k, e) ∷ xs) ys = ground (arith, own_times-append fn xs ys)

after_runs-append :
    (xs ys : List ℕ) (b : Option ℕ) → after_runs (xs ++ ys) b ≡ after_runs ys (after_runs xs b)
after_runs-append [] ys b = refl
after_runs-append (x ∷ xs) ys b = after_runs-append xs ys (after_run x b)

-- After runs that were logged.
abbrev Tracks : ℕ → Ticks → Ticks × List (ℕ × ℕ) → Type 0
Tracks fn s r = (seen fn r.0 ≡ after_runs (own_times fn r.1) (seen fn s)) × IsListed fn r.0

logged-Tracks :
    (fn k elapsed : ℕ) (s s1 : Ticks) (r : Ticks × List (ℕ × ℕ))
    → seen fn s1 ≡ (if k == fn then after_run elapsed (seen fn s) else seen fn s)
    → Tracks fn s1 r
    → Tracks fn s (r.0, (k, elapsed) ∷ r.1)
logged-Tracks fn k elapsed s s1 r h t = elim (Bool-cases (k == fn)) [
  | inl b ↦ rw b (
    t.0
        ∙ ap (after_runs (own_times fn r.1))
            (h ∙ ap (λ c. if c then after_run elapsed (seen fn s) else seen fn s) b),
    t.1,
  )
  | inr b ↦ rw b (
    t.0
        ∙ ap (after_runs (own_times fn r.1))
            (h ∙ ap (λ c. if c then after_run elapsed (seen fn s) else seen fn s) b),
    t.1,
  )
]

run_ticks-Tracks :
    (fn : ℕ) (outcome : ℕ → Option ℕ) (ticks : List ℕ) (s : Ticks)
    → IsListed fn s
    → Tracks fn s (run_ticks outcome ticks s)
unfolding run_ticks
run_ticks-Tracks fn outcome [] s h = (refl, h)
run_ticks-Tracks fn outcome (k ∷ ticks) s h = elim (Option-cases (outcome k)) [
  | inl e ↦ rw (e, run_ticks) (refl, h)
  | inr (elapsed, e) ↦
      let s1 = timed k elapsed s (watch_of k s.supervised) in
      let (step, on) = timed-Follows fn k elapsed s h in
      rw (e, run_ticks)
        (logged-Tracks fn k elapsed s s1 (run_ticks outcome ticks s1) step
          (run_ticks-Tracks fn outcome ticks s1 on))
]

listed-append : (fn : ℕ) (xs ys : List ℕ) → listed fn (xs ++ ys) ≡ listed fn xs + listed fn ys
listed-append fn [] ys = omega arith
listed-append fn (x ∷ xs) ys = omega (arith, listed-append fn xs ys)

-- The callback that a command is about.
abbrev pub concerns : ℕ → Registration → Bool
concerns fn (add_supervised_tick k label has_on_dropped) = k == fn
concerns fn (remove_tick k) = k == fn

-- A command about the callback is among those of an iteration, or of some iteration.
abbrev pub is_concerned : ℕ → List Registration → Bool
is_concerned fn [] = false
is_concerned fn (command ∷ commands) = concerns fn command || is_concerned fn commands

abbrev pub is_ever_concerned : ℕ → List Iteration → Bool
is_ever_concerned fn [] = false
is_ever_concerned fn (i ∷ rest) = is_concerned fn i.commands || is_ever_concerned fn rest

-- The same breaches, and on the list as often.
abbrev Stays : ℕ → Ticks → Ticks → Type 0
Stays fn s s' = (seen fn s' ≡ seen fn s) × IsListed fn s'

apply-Stays :
    (fn : ℕ) (command : Registration) (s : Ticks)
    → concerns fn command ≡ false
    → IsListed fn s
    → Stays fn s (apply command s)
unfolding register_tick remove_tick_now
apply-Stays fn (add_supervised_tick k label d) s e h =
    let watch : SupervisedTick = record { label = label; has_on_dropped = d; breaches = 0 } in
    rw (watch_of-set_watch fn k watch s.supervised, e)
      (refl, omega (arith, h, listed-append fn s.on_tick (k ∷ []), ap one_if e))
apply-Stays fn (remove_tick k) s e h =
    rw (watch_of-pop_watch fn k s.supervised, listed-without_tick fn k s.on_tick, e) (refl, h)

apply_all-Stays :
    (fn : ℕ) (commands : List Registration) (s : Ticks)
    → is_concerned fn commands ≡ false
    → IsListed fn s
    → Stays fn s (apply_all commands s)
unfolding apply_all
apply_all-Stays fn [] s e h = (refl, h)
apply_all-Stays fn (command ∷ commands) s e h =
    let (same, on) = apply-Stays fn command s (ground arith) h in
    let (later, still) = apply_all-Stays fn commands (apply command s) (ground arith) on in
    (later ∙ same, still)

iterate-Tracks :
    (fn : ℕ) (i : Iteration) (s : Ticks)
    → is_concerned fn i.commands ≡ false
    → IsListed fn s
    → Tracks fn s (iterate i s)
unfolding iterate run_supervised_ticks
iterate-Tracks fn i s e h =
    let s0 = apply_all i.commands s in
    let (same, on) = apply_all-Stays fn i.commands s e h in
    let (runs, still) = run_ticks-Tracks fn i.outcome s0.on_tick s0 on in
    (runs ∙ ap (after_runs (own_times fn (run_ticks i.outcome s0.on_tick s0).1)) same, still)

run_iterations-Tracks :
    (fn : ℕ) (is : List Iteration) (s : Ticks)
    → is_ever_concerned fn is ≡ false
    → IsListed fn s
    → Tracks fn s (run_iterations is s)
unfolding run_iterations
run_iterations-Tracks fn [] s e h = (refl, h)
run_iterations-Tracks fn (i ∷ rest) s e h =
    let (s1, now) = iterate i s in
    let (s2, later) = run_iterations rest s1 in
    let (first, on) = iterate-Tracks fn i s (ground arith) h in
    let (next, still) = run_iterations-Tracks fn rest s1 (ground arith) on in
    (
      next
          ∙ ap (after_runs (own_times fn later)) first
          ∙ sym (after_runs-append (own_times fn now) (own_times fn later) (seen fn s))
          ∙ ap (λ ds. after_runs ds (seen fn s)) (sym (own_times-append fn now later)),
      still,
    )

is_some?-breaches_of : (w : Option SupervisedTick) → is_some? (breaches_of w) ≡ is_some? w
is_some?-breaches_of none = refl
is_some?-breaches_of (some w) = refl

-- After the registration of a callback that was not on the list, and iterations in which no command
-- registers or removes that callback again, it is on the list once, where no two of its runs that came
-- to an end, with no other such run of it between them, were over the budget, and not at all where two
-- were: however the others are registered and removed, how long they take, and whichever raise.
pub register_tick-listed :
    (fn : ℕ) (label : Text) (has_on_dropped : Bool) (is : List Iteration) (s : Ticks)
    → listed fn s.on_tick ≡ 0
    → is_ever_concerned fn is ≡ false
    → listed fn (run_iterations is (register_tick fn label has_on_dropped s)).0.on_tick
      ≡ one_if (
          not (
            has_two_slow
              (own_times fn (run_iterations is (register_tick fn label has_on_dropped s)).1)))
unfolding register_tick
register_tick-listed fn label has_on_dropped is s h apart =
    let s0 = register_tick fn label has_on_dropped s in
    let same : (fn == fn) ≡ true = ground arith in
    let watch : SupervisedTick = record {
      label = label;
      has_on_dropped = has_on_dropped;
      breaches = 0;
    } in
    let watched : watch_of fn s0.supervised ≡ some watch =
      watch_of-set_watch fn fn watch s.supervised ∙ rw same refl in
    let on : IsListed fn s0 = omega (
      arith,
      listed-append fn s.on_tick (fn ∷ []),
      h,
      ap one_if same,
      ap (λ o. one_if (is_some? o)) watched,
    ) in
    let (breaches, still) = run_iterations-Tracks fn is s0 apart on in
    let log = (run_iterations is s0).1 in
    still
    ∙ ap one_if (
        sym (is_some?-breaches_of (watch_of fn (run_iterations is s0).0.supervised))
        ∙ ap is_some? breaches
        ∙ ap (λ o. is_some? (after_runs (own_times fn log) (breaches_of o))) watched
        ∙ (after_runs-has_two_slow (own_times fn log)).0)
