-- ===== src/Tests/Driver.antt =====
-- The driver at concrete inputs: threads at the command inbox, and the budget of the ticks.
use nparse_plus.Prelude.{
  ℕ, ◌≤◌, ◌≡◌, refl, true, false, not, some, List, [], ◌∷◌, ◌++◌, one_if, arith,
}
use nparse_plus.Driver.Inbox.{
  Inbox, new_inbox, submit_to_driver, run_inline, start, begin, stop, take_turn, is_alive,
}
use nparse_plus.Driver.Steps.{
  Reach, here, next, submitted, started, begun, stopped, in_hand, IsSound,
}
use nparse_plus.Driver.Soundness.{Reach-IsSound}
use nparse_plus.Driver.Drains.{drive, pieces, IsOver, drive-IsOver}
use nparse_plus.Driver.Ticks.{
  Ticks, Iteration, add_supervised_tick, remove_tick, register_tick, run_iterations,
}
use nparse_plus.Driver.Watches.{listed}
use nparse_plus.Driver.Budget.{own_times, has_two_slow, register_tick-listed}

-- A caller finds the gate shut and waits; the driver starts, is given two commands and told to stop.
abbrev waiting : Inbox
waiting =
    stop (submit_to_driver 3 (submit_to_driver 2 (begin (start (submit_to_driver 1 new_inbox)))))

waiting-Reach : Reach new_inbox waiting
waiting-Reach =
    next
      (next (next (next (next (next here (submitted _ 1)) (started _)) (begun _)) (submitted _ 2))
        (submitted _ 3))
      (stopped _)

Reach-IsSound_example : IsSound waiting
Reach-IsSound_example = Reach-IsSound waiting-Reach

-- The caller has yet to run the first command, beside a thread that lives.
waiting_test : (waiting.pending ≡ 1 ∷ []) × (is_alive waiting.thread ≡ true)
unfolding submit_to_driver begin start stop new_inbox
waiting_test = (refl, refl)

-- The thread takes its two commands; then the caller runs the first.
after_end_test :
    ((run_inline 1 (drive 12 waiting)).ran ≡ 2 ∷ 3 ∷ [])
    × ((run_inline 1 (drive 12 waiting)).called ≡ 1 ∷ [])
unfolding submit_to_driver begin start stop new_inbox drive take_turn run_inline
after_end_test = (refl, refl)

stop_is_set : waiting.stop_set ≡ true
unfolding submit_to_driver begin start stop new_inbox
stop_is_set = refl

thread_lives : is_alive waiting.thread ≡ true
unfolding submit_to_driver begin start stop new_inbox
thread_lives = refl

enough : pieces waiting.thread waiting.queue ≤ 12
unfolding submit_to_driver begin start stop new_inbox
enough = omega arith

drive-IsOver_example :
    IsOver (waiting.ran ++ in_hand waiting.thread ++ waiting.queue) (drive 12 waiting)
drive-IsOver_example = drive-IsOver 12 waiting stop_is_set thread_lives enough

abbrev no_ticks : Ticks
no_ticks = record { on_tick = 5 ∷ []; supervised = []; dropped = [] }

abbrev all_take : ℕ → Iteration
all_take elapsed = record { commands = []; outcome = λ fn. some elapsed }

-- Meanwhile tick 8 comes and goes.
abbrev slow_twice : List Iteration
slow_twice =
    all_take 300000
    ∷ record (all_take 10) { commands = add_supervised_tick 8 [] false ∷ [] }
    ∷ all_take 300000
    ∷ record (all_take 250000) { commands = remove_tick 8 ∷ [] }
    ∷ all_take 10
    ∷ []

-- Tick 5 belongs to the application and stays; tick 7 goes after the fourth pass.
run_iterations_test :
    ((run_iterations slow_twice (register_tick 7 [] true no_ticks)).0.on_tick ≡ 5 ∷ [])
    × ((run_iterations slow_twice (register_tick 7 [] true no_ticks)).0.dropped ≡ (7, 2) ∷ [])
unfolding run_iterations register_tick
run_iterations_test = (refl, refl)

register_tick-listed_example :
    listed 7 (run_iterations slow_twice (register_tick 7 [] true no_ticks)).0.on_tick
    ≡ one_if (
        not (
          has_two_slow
            (own_times 7 (run_iterations slow_twice (register_tick 7 [] true no_ticks)).1)))
register_tick-listed_example = register_tick-listed 7 [] true slow_twice no_ticks refl refl
