-- ===== src/Tests/DeathLoop.antt =====
-- Three deaths in two minutes, with a line of chat before the first.
use nparse_plus.Prelude.{◌*◌, ◌≡◌, refl, true, List, [], ◌∷◌, arith}
use nparse_plus.Text.{codes, text_eq}
use nparse_plus.Spells.Durations.{second}
use nparse_plus.DeathLoop.{DeathLoopService, Event, slain, damage, comms, handle, after, you}
use nparse_plus.DeathLoop.Alarm.{alarm_due, handle-alarm_due}

abbrev fresh : DeathLoopService
fresh = record { deaths_threshold = 3; window = 120 * second; death_timestamps = [] }

abbrev history : List Event
history =
    slain (90 * second) you
    ∷ damage (80 * second) (codes "a rat")
    ∷ slain (70 * second) you
    ∷ comms (50 * second) true you
    ∷ []

alarm_test : (handle (slain (100 * second) you) (after history fresh)).1 ≡ true
unfolding handle after text_eq
alarm_test = refl

handle-alarm_due_example :
    (handle (slain (100 * second) you) (after history fresh)).1
    ≡ alarm_due fresh (slain (100 * second) you) history
handle-alarm_due_example =
    handle-alarm_due fresh (100 * second) (slain (100 * second) you) history refl
      (omega arith, (omega arith, (omega arith, (omega arith, (omega arith, tt)))))
