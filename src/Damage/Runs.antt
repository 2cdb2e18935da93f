-- ===== src/Damage/Runs.antt =====
-- The calls that a tracker takes, and runs of them (core/dps.py).
use nparse_plus.Prelude.{ℕ, ◌≤◌, Option, List, [], ◌∷◌}
use nparse_plus.Text.{Text}
use nparse_plus.Damage.Tracker.{
  PlayerDamage, DamageEvent, FightTracker, Changes, configure, reset_session_stats, reset_best,
  load_best, note_your_cast, cancel_your_cast, set_pet_name,
}
use nparse_plus.Damage.Operations.{
  add_damage, end_fight, clear, tick, end_session, remove_last_session,
}

pub data Call : Type 0 where
  configured : Changes → Call
  stats_reset best_reset session_ended last_removed interrupted : Call
  best_loaded : PlayerDamage → Call
  cast_noted : ℕ → ℕ → Call
  pet_named : Text → Call
  damaged : DamageEvent → Call
  died : Text → ℕ → Call
  cleared : Option ℕ → Call
  ticked : ℕ → Call

unfoldable pub call : Call → FightTracker → FightTracker
unfolding configure reset_session_stats reset_best load_best note_your_cast cancel_your_cast
    set_pet_name add_damage end_fight clear tick end_session remove_last_session
call (configured c) t = configure c t
call stats_reset t = reset_session_stats t
call best_reset t = reset_best t
call session_ended t = end_session t
call last_removed t = remove_last_session t
call interrupted t = cancel_your_cast t
call (best_loaded b) t = load_best b t
call (cast_noted when cast_time) t = note_your_cast when cast_time t
call (pet_named name) t = set_pet_name name t
call (damaged event) t = add_damage event t
call (died victim when) t = (end_fight victim when t).0
call (cleared at) t = clear at t
call (ticked now) t = tick now t

unfoldable pub run : List Call → FightTracker → FightTracker
unfolding call
run [] t = t
run (c ∷ cs) t = run cs (call c t)

-- The hits come in the order of the log.
abbrev pub InOrder : ℕ → List Call → Type 0
InOrder t [] = Unit
InOrder t (damaged event ∷ cs) = (t ≤ event.timestamp) × InOrder event.timestamp cs
InOrder t (_ ∷ cs) = InOrder t cs
