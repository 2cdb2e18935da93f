-- ===== src/Damage/Session.antt =====
-- The numbers of the session (core/dps.py): `PlayerDamage.observe` and `_update_session_stats`.
use nparse_plus.Prelude.{
  ℕ, ◌<◌, Bool, true, false, Option, none, some, List, [], ◌∷◌, arith, if◌then◌else◌, is_empty_list,
  any, ◌||◌, not, length, ◌==◌,
}
use nparse_plus.Text.{Text, casefold, is_empty, isspace}
use nparse_plus.Damage.Fight.{Fight}
use nparse_plus.Damage.Tracker.{
  PlayerDamage, observe, FightTracker, Rules, new_tracker, notify, configure, reset_session_stats,
  reset_best, load_best, note_your_cast, cancel_your_cast, set_pet_name, set_rules,
  same_measurement_rules, is_active, attribute, DamageEvent,
}
use nparse_plus.Damage.Operations.{
  reading, observed, observe_all, update_session_stats, take_damage, add_damage, end_fight, kill,
  stats_at, clear, refresh, retain, tick, end_session, remove_last_session,
}
use nparse_plus.Damage.Runs.{
  Call, configured, stats_reset, best_reset, session_ended, last_removed, interrupted, best_loaded,
  cast_noted, pet_named, damaged, died, cleared, ticked, call, run,
}

abbrev IsSound : PlayerDamage → Type 0
IsSound p = p.highest_hit < 32000

observe-IsSound : (dps total highest : ℕ) (p : PlayerDamage) → IsSound (observe dps total highest p)
unfolding observe
observe-IsSound dps total highest p = ground arith

observed-IsSound : (r : Option (ℕ × ℕ × ℕ)) (p : PlayerDamage) → IsSound p → IsSound (observed r p)
observed-IsSound none p h = h
observed-IsSound (some (dps, total, highest)) p h = observe-IsSound dps total highest p

observe_all-IsSound :
    (now : ℕ) (rules : Rules) (fs : List Fight) (p : PlayerDamage)
    → IsSound p
    → IsSound (observe_all now rules fs p)
unfolding observe_all
observe_all-IsSound now rules [] p h = h
observe_all-IsSound now rules (f ∷ fs) p h =
    observe_all-IsSound now rules fs (observed (reading now rules f) p)
      (observed-IsSound (reading now rules f) p h)

abbrev IsCurrent : FightTracker → Type 0
IsCurrent t = IsSound t.current_session

update-IsCurrent :
    (now : ℕ) (t : FightTracker) → IsCurrent t → IsCurrent (update_session_stats now t)
unfolding update_session_stats
update-IsCurrent now t h = observe_all-IsSound now t.rules t.fights t.current_session h

either-IsCurrent :
    (b : Bool) (t u : FightTracker) → IsCurrent t → IsCurrent u → IsCurrent (if b then t else u)
either-IsCurrent true t u h k = h
either-IsCurrent false t u h k = k

take_damage-IsCurrent :
    (event : DamageEvent) (t : FightTracker) (claim : Option Text)
    → IsCurrent t
    → IsCurrent (take_damage event t claim)
unfolding take_damage notify
take_damage-IsCurrent event t none h = h
take_damage-IsCurrent event t (some attacker) h = h

ended-IsCurrent :
    (b : Bool) (p q : FightTracker × Bool)
    → IsCurrent p.0
    → IsCurrent q.0
    → IsCurrent (if b then p else q).0
ended-IsCurrent true p q h k = h
ended-IsCurrent false p q h k = k

stats_at-IsCurrent : (at : Option ℕ) (t : FightTracker) → IsCurrent t → IsCurrent (stats_at at t)
stats_at-IsCurrent none t h = h
stats_at-IsCurrent (some now) t h = update-IsCurrent now t h

call-IsCurrent : (c : Call) (t : FightTracker) → IsCurrent t → IsCurrent (call c t)
unfolding call configure reset_session_stats reset_best load_best note_your_cast cancel_your_cast
    set_pet_name end_session remove_last_session notify add_damage end_fight clear tick
call-IsCurrent (configured c) t h =
    let t' = record t { rules = set_rules c t.rules } in
    either-IsCurrent (same_measurement_rules (set_rules c t.rules) t.rules) t'
      (reset_session_stats t') h (omega arith)
call-IsCurrent stats_reset t h = omega arith
call-IsCurrent best_reset t h = h
call-IsCurrent session_ended t h = omega arith
call-IsCurrent last_removed t h = h
call-IsCurrent interrupted t h = h
call-IsCurrent (best_loaded b) t h = h
call-IsCurrent (cast_noted when cast_time) t h = either-IsCurrent _ _ _ h h
call-IsCurrent (pet_named name) t h = either-IsCurrent _ _ _ h h
call-IsCurrent (damaged event) t h =
    either-IsCurrent _ _ _ h (take_damage-IsCurrent event t (attribute event t) h)
call-IsCurrent (died victim when) t h =
    ended-IsCurrent (is_empty victim || isspace victim) (t, false) _ h
      (ended-IsCurrent (any (is_active (casefold victim)) t.fights) (_, true) (t, false)
        (update-IsCurrent when (record t { fights = kill (casefold victim) when t.fights }) h) h)
call-IsCurrent (cleared at) t h =
    either-IsCurrent (is_empty_list (stats_at at t).fights) _ _ (stats_at-IsCurrent at t h)
      (stats_at-IsCurrent at t h)
call-IsCurrent (ticked now) t h =
    let fights = refresh now t.rules.trailing_window t.fights in
    let kept = retain now t.rules fights in
    let t' = update_session_stats now (record t { fights = kept }) in
    let k = update-IsCurrent now (record t { fights = kept }) h in
    either-IsCurrent (not (is_empty_list kept) || not (length fights == length kept)) (notify t') t'
      k k

run-IsCurrent : (cs : List Call) (t : FightTracker) → IsCurrent t → IsCurrent (run cs t)
unfolding run
run-IsCurrent [] t h = h
run-IsCurrent (c ∷ cs) t h = run-IsCurrent cs (call c t) (call-IsCurrent c t h)

-- After any calls of a new tracker, the highest hit of the current session is below 32000,
-- however great the hits that the fights hold.
pub run-highest_hit :
    (rules : Rules) (cs : List Call)
    → (run cs (new_tracker rules)).current_session.highest_hit < 32000
unfolding new_tracker
run-highest_hit rules cs = run-IsCurrent cs (new_tracker rules) (omega arith)
