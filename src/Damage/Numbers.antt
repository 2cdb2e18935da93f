-- ===== src/Damage/Numbers.antt =====
-- The numbers of every row are those of its hits, whatever a tracker was told (core/dps.py).
use nparse_plus.Prelude.{
  ℕ, ◌≡◌, refl, sym, subst, Bool, true, false, Option, none, some, List, [], ◌∷◌, All, All-mono,
  All-keep_of_All, is_empty_list, if◌then◌else◌, any, ◌||◌,
}
use nparse_plus.Text.{Text, casefold, is_empty, isspace}
use nparse_plus.Damage.Entity.{FightEntity}
use nparse_plus.Damage.Fight.{Fight}
use nparse_plus.Damage.Tracker.{
  FightTracker, Rules, notify, is_active, new_tracker, configure, reset_session_stats, reset_best,
  load_best, note_your_cast, cancel_your_cast, set_pet_name, same_measurement_rules, set_rules,
}
use nparse_plus.Damage.Operations.{
  retain, add_damage, end_fight, clear, refresh, tick, update_session_stats, stats_at, end_session,
  remove_last_session,
}
use nparse_plus.Damage.Runs.{
  Call, configured, stats_reset, best_reset, session_ended, last_removed, interrupted, best_loaded,
  cast_noted, pet_named, damaged, died, cleared, ticked, call, run, InOrder,
}
use nparse_plus.Damage.Windows.{total, best_window}
use nparse_plus.Damage.Carried.{highest_of}
use nparse_plus.Damage.Measured.{IsMeasured-best}
use nparse_plus.Damage.Kept.{IsEntry, IsFight}
use nparse_plus.Damage.Invariant.{
  AreKept, chosen, add_damage-AreKept, kill-AreKept, refresh-AreKept,
}

either_kept :
    (now : ℕ) (b : Bool) (p q : FightTracker × Bool)
    → AreKept now p.0.fights
    → AreKept now q.0.fights
    → AreKept now (if b then p else q).0.fights
either_kept now true p q a c = a
either_kept now false p q a c = c

end_fight-AreKept :
    (now when : ℕ) (victim : Text) (t : FightTracker)
    → AreKept now t.fights
    → AreKept now (end_fight victim when t).0.fights
unfolding end_fight update_session_stats notify
end_fight-AreKept now when victim t a =
    either_kept now (is_empty victim || isspace victim) (t, false) _ a
      (either_kept now (any (is_active (casefold victim)) t.fights) (_, true) (t, false)
        (kill-AreKept now when (casefold victim) t.fights a) a)

stats_at_fights : (at : Option ℕ) (t : FightTracker) → (stats_at at t).fights ≡ t.fights
unfolding update_session_stats
stats_at_fights none t = refl
stats_at_fights (some when) t = refl

clear-AreKept :
    (now : ℕ) (at : Option ℕ) (t : FightTracker)
    → AreKept now t.fights
    → AreKept now (clear at t).fights
unfolding clear cancel_your_cast notify
clear-AreKept now at t a =
    chosen now (is_empty_list (stats_at at t).fights) _ _
      (subst (AreKept now) (sym (stats_at_fights at t)) a) tt

tick-AreKept :
    (before now : ℕ) (t : FightTracker)
    → AreKept before t.fights
    → AreKept before (tick now t).fights
unfolding tick retain update_session_stats notify
tick-AreKept before now t a =
    let k =
      All-keep_of_All (IsFight before) _ (refresh now t.rules.trailing_window t.fights)
        (refresh-AreKept before now t.rules.trailing_window t.fights a) in
    chosen before _ _ _ k k

-- The numbers of an entity are those of its hits.
abbrev pub HasRightNumbers : FightEntity → Type 0
HasRightNumbers e =
    (e.total_damage ≡ total e.hits)
    × (e.highest_hit ≡ highest_of e.hits)
    × (e.best_window_damage ≡ best_window e.trailing_window e.hits)

run-AreKept :
    (before : ℕ) (cs : List Call) (t : FightTracker)
    → InOrder before cs
    → AreKept before t.fights
    → (now : ℕ) × AreKept now (run cs t).fights
unfolding run call configure set_rules same_measurement_rules reset_session_stats reset_best
    load_best note_your_cast cancel_your_cast set_pet_name end_session remove_last_session notify
run-AreKept before [] t o a = (before, a)
run-AreKept before (configured c ∷ cs) t o a = run-AreKept before cs _ o (chosen before _ _ _ a a)
run-AreKept before (stats_reset ∷ cs) t o a = run-AreKept before cs _ o a
run-AreKept before (best_reset ∷ cs) t o a = run-AreKept before cs _ o a
run-AreKept before (session_ended ∷ cs) t o a = run-AreKept before cs _ o a
run-AreKept before (last_removed ∷ cs) t o a = run-AreKept before cs _ o a
run-AreKept before (interrupted ∷ cs) t o a = run-AreKept before cs _ o a
run-AreKept before (best_loaded b ∷ cs) t o a = run-AreKept before cs _ o a
run-AreKept before (cast_noted when cast_time ∷ cs) t o a =
    run-AreKept before cs _ o (chosen before _ _ _ a a)
run-AreKept before (pet_named name ∷ cs) t o a = run-AreKept before cs _ o (chosen before _ _ _ a a)
run-AreKept before (damaged event ∷ cs) t o a =
    run-AreKept event.timestamp cs (add_damage event t) o.1
      (add_damage-AreKept before event t o.0 a)
run-AreKept before (died victim when ∷ cs) t o a =
    run-AreKept before cs (end_fight victim when t).0 o (end_fight-AreKept before when victim t a)
run-AreKept before (cleared at ∷ cs) t o a =
    run-AreKept before cs (clear at t) o (clear-AreKept before at t a)
run-AreKept before (ticked now ∷ cs) t o a =
    run-AreKept before cs (tick now t) o (tick-AreKept before now t a)

right_numbers :
    (now : ℕ) (f : Fight)
    → IsFight now f
    → All (λ (entry : Text × FightEntity). HasRightNumbers entry.1) f.entities
right_numbers now f =
    All-mono (IsEntry now f.death_time) (λ (entry : Text × FightEntity). HasRightNumbers entry.1)
      (λ entry m. (m.0.totalled, m.0.highest, IsMeasured-best now entry.1 m.0)) f.entities

-- After any calls of a new tracker, in which the hits come in the order of time, the total of every
-- row of every fight is the sum of the hits that it took, its highest hit is the largest of them, and
-- its best window, which is carried from hit to hit, is the most damage that hits less than a window
-- older than one of them sum up to, over the window the row was last measured with.
pub run-numbers :
    (rules : Rules) (cs : List Call)
    → InOrder 0 cs
    → All
        (λ (f : Fight). All (λ (entry : Text × FightEntity). HasRightNumbers entry.1) f.entities)
        (run cs (new_tracker rules)).fights
unfolding new_tracker
run-numbers rules cs o =
    let (now, a) = run-AreKept 0 cs (new_tracker rules) o tt in
    All-mono (IsFight now)
      (λ (f : Fight). All (λ (entry : Text × FightEntity). HasRightNumbers entry.1) f.entities)
      (right_numbers now) _ a
