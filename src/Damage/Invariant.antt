-- ===== src/Damage/Invariant.antt =====
-- The operations on the fights keep the numbers of their rows right (core/dps.py).
use nparse_plus.Prelude.{
  ℕ, ◌≤◌, ◌≡◌, refl, ap, inl, inr, Bool, true, false, Option, none, some, List, [], ◌∷◌, arith, All,
  All-mono, Bool-cases, Option-cases, if◌then◌else◌, ◌||◌,
}
use nparse_plus.Text.{Text, casefold, text_eq, is_empty}
use nparse_plus.Damage.Entity.{update_level}
use nparse_plus.Damage.Fight.{Fight, Entities, is_dead, each_entity, mark_dead, first_death}
use nparse_plus.Damage.Tracker.{
  DamageEvent, FightTracker, notify, is_active, attribute, is_your_pet,
}
use nparse_plus.Damage.Operations.{
  hit_fights, hit_fight, new_fight, spread_level, take_damage, add_damage, kill, refresh,
}
use nparse_plus.Damage.Labels.{relabel}
use nparse_plus.Damage.Kept.{
  IsEntry, IsFight, each_entity-IsEntry, update_level-Keeps, update_trailing-Keeps,
  fight_hit-IsFight, All-IsEntry-mono,
}

abbrev pub AreKept : ℕ → List Fight → Type 0
AreKept now fs = All (IsFight now) fs

IsFight-mono : (before now : ℕ) (f : Fight) → before ≤ now → IsFight before f → IsFight now f
IsFight-mono before now f le = All-IsEntry-mono before now f.death_time f.entities le

alive_of_active : (wanted : Text) (f : Fight) → is_active wanted f ≡ true → f.death_time ≡ none
unfolding is_dead
alive_of_active wanted f h = elim (Option-cases f.death_time) [
  | inl e ↦ e
  | inr (t, e) ↦ absurd (ground (arith, e))
]

hit_fights-AreKept :
    (before now : ℕ) (wanted : Text) (new : Fight) (hit : Fight → Fight)
    → before ≤ now
    → new.death_time ≡ none
    → IsFight before new
    → ((f : Fight) → f.death_time ≡ none → IsFight before f → IsFight now (hit f))
    → (fs : List Fight) → AreKept before fs
    → AreKept now (hit_fights wanted new hit fs)
unfolding hit_fights
hit_fights-AreKept before now wanted new hit le alive n k [] a = (k new alive n, tt)
hit_fights-AreKept before now wanted new hit le alive n k (f ∷ fs) a =
    elim (Bool-cases (is_active wanted f)) [
      | inl p ↦ rw p (
        k f (alive_of_active wanted f p) a.0,
        All-mono (IsFight before) (IsFight now) (λ g m. IsFight-mono before now g le m) fs a.1,
      )
      | inr p ↦ rw p (
        IsFight-mono before now f le a.0,
        hit_fights-AreKept before now wanted new hit le alive n k fs a.1,
      )
    ]

levelled_IsFight :
    (now : ℕ) (guess : Option ℕ) (b : Bool) (f : Fight)
    → IsFight now f
    → IsFight now
        (if b then record f { entities = each_entity (update_level guess) f.entities } else f)
levelled_IsFight now guess true f a =
    each_entity-IsEntry now f.death_time (update_level guess) (update_level-Keeps now guess)
      f.entities a
levelled_IsFight now guess false f a = a

spread_level-AreKept :
    (now : ℕ) (guess : Option ℕ) (folded : Text) (fs : List Fight)
    → AreKept now fs
    → AreKept now (spread_level guess folded fs)
unfolding spread_level
spread_level-AreKept now guess folded [] a = tt
spread_level-AreKept now guess folded (f ∷ fs) a = (
  levelled_IsFight now guess (text_eq (casefold f.target_name) folded) f a.0,
  spread_level-AreKept now guess folded fs a.1,
)

take_damage-AreKept :
    (before : ℕ) (event : DamageEvent) (t : FightTracker) (claim : Option Text)
    → before ≤ event.timestamp
    → AreKept before t.fights
    → AreKept event.timestamp (take_damage event t claim).fights
unfolding take_damage notify hit_fight
take_damage-AreKept before event t none le a =
    All-mono (IsFight before) (IsFight event.timestamp)
      (λ g m. IsFight-mono before event.timestamp g le m) t.fights a
take_damage-AreKept before event t (some attacker) le a =
    spread_level-AreKept event.timestamp event.level_guess (casefold attacker)
      (hit_fights (casefold event.target_name) (new_fight event) (hit_fight attacker event t)
        t.fights)
      (hit_fights-AreKept before event.timestamp (casefold event.target_name) (new_fight event)
        (hit_fight attacker event t) le refl tt
        (λ f alive m.
          fight_hit-IsFight before event attacker t.rules.trailing_window
            (is_your_pet t.pet_name attacker f.target_name) f le alive m)
        t.fights a)

pub chosen :
    (now : ℕ) (b : Bool) (t u : FightTracker)
    → AreKept now t.fights
    → AreKept now u.fights
    → AreKept now (if b then t else u).fights
chosen now true t u a c = a
chosen now false t u a c = c

pub add_damage-AreKept :
    (before : ℕ) (event : DamageEvent) (t : FightTracker)
    → before ≤ event.timestamp
    → AreKept before t.fights
    → AreKept event.timestamp (add_damage event t).fights
unfolding add_damage
add_damage-AreKept before event t le a =
    chosen event.timestamp
      (is_empty event.attacker_name || text_eq event.attacker_name event.target_name) t
      (take_damage event t (attribute event t))
      (All-mono (IsFight before) (IsFight event.timestamp)
        (λ g m. IsFight-mono before event.timestamp g le m) t.fights a)
      (take_damage-AreKept before event t (attribute event t) le a)

dying_IsEntry :
    (now when : ℕ) (death : Option ℕ) (es : Entities)
    → All (IsEntry now death) es
    → All
        (IsEntry now (first_death when death))
        (each_entity (λ e. record e { death_time = first_death when e.death_time }) es)
unfolding each_entity
dying_IsEntry now when death [] a = tt
dying_IsEntry now when death ((k, e) ∷ es) a = (
  (
    relabel now e.level (first_death when e.death_time) e.was_your_pet e a.0.0,
    ap (first_death when) a.0.1,
  ),
  dying_IsEntry now when death es a.1,
)

killed_IsFight :
    (now when : ℕ) (b : Bool) (f : Fight)
    → IsFight now f
    → IsFight now (if b then mark_dead when f else f)
unfolding mark_dead
killed_IsFight now when true f a = dying_IsEntry now when f.death_time f.entities a
killed_IsFight now when false f a = a

pub kill-AreKept :
    (now when : ℕ) (wanted : Text) (fs : List Fight)
    → AreKept now fs
    → AreKept now (kill wanted when fs)
unfolding kill
kill-AreKept now when wanted [] a = tt
kill-AreKept now when wanted (f ∷ fs) a =
    (killed_IsFight now when (is_active wanted f) f a.0, kill-AreKept now when wanted fs a.1)

pub refresh-AreKept :
    (before now window : ℕ) (fs : List Fight)
    → AreKept before fs
    → AreKept before (refresh now window fs)
unfolding refresh
refresh-AreKept before now window [] a = tt
refresh-AreKept before now window (f ∷ fs) a = (
  each_entity-IsEntry before f.death_time _ (update_trailing-Keeps before now (some window))
      f.entities a.0,
  refresh-AreKept before now window fs a.1,
)
