-- ===== src/Damage/Kept.antt =====
-- Every operation of the tracker keeps the numbers of its entities right (core/dps.py).
use nparse_plus.Prelude.{
  ℕ, ◌≤◌, ◌≡◌, refl, ap, subst, ◌∙◌, inl, inr, Bool, true, Option, none, some, [], ◌∷◌, All,
  All-mono, Bool-cases, not, ◌&&◌,
}
use nparse_plus.Text.{Text, casefold, text_eq}
use nparse_plus.Damage.Entity.{FightEntity, new_entity, unless_dead, update_trailing, update_level}
use nparse_plus.Damage.Entity
use nparse_plus.Damage.Fight.{
  Fight, Entities, is_dead, alter, each_entity, fresh_entity, hit_entity, mark_dead, first_death,
  is_stale,
}
use nparse_plus.Damage.Fight
use nparse_plus.Damage.Tracker.{DamageEvent}
use nparse_plus.Damage.Operations.{stamp_pet}
use nparse_plus.Damage.Measured.{
  IsMeasured, IsReady, add_damage-IsMeasured, update_trailing-IsMeasured,
}
use nparse_plus.Damage.Labels.{
  update_trailing-death_time, add_damage-death_time, relabel, IsMeasured-mono, IsMeasured-IsReady,
  new_entity-IsReady,
}

-- An entity of a fight: measured, and dead if the fight is.
abbrev pub IsEntry : ℕ → Option ℕ → Text × FightEntity → Type 0
IsEntry now death entry = IsMeasured now entry.1 × (entry.1.death_time ≡ death)

abbrev pub IsFight : ℕ → Fight → Type 0
IsFight now f = All (IsEntry now f.death_time) f.entities

-- A change that keeps an entity measured.
abbrev pub Keeps : ℕ → (FightEntity → FightEntity) → Type 0
Keeps now change =
    (e : FightEntity)
    → IsMeasured now e
    → IsMeasured now (change e) × ((change e).death_time ≡ e.death_time)

abbrev IsFound : ℕ → Option FightEntity → Type 0
IsFound now none = Unit
IsFound now (some e) = IsMeasured now e × (e.death_time ≡ none)

pub each_entity-IsEntry :
    (now : ℕ) (death : Option ℕ) (change : FightEntity → FightEntity)
    → Keeps now change
    → (es : Entities) → All (IsEntry now death) es
    → All (IsEntry now death) (each_entity change es)
unfolding each_entity
each_entity-IsEntry now death change k [] a = tt
each_entity-IsEntry now death change k ((key, e) ∷ es) a =
    (((k e a.0.0).0, (k e a.0.0).1 ∙ a.0.1), each_entity-IsEntry now death change k es a.1)

pub update_level-Keeps : (now : ℕ) (guess : Option ℕ) → Keeps now (update_level guess)
unfolding update_level
update_level-Keeps now none e m = (m, refl)
update_level-Keeps now (some guess) e m = (relabel now _ e.death_time e.was_your_pet e m, refl)

pub update_trailing-Keeps :
    (before now : ℕ) (window : Option ℕ) → Keeps before (update_trailing now window)
update_trailing-Keeps before now window e m =
    (update_trailing-IsMeasured before now window e m, update_trailing-death_time now window e)

pub stamp_pet-Keeps : (now : ℕ) (is_pet : Bool) → Keeps now (stamp_pet is_pet)
unfolding stamp_pet
stamp_pet-Keeps now is_pet e m = elim (Bool-cases (not e.was_your_pet && is_pet)) [
  | inl p ↦ simp p (relabel now e.level e.death_time true e m, refl)
  | inr p ↦ simp p (m, refl)
]

-- The entity that takes a hit.
hit_IsEntry :
    (now timestamp damage : ℕ) (guess : Option ℕ) (e : FightEntity)
    → now ≤ timestamp
    → e.death_time ≡ none
    → IsReady now e
    → IsMeasured timestamp (update_level guess (Entity.add_damage timestamp damage e))
      × ((update_level guess (Entity.add_damage timestamp damage e)).death_time ≡ none)
hit_IsEntry now timestamp damage guess e le alive r =
    let (m, d) =
      update_level-Keeps timestamp guess (Entity.add_damage timestamp damage e)
        (add_damage-IsMeasured now timestamp damage e le alive r) in
    (m, d ∙ add_damage-death_time timestamp damage e ∙ alive)

hit_entity-IsEntry :
    (now timestamp damage window : ℕ) (attacker target : Text) (guess : Option ℕ)
    (found : Option FightEntity)
    → now ≤ timestamp
    → IsFound now found
    → IsMeasured timestamp (hit_entity attacker target timestamp damage guess window found)
      × ((hit_entity attacker target timestamp damage guess window found).death_time ≡ none)
unfolding hit_entity fresh_entity
hit_entity-IsEntry now timestamp damage window attacker target guess none le a =
    hit_IsEntry now timestamp damage guess (new_entity attacker target timestamp window) le refl
      (new_entity-IsReady now attacker target timestamp window)
hit_entity-IsEntry now timestamp damage window attacker target guess (some e) le a =
    let live : unless_dead e.death_time e (record e { trailing_window = window })
        ≡ record e { trailing_window = window } =
      ap (λ o. unless_dead o e (record e { trailing_window = window })) a.1 in
    rw live (
      hit_IsEntry now timestamp damage guess (record e { trailing_window = window }) le a.1
        (IsMeasured-IsReady now window e a.0))

pub All-IsEntry-mono :
    (before now : ℕ) (death : Option ℕ) (es : Entities)
    → before ≤ now
    → All (IsEntry before death) es
    → All (IsEntry now death) es
All-IsEntry-mono before now death es le =
    All-mono (IsEntry before death) (IsEntry now death)
      (λ entry m. (IsMeasured-mono before now entry.1 le m.0, m.1)) es

alter-IsEntry :
    (before now : ℕ) (key : Text) (change : Option FightEntity → FightEntity)
    → before ≤ now
    → ((found : Option FightEntity)
        → IsFound before found
        → IsMeasured now (change found) × ((change found).death_time ≡ none))
    → (es : Entities) → All (IsEntry before none) es
    → All (IsEntry now none) (alter key change es)
unfolding alter
alter-IsEntry before now key change le k [] a = (k none tt, tt)
alter-IsEntry before now key change le k ((name, e) ∷ es) a = elim (Bool-cases (text_eq name key)) [
  | inl p ↦ rw p (k (some e) a.0, All-IsEntry-mono before now none es le a.1)
  | inr p ↦ rw p (
    (IsMeasured-mono before now e le a.0.0, a.0.1),
    alter-IsEntry before now key change le k es a.1,
  )
]

pub fight_hit-IsFight :
    (before : ℕ) (event : DamageEvent) (attacker : Text) (window : ℕ) (is_pet : Bool) (f : Fight)
    → before ≤ event.timestamp
    → f.death_time ≡ none
    → IsFight before f
    → IsFight event.timestamp (
        Fight.add_damage
          (stamp_pet is_pet)
          attacker
          event.timestamp
          event.damage_done
          event.level_guess
          window
          f)
unfolding Fight.add_damage
fight_hit-IsFight before event attacker window is_pet f le alive a = rw alive (
    alter-IsEntry before event.timestamp (casefold attacker) _ le
      (λ found m.
        let (n, d) =
          hit_entity-IsEntry before event.timestamp event.damage_done window attacker f.target_name
            event.level_guess found le m in
        let (n', d') = stamp_pet-Keeps event.timestamp is_pet _ n in (n', d' ∙ d))
      f.entities (subst (λ o. All (IsEntry before o) f.entities) alive a))
