-- ===== src/Damage/Conservation.antt =====
-- Damage is counted once, and in one row (core/dps.py): `FightTracker.add_damage`.
use nparse_plus.Prelude.{
  ℕ, ◌+◌, ◌≡◌, refl, ap, ◌∙◌, inl, inr, Bool, true, false, Option, none, some, List, [], ◌∷◌, arith,
  is_empty_list, Bool-cases, if◌then◌else◌, ◌||◌,
}
use nparse_plus.Text.{Text, casefold, text_eq, is_empty}
use nparse_plus.Damage.Entity.{
  FightEntity, new_entity, unless_dead, adopt, measure, update_best_window, update_trailing,
  update_level, with_hit,
}
use nparse_plus.Damage.Entity
use nparse_plus.Damage.Fight.{
  Fight, Entities, alter, each_entity, fresh_entity, hit_entity, target_total_damage,
}
use nparse_plus.Damage.Fight
use nparse_plus.Damage.Tracker.{
  DamageEvent, FightTracker, notify, is_active, attribute, is_your_pet,
}
use nparse_plus.Damage.Operations.{
  hit_fights, hit_fight, new_fight, spread_level, stamp_pet, take_damage, add_damage,
}
use nparse_plus.Damage.Measured.{update-IsUnmoved}

-- The damage in all fights.
abbrev pub damage_in : List Fight → ℕ
damage_in [] = 0
damage_in (f ∷ fs) = target_total_damage f.entities + damage_in fs

abbrev pub is_counted : Option Text → Bool
is_counted none = false
is_counted (some attacker) = true

-- What an event adds: all of its damage, or nothing.
abbrev pub counted_damage : DamageEvent → FightTracker → ℕ
counted_damage event t =
    if is_empty event.attacker_name || text_eq event.attacker_name event.target_name
    then 0
    else if is_counted (attribute event t)
    then event.damage_done
    else 0

measure-total : (now : ℕ) (e : FightEntity) → (measure now e).total_damage ≡ e.total_damage
unfolding measure
measure-total now e = (update-IsUnmoved (record e { trailing_damage = _ })).total_damage

unless_dead-total :
    (o : Option ℕ) (e e' : FightEntity)
    → e'.total_damage ≡ e.total_damage
    → (unless_dead o e e').total_damage ≡ e.total_damage
unless_dead-total none e e' h = h
unless_dead-total (some t) e e' h = refl

hit-total :
    (timestamp damage : ℕ) (e : FightEntity)
    → (Entity.add_damage timestamp damage e).total_damage ≡ e.total_damage + damage
unfolding Entity.add_damage update_trailing
hit-total timestamp damage e =
    unless_dead-total e.death_time (with_hit timestamp damage e) _
      (elim (Bool-cases (is_empty_list (with_hit timestamp damage e).hits)) [
        | inl h ↦ rw h refl
        | inr h ↦ rw h (measure-total timestamp (with_hit timestamp damage e))
      ])

update_level-total :
    (guess : Option ℕ) (e : FightEntity) → (update_level guess e).total_damage ≡ e.total_damage
unfolding update_level
update_level-total none e = refl
update_level-total (some g) e = refl

stamp_pet-total : (b : Bool) (e : FightEntity) → (stamp_pet b e).total_damage ≡ e.total_damage
unfolding stamp_pet
stamp_pet-total b e = ground arith

found_total : Option FightEntity → ℕ
found_total none = 0
found_total (some e) = e.total_damage

hit_entity-total :
    (attacker target : Text) (timestamp damage window : ℕ) (guess : Option ℕ)
    (found : Option FightEntity)
    → (hit_entity attacker target timestamp damage guess window found).total_damage
      ≡ found_total found + damage
unfolding hit_entity fresh_entity found_total
hit_entity-total attacker target timestamp damage window guess none =
    update_level-total guess _
    ∙ hit-total timestamp damage (new_entity attacker target timestamp window)
hit_entity-total attacker target timestamp damage window guess (some e) =
    update_level-total guess _
    ∙ hit-total timestamp damage
        (unless_dead e.death_time e (record e { trailing_window = window }))
    ∙ ap (λ n. n + damage)
        (unless_dead-total e.death_time e (record e { trailing_window = window }) refl)

alter-total :
    (key : Text) (change : Option FightEntity → FightEntity) (damage : ℕ)
    → ((found : Option FightEntity) → (change found).total_damage ≡ found_total found + damage)
    → (es : Entities) → target_total_damage (alter key change es) ≡ target_total_damage es + damage
unfolding alter target_total_damage found_total
alter-total key change damage k [] = omega (arith, k none)
alter-total key change damage k ((name, e) ∷ es) = elim (Bool-cases (text_eq name key)) [
  | inl p ↦ rw p (omega (arith, k (some e)))
  | inr p ↦ rw p (omega (arith, alter-total key change damage k es))
]

hit_fight-total :
    (attacker : Text) (event : DamageEvent) (t : FightTracker) (f : Fight)
    → target_total_damage (hit_fight attacker event t f).entities
      ≡ target_total_damage f.entities + event.damage_done
unfolding hit_fight Fight.add_damage
hit_fight-total attacker event t f =
    alter-total (casefold attacker) (λ found. stamp_pet is_pet (taken found)) event.damage_done
      (λ found.
        stamp_pet-total is_pet (taken found)
        ∙ hit_entity-total attacker f.target_name event.timestamp event.damage_done
            t.rules.trailing_window event.level_guess found)
      f.entities
  where
    is_pet : Bool
    is_pet = is_your_pet t.pet_name attacker f.target_name

    taken : Option FightEntity → FightEntity
    taken =
        hit_entity attacker f.target_name event.timestamp event.damage_done event.level_guess
          t.rules.trailing_window

hit_fights-total :
    (wanted : Text) (attacker : Text) (event : DamageEvent) (t : FightTracker) (fs : List Fight)
    → damage_in (hit_fights wanted (new_fight event) (hit_fight attacker event t) fs)
      ≡ damage_in fs + event.damage_done
unfolding hit_fights target_total_damage
hit_fights-total wanted attacker event t [] =
    omega (arith, hit_fight-total attacker event t (new_fight event))
hit_fights-total wanted attacker event t (f ∷ fs) = elim (Bool-cases (is_active wanted f)) [
  | inl p ↦ rw p (omega (arith, hit_fight-total attacker event t f))
  | inr p ↦ rw p (omega (arith, hit_fights-total wanted attacker event t fs))
]

levels_total :
    (guess : Option ℕ) (es : Entities)
    → target_total_damage (each_entity (update_level guess) es) ≡ target_total_damage es
unfolding each_entity target_total_damage
levels_total guess [] = refl
levels_total guess ((k, e) ∷ es) = omega (arith, update_level-total guess e, levels_total guess es)

spread_level-total :
    (guess : Option ℕ) (folded : Text) (fs : List Fight)
    → damage_in (spread_level guess folded fs) ≡ damage_in fs
unfolding spread_level
spread_level-total guess folded [] = refl
spread_level-total guess folded (f ∷ fs) =
    elim (Bool-cases (text_eq (casefold f.target_name) folded)) [
      | inl p ↦
          rw p (omega (arith, levels_total guess f.entities, spread_level-total guess folded fs))
      | inr p ↦ rw p (omega (arith, spread_level-total guess folded fs))
    ]

take_damage-total :
    (event : DamageEvent) (t : FightTracker) (claim : Option Text)
    → damage_in (take_damage event t claim).fights
      ≡ damage_in t.fights + (if is_counted claim then event.damage_done else 0)
unfolding take_damage notify
take_damage-total event t none = omega arith
take_damage-total event t (some attacker) =
    spread_level-total event.level_guess (casefold attacker) _
    ∙ hit_fights-total (casefold event.target_name) attacker event t t.fights

-- A damage event adds all of its damage to the fights, once, or nothing: nothing where its attacker has
-- no name or the name of the target, or where the mode claims it for nobody.
pub add_damage-total :
    (event : DamageEvent) (t : FightTracker)
    → damage_in (add_damage event t).fights ≡ damage_in t.fights + counted_damage event t
unfolding add_damage
add_damage-total event t =
    elim (Bool-cases
      (is_empty event.attacker_name || text_eq event.attacker_name event.target_name)) [
        | inl p ↦ rw p (omega arith)
        | inr p ↦ rw p (take_damage-total event t (attribute event t))
      ]
