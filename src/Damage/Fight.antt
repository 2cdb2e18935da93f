-- ===== src/Damage/Fight.antt =====
-- The fight against one target (core/dps.py): `Fight`, with an entity for each attacker.
use nparse_plus.Prelude.{
  ℕ, ◌+◌, Bool, true, false, Option, none, some, List, [], ◌∷◌, if◌then◌else◌, leb, ltb, ◌==◌, max,
}
use nparse_plus.Text.{Text, casefold, text_eq}
use nparse_plus.Damage.Entity.{FightEntity, new_entity, unless_dead, last_damage_time, update_level}
use nparse_plus.Damage.Entity

-- A dict from the folded name of an attacker, in the order of insertion.
abbrev pub Entities : Type 0
Entities = List (Text × FightEntity)

pub record Fight : Type 0 where
  pub target_name : Text
  pub start_time : ℕ
  pub death_time : Option ℕ
  pub entities : Entities

unfoldable pub is_dead : Fight → Bool
is_dead f = elim f.death_time [ none ↦ false | some t ↦ true ]

-- `entities.get(key)`
unfoldable pub lookup : Text → Entities → Option FightEntity
lookup key [] = none
lookup key ((k, e) ∷ es) = if text_eq k key then some e else lookup key es

-- The entry of a key is replaced by what a function makes of it, or added at the end.
unfoldable pub alter : Text → (Option FightEntity → FightEntity) → Entities → Entities
alter key change [] = (key, change none) ∷ []
alter key change ((k, e) ∷ es) =
    if text_eq k key then (k, change (some e)) ∷ es else (k, e) ∷ alter key change es

-- A change of every entity.
unfoldable pub each_entity : (FightEntity → FightEntity) → Entities → Entities
each_entity change [] = []
each_entity change ((k, e) ∷ es) = (k, change e) ∷ each_entity change es

unfoldable pub target_total_damage : Entities → ℕ
target_total_damage [] = 0
target_total_damage ((k, e) ∷ es) = e.total_damage + target_total_damage es

-- The later of two times, where there are any.
abbrev later : Option ℕ → Option ℕ → Option ℕ
later none u = u
later (some t) none = some t
later (some t) (some u) = some (max t u)

unfoldable pub last_time : Entities → Option ℕ
last_time [] = none
last_time ((k, e) ∷ es) = later (last_damage_time e) (last_time es)

-- The entity that takes the hit: a new one, or the attacker's, which follows the configured window
-- while it is alive.
unfoldable pub fresh_entity : Text → Text → ℕ → ℕ → Option FightEntity → FightEntity
fresh_entity attacker target timestamp window none = new_entity attacker target timestamp window
fresh_entity attacker target timestamp window (some e) =
    unless_dead e.death_time e (record e { trailing_window = window })

unfoldable pub hit_entity : Text → Text → ℕ → ℕ → Option ℕ → ℕ → Option FightEntity → FightEntity
unfolding fresh_entity
hit_entity attacker target timestamp damage guess window found =
    update_level guess
      (Entity.add_damage timestamp damage (fresh_entity attacker target timestamp window found))

-- `Fight.add_damage`, with what its caller does to the entity that it returns.
unfoldable pub add_damage :
    (FightEntity → FightEntity) → Text → ℕ → ℕ → Option ℕ → ℕ → Fight → Fight
unfolding alter hit_entity
add_damage stamp attacker timestamp damage guess window f = record f {
  entities =
      alter (casefold attacker)
        (λ found. stamp (hit_entity attacker f.target_name timestamp damage guess window found))
        f.entities;
}

abbrev pub first_death : ℕ → Option ℕ → Option ℕ
first_death when none = some when
first_death when (some t) = some t

unfoldable pub mark_dead : ℕ → Fight → Fight
unfolding each_entity
mark_dead when f = record f {
  death_time = first_death when f.death_time;
  entities = each_entity (λ e. record e { death_time = first_death when e.death_time }) f.entities;
}

-- The last damage, or the start of the fight where that is later or there was none.
abbrev stale_from : ℕ → Option ℕ → ℕ
stale_from start none = start
stale_from start (some last) = if leb last start then start else last

unfoldable pub is_stale : ℕ → ℕ → Fight → Bool
unfolding last_time
is_stale now retention f =
    if retention == 0
    then false
    else ltb (stale_from f.start_time (last_time f.entities) + retention) now
