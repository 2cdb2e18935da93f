-- ===== src/Damage/Operations.antt =====
-- The operations of the tracker that change its fights or read them (core/dps.py).
use nparse_plus.Prelude.{
  ℕ, ◌+◌, ◌*◌, Bool, true, false, ◌&&◌, ◌||◌, not, Option, none, some, List, [], ◌∷◌, ◌++◌, any,
  keep, length, if◌then◌else◌, ltb, ◌==◌, is_empty_list,
}
use nparse_plus.Text.{Text, codes, casefold, text_eq, is_empty, isspace}
use nparse_plus.Damage.Entity.{
  FightEntity, update_trailing, update_level, total_seconds, trailing_dps,
}
use nparse_plus.Damage.Fight.{Fight, Entities, is_dead, lookup, each_entity, mark_dead, is_stale}
use nparse_plus.Damage.Fight
use nparse_plus.Damage.Tracker.{
  PlayerDamage, no_damage, observe, DamageEvent, FightTracker, Rules, notify, is_active, attribute,
  cancel_your_cast, is_your_pet,
}

-- The numbers of `_update_session_stats` for the entities that are yours in a fight.
unfoldable pub sum_dps : List FightEntity → ℕ
sum_dps [] = 0
sum_dps (e ∷ es) = trailing_dps e + sum_dps es

unfoldable pub sum_damage : List FightEntity → ℕ
sum_damage [] = 0
sum_damage (e ∷ es) = e.total_damage + sum_damage es

-- `total_seconds(now) > session_min_fight_s`
unfoldable pub is_long : ℕ → ℕ → FightEntity → Bool
unfolding total_seconds
is_long now least e =
    let seconds = total_seconds now e in
    not seconds.negative && ltb least (seconds.magnitude * 1000000)

abbrev pub as_list : Option FightEntity → List FightEntity
as_list none = []
as_list (some e) = e ∷ []

-- The entities, other than yours, that were your pet.
unfoldable pub pets : Entities → List FightEntity
pets [] = []
pets ((k, e) ∷ es) =
    let rest = pets es in if not (text_eq k (codes "you")) && e.was_your_pet then e ∷ rest else rest

abbrev pub hit_of : Option FightEntity → ℕ
hit_of none = 0
hit_of (some e) = e.highest_hit

-- The reading of one fight, where it has one: the damage per second, the damage, the highest hit.
unfoldable pub reading : ℕ → Rules → Fight → Option (ℕ × ℕ × ℕ)
unfolding lookup pets is_long sum_dps sum_damage
reading now rules f =
    let yours = lookup (codes "you") f.entities in
    let mine = as_list yours ++ (if rules.count_pet_damage then pets f.entities else []) in
    if any (is_long now rules.session_min_fight) mine
    then some (sum_dps mine, sum_damage mine, hit_of yours)
    else none

abbrev pub observed : Option (ℕ × ℕ × ℕ) → PlayerDamage → PlayerDamage
observed none p = p
observed (some (dps, total, highest)) p = observe dps total highest p

-- The loop over the fights, for one of the two aggregates.
unfoldable pub observe_all : ℕ → Rules → List Fight → PlayerDamage → PlayerDamage
unfolding reading
observe_all now rules [] p = p
observe_all now rules (f ∷ fs) p = observe_all now rules fs (observed (reading now rules f) p)

unfoldable pub update_session_stats : ℕ → FightTracker → FightTracker
unfolding observe_all
update_session_stats now t = record t {
  best = observe_all now t.rules t.fights t.best;
  current_session = observe_all now t.rules t.fights t.current_session;
}

-- The first active fight against the target takes the hit, or a new one at the end.
unfoldable pub hit_fights : Text → Fight → (Fight → Fight) → List Fight → List Fight
hit_fights wanted new hit [] = hit new ∷ []
hit_fights wanted new hit (f ∷ fs) =
    if is_active wanted f then hit f ∷ fs else f ∷ hit_fights wanted new hit fs

-- A guess of a level raises it in every row where the attacker is the target.
unfoldable pub spread_level : Option ℕ → Text → List Fight → List Fight
unfolding each_entity update_level
spread_level guess folded [] = []
spread_level guess folded (f ∷ fs) =
    let f' =
      if text_eq (casefold f.target_name) folded
      then record f { entities = each_entity (update_level guess) f.entities }
      else f in
    f' ∷ spread_level guess folded fs

-- The ownership is noted as the damage lands, and stays.
unfoldable pub stamp_pet : Bool → FightEntity → FightEntity
stamp_pet is_pet e = if not e.was_your_pet && is_pet then record e { was_your_pet = true } else e

-- `Fight(target_name=…, start_time=…)`
abbrev pub new_fight : DamageEvent → Fight
new_fight event = record {
  target_name = event.target_name;
  start_time = event.timestamp;
  death_time = none;
  entities = [];
}

-- The hit in its fight.
unfoldable pub hit_fight : Text → DamageEvent → FightTracker → Fight → Fight
unfolding stamp_pet is_your_pet Fight.add_damage
hit_fight attacker event t f =
    Fight.add_damage (stamp_pet (is_your_pet t.pet_name attacker f.target_name)) attacker
      event.timestamp event.damage_done event.level_guess t.rules.trailing_window f

unfoldable pub take_damage : DamageEvent → FightTracker → Option Text → FightTracker
unfolding hit_fights spread_level hit_fight notify
take_damage event t none = t
take_damage event t (some attacker) = notify (record t {
  fights = spread_level event.level_guess (casefold attacker) (
      hit_fights (casefold event.target_name) (new_fight event) (hit_fight attacker event t)
        t.fights);
})

unfoldable pub add_damage : DamageEvent → FightTracker → FightTracker
unfolding attribute take_damage
add_damage event t =
    let taken = take_damage event t (attribute event t) in
    if is_empty event.attacker_name || text_eq event.attacker_name event.target_name
    then t
    else taken

unfoldable pub kill : Text → ℕ → List Fight → List Fight
unfolding mark_dead
kill wanted when [] = []
kill wanted when (f ∷ fs) =
    (if is_active wanted f then mark_dead when f else f) ∷ kill wanted when fs

unfoldable pub end_fight : Text → ℕ → FightTracker → FightTracker × Bool
unfolding kill update_session_stats notify
end_fight victim when t =
    let wanted = casefold victim in
    if is_empty victim || isspace victim
    then (t, false)
    else if any (is_active wanted) t.fights
    then (
      notify (update_session_stats when (record t { fights = kill wanted when t.fights })),
      true,
    )
    else (t, false)

abbrev pub stats_at : Option ℕ → FightTracker → FightTracker
stats_at none t = t
stats_at (some when) t = update_session_stats when t

unfoldable pub clear : Option ℕ → FightTracker → FightTracker
unfolding update_session_stats cancel_your_cast notify
clear at t =
    let t' = cancel_your_cast (stats_at at t) in
    if is_empty_list t'.fights then t' else notify (record t' { fights = [] })

unfoldable pub refresh : ℕ → ℕ → List Fight → List Fight
unfolding each_entity update_trailing
refresh now window [] = []
refresh now window (f ∷ fs) =
    record f { entities = each_entity (update_trailing now (some window)) f.entities }
    ∷ refresh now window fs

-- Whole fights are retired, never an attacker of one that goes on.
unfoldable pub retain : ℕ → Rules → List Fight → List Fight
unfolding is_stale
retain now rules fights =
    keep
      (λ (f : Fight). not (is_empty_list f.entities) && not (is_stale now rules.fight_retention f))
      fights

unfoldable pub tick : ℕ → FightTracker → FightTracker
unfolding refresh retain update_session_stats notify
tick now t =
    let fights = refresh now t.rules.trailing_window t.fights in
    let kept = retain now t.rules fights in
    let t' = update_session_stats now (record t { fights = kept }) in
    if not (is_empty_list kept) || not (length fights == length kept) then notify t' else t'

-- `SessionSummary`
pub record SessionSummary : Type 0 where
  pub best : PlayerDamage
  pub current_session : PlayerDamage
  pub last_session : Option PlayerDamage

unfoldable pub session_summary : FightTracker → SessionSummary
session_summary t = record {
  best = t.best;
  current_session = t.current_session;
  last_session = t.last_session;
}

unfoldable pub end_session : FightTracker → FightTracker
unfolding notify
end_session t =
    notify (record t { last_session = some t.current_session; current_session = no_damage })

unfoldable pub remove_last_session : FightTracker → FightTracker
unfolding notify
remove_last_session t = notify (record t { last_session = none })
