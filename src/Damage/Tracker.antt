-- ===== src/Damage/Tracker.antt =====
-- The life of the fights (core/dps.py): `PlayerDamage`, `FightTracker` and the verbs of
-- core/damagetypes.py.
--
-- The callbacks of `on_change` belong to the windows; the tracker counts how often it calls them.
use nparse_plus.Prelude.{
  ℕ, ◌+◌, Bool, true, false, ◌&&◌, not, Option, none, some, List, [], ◌∷◌, map, if◌then◌else◌, leb,
  ltb, ◌==◌, max,
}
use nparse_plus.Text.{Text, codes, casefold, text_eq, is_empty, is_in}
use nparse_plus.Damage.Fight.{Fight, is_dead}

-- `MELEE_DAMAGE_TYPES`
abbrev pub melee_damage_types : List Text
melee_damage_types = map codes (
    "hit" ∷ "hits" ∷ "slash" ∷ "slashes" ∷ "pierce" ∷ "pierces" ∷ "crush" ∷ "crushes" ∷ "claw"
    ∷ "claws" ∷ "bite" ∷ "bites" ∷ "sting" ∷ "stings" ∷ "maul" ∷ "mauls" ∷ "gore" ∷ "gores"
    ∷ "punch" ∷ "punches" ∷ "kick" ∷ "kicks" ∷ "backstab" ∷ "backstabs" ∷ "bash" ∷ "bashes"
    ∷ "slice" ∷ "slices" ∷ "strike" ∷ "strikes" ∷ [])

unfoldable pub is_melee : Text → Bool
is_melee damage_type = is_in damage_type melee_damage_types

abbrev pub you : Text
you = codes "You"

abbrev pub unattributed_spell_attacker : Text
unattributed_spell_attacker = codes "(spell damage)"

-- The three values of `DamageSources`
pub data DamageSources : Type 0 where
  melee melee_mine all_damage : DamageSources

abbrev pub same_sources : DamageSources → DamageSources → Bool
same_sources melee melee = true
same_sources melee_mine melee_mine = true
same_sources all_damage all_damage = true
same_sources _ _ = false

pub record PlayerDamage : Type 0 where
  pub highest_dps : ℕ
  pub total_damage : ℕ
  pub highest_hit : ℕ

abbrev pub no_damage : PlayerDamage
no_damage = record { highest_dps = 0; total_damage = 0; highest_hit = 0 }

-- A reading of 32000 and above is bogus.
unfoldable pub observe : ℕ → ℕ → ℕ → PlayerDamage → PlayerDamage
observe dps total highest p =
    let kept = if leb 32000 p.highest_hit then 0 else p.highest_hit in
    record {
      highest_dps = max p.highest_dps dps;
      total_damage = max p.total_damage total;
      highest_hit = if ltb highest 32000 then max kept highest else kept;
    }

pub record DamageEvent : Type 0 where
  pub timestamp : ℕ
  pub target_name : Text
  pub attacker_name : Text
  pub damage_done : ℕ
  pub damage_type : Text
  pub level_guess : Option ℕ

-- The settings of a tracker.
pub record Rules : Type 0 where
  pub damage_sources : DamageSources
  pub fight_retention : ℕ
  pub trailing_window : ℕ
  pub session_min_fight : ℕ
  pub spell_credit_window : ℕ
  pub count_pet_damage : Bool

pub record FightTracker : Type 0 where
  pub fights : List Fight
  pub best : PlayerDamage
  pub current_session : PlayerDamage
  pub last_session : Option PlayerDamage
  pub rules : Rules
  pub pet_name : Text
  pub cast_landed_at : Option ℕ
  pub changes : ℕ

-- `FightTracker(…)`
unfoldable pub new_tracker : Rules → FightTracker
new_tracker rules = record {
  fights = [];
  best = no_damage;
  current_session = no_damage;
  last_session = none;
  rules = rules;
  pet_name = [];
  cast_landed_at = none;
  changes = 0;
}

unfoldable pub notify : FightTracker → FightTracker
notify t = record t { changes = t.changes + 1 }

-- What `configure` is given: `none` leaves a setting as it is.
pub record Changes : Type 0 where
  pub damage_sources : Option DamageSources
  pub fight_retention : Option ℕ
  pub trailing_window : Option ℕ
  pub session_min_fight : Option ℕ
  pub spell_credit_window : Option ℕ
  pub count_pet_damage : Option Bool

abbrev pub or_else {ℓ} : {A : Type ℓ} → A → Option A → A
or_else x none = x
or_else x (some y) = y

unfoldable pub set_rules : Changes → Rules → Rules
set_rules c r = record {
  damage_sources = or_else r.damage_sources c.damage_sources;
  fight_retention = or_else r.fight_retention c.fight_retention;
  trailing_window = or_else r.trailing_window c.trailing_window;
  session_min_fight = or_else r.session_min_fight c.session_min_fight;
  spell_credit_window = or_else r.spell_credit_window c.spell_credit_window;
  count_pet_damage = or_else r.count_pet_damage c.count_pet_damage;
}

abbrev same_bool : Bool → Bool → Bool
same_bool true b = b
same_bool false b = not b

-- `_measurement_rules() == before`: all settings but the retention.
unfoldable pub same_measurement_rules : Rules → Rules → Bool
same_measurement_rules r s =
    same_sources r.damage_sources s.damage_sources
    && (r.trailing_window == s.trailing_window
        && (r.session_min_fight == s.session_min_fight
            && (r.spell_credit_window == s.spell_credit_window
                && same_bool r.count_pet_damage s.count_pet_damage)))

unfoldable pub reset_session_stats : FightTracker → FightTracker
reset_session_stats t = record t { best = no_damage; current_session = no_damage }

unfoldable pub configure : Changes → FightTracker → FightTracker
unfolding set_rules same_measurement_rules reset_session_stats notify
configure c t =
    let rules = set_rules c t.rules in
    let t' = record t { rules = rules } in
    notify (if same_measurement_rules rules t.rules then t' else reset_session_stats t')

unfoldable pub reset_best : FightTracker → FightTracker
unfolding notify
reset_best t = notify (record t { best = no_damage })

unfoldable pub load_best : PlayerDamage → FightTracker → FightTracker
unfolding notify
load_best best t = notify (record t { best = best })

-- The fight that is not over, against a target by its folded name.
abbrev pub is_active : Text → Fight → Bool
is_active wanted f = not (is_dead f) && text_eq (casefold f.target_name) wanted

abbrev pub later_than : ℕ → Option ℕ → Bool
later_than t none = true
later_than t (some u) = ltb u t

unfoldable pub note_your_cast : ℕ → ℕ → FightTracker → FightTracker
note_your_cast when cast_time t =
    let landed = when + cast_time in
    if later_than landed t.cast_landed_at then record t { cast_landed_at = some landed } else t

unfoldable pub cancel_your_cast : FightTracker → FightTracker
cancel_your_cast t = record t { cast_landed_at = none }

-- `credit_deadline`, and the test that a time is not after it.
unfoldable pub credit_deadline : FightTracker → Option ℕ
credit_deadline t = elim t.cast_landed_at [
  | none ↦ none
  | some landed ↦ some (landed + t.rules.spell_credit_window)
]

unfoldable pub within_cast_credit : ℕ → FightTracker → Bool
unfolding credit_deadline
within_cast_credit when t = elim (credit_deadline t) [
  | none ↦ false
  | some deadline ↦ leb when deadline
]

-- Whom a hit that is not melee counts for, by the mode.
abbrev claimed : DamageSources → Text → Option Text
claimed all_damage name = some name
claimed _ name = none

-- `_attribute`
unfoldable pub attribute : DamageEvent → FightTracker → Option Text
unfolding is_melee within_cast_credit
attribute event t =
    let mode = t.rules.damage_sources in
    if is_melee event.damage_type
    then some event.attacker_name
    else if same_sources mode melee
    then none
    else if text_eq event.attacker_name you
    then (if within_cast_credit event.timestamp t
        then some you
        else claimed mode unattributed_spell_attacker)
    else claimed mode event.attacker_name

unfoldable pub set_pet_name : Text → FightTracker → FightTracker
unfolding notify
set_pet_name name t = if text_eq name t.pet_name then t else notify (record t { pet_name = name })

unfoldable pub is_your_pet : Text → Text → Text → Bool
is_your_pet pet_name attacker target =
    not (is_empty pet_name)
    && (text_eq (casefold attacker) (casefold pet_name)
        && not (text_eq (casefold target) (casefold pet_name)))
