-- ===== src/Kills/Zones.antt =====
-- The zone database (core/zones.py): the queries of `ZoneDatabase`.
use nparse_plus.Prelude.{
  ℕ, Bool, false, ◌&&◌, not, Option, none, some, List, [], ◌∷◌, if◌then◌else◌, any, find?,
}
use nparse_plus.Text.{Text, lower, casefold, text_eq, is_empty, contains}
use nparse_plus.Logs.LineInfo.{strip}

pub record NpcSpawnTime : Type 0 where
  pub name : Text
  pub seconds : ℕ

-- The fields of `ZoneInfo` that the queries read.
pub record ZoneInfo : Type 0 where
  pub respawn_seconds : ℕ
  pub notable_npcs : List Text
  pub npc_spawn_times : List NpcSpawnTime
  pub npc_contains_spawn_times : List NpcSpawnTime

pub record ZoneDatabase : Type 0 where
  pub zones : List (Text × ZoneInfo)
  pub kael_faction_mobs : List Text
  pub name_to_short : List (Text × Text)
  pub who_to_name : List (Text × Text)

abbrev pub default_respawn_seconds : ℕ
default_respawn_seconds = 400

-- `d.get(key)`
unfoldable pub get_key {ℓ} : {A : Type ℓ} → Text → List (Text × A) → Option A
get_key key [] = none
get_key key ((k, v) ∷ rest) =
    let later = get_key key rest in if text_eq k key then some v else later

unfoldable pub short_name : Text → ZoneDatabase → Option Text
unfolding get_key lower strip
short_name long_name z = get_key (lower (strip long_name)) z.name_to_short

-- The first long name that is mapped to the key.
abbrev pub name_of : Option (Text × Text) → Option Text
name_of none = none
name_of (some (name, key)) = some name

unfoldable pub long_name : Text → ZoneDatabase → Option Text
unfolding lower strip
long_name short z =
    name_of (find? (λ (entry : Text × Text). text_eq entry.1 (lower (strip short))) z.name_to_short)

abbrev pub or_key : Text → Option Text → Text
or_key key none = key
or_key key (some name) = name

unfoldable pub short_name_from_who : Text → ZoneDatabase → Option Text
unfolding get_key lower strip
short_name_from_who who_name z =
    let who = lower (strip who_name) in
    get_key (or_key who (get_key who z.who_to_name)) z.name_to_short

-- `(short_zone or "").lower()`
abbrev pub zone_key : Option Text → Text
zone_key none = []
zone_key (some zone) = lower zone

abbrev pub is_notable_in : Text → ZoneDatabase → Option ZoneInfo → Bool
is_notable_in name z none = false
is_notable_in name z (some zone) =
    any (λ notable. text_eq (casefold notable) name) zone.notable_npcs
    && not (any (λ mob. text_eq (casefold mob) name) z.kael_faction_mobs)

unfoldable pub is_notable_kill : Text → Option Text → ZoneDatabase → Bool
unfolding get_key strip
is_notable_kill victim short_zone z =
    let name = casefold (strip victim) in
    not (is_empty name) && is_notable_in name z (get_key (zone_key short_zone) z.zones)

-- The seconds of an entry, or what follows where there is none.
abbrev pub seconds_or : ℕ → Option NpcSpawnTime → ℕ
seconds_or seconds none = seconds
seconds_or seconds (some entry) = entry.seconds

-- Exact names before parts of names before the zone's own time.
abbrev pub spawn_time_in : Text → Option ZoneInfo → ℕ
spawn_time_in npc none = default_respawn_seconds
spawn_time_in npc (some zone) =
    seconds_or
      (seconds_or zone.respawn_seconds (
        find? (λ (entry : NpcSpawnTime). contains (lower entry.name) npc)
          zone.npc_contains_spawn_times))
      (find? (λ (entry : NpcSpawnTime). text_eq (lower entry.name) npc) zone.npc_spawn_times)

unfoldable pub spawn_time : Text → Option Text → ZoneDatabase → ℕ
unfolding get_key lower strip contains
spawn_time npc_name short_zone z =
    spawn_time_in (lower (strip npc_name)) (get_key (zone_key short_zone) z.zones)
