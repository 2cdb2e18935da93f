-- ===== src/Timers/Restore.antt =====
-- The `restore_…` methods of `TimersService` (core/timers.py). A restore builds new row objects:
-- `new_id` is the identity of the first, and the next ones follow.
pub mod RoundTrip
pub mod Respawns
use nparse_plus.Prelude.{
  ℕ, suc, ◌+◌, ◌*◌, ◌≡◌, Bool, true, false, ◌&&◌, ◌||◌, not, Option, none, some, List, [], ◌∷◌,
  ◌++◌, if◌then◌else◌, ltb, leb, is_empty_list,
}
use nparse_plus.Text.{Text, text_eq, name_eq, is_empty}
use nparse_plus.Spells.{PlayerClass, Spell, is_detrimental}
use nparse_plus.Spells.Book.{SpellBook, spell_by_name}
use nparse_plus.Spells.Durations.{second, get_duration_seconds}
use nparse_plus.Timers.Rows.{
  Row, Kind, Countdown, SpellFields, TimerFields, spell_row, timer_row, counter_row, roll_row,
  you_group, counter_idle_expiry, snap_to_second, seconds_left, expires_at, validate, bad_index,
}
use nparse_plus.Timers.Service.{Timers, notify_with}
use nparse_plus.Timers.Persistence.{
  YouSpellSnapshot, SelfCooldownSnapshot, SelfCounterSnapshot, RespawnTimerSnapshot, over,
}

-- A row as the restores build it, with the fields that they leave at their defaults.
abbrev pub restored_row : ℕ → Text → Text → ℕ → Kind → Row
restored_row new_id name group updated_at kind = record {
  row_id = new_id;
  name = name;
  group = group;
  updated_at = updated_at;
  is_target_player = true;
  owner = [];
  kind = kind;
}

abbrev pub spell_fields : Spell → Bool → SpellFields
spell_fields spell is_cooldown = record {
  spell = spell;
  detrimental = is_detrimental spell;
  is_cooldown = is_cooldown;
  post_expiry_persist = 0;
  expired_at = none;
  alternatives = [];
}

abbrev pub buff_row : ℕ → Option PlayerClass → Option ℕ → ℕ → YouSpellSnapshot → Spell → Row
buff_row now player_class level new_id item spell = restored_row new_id spell.name you_group now (
    spell_row
      (record {
        ends_at = snap_to_second (now + item.total_seconds_left * second);
        total_duration = get_duration_seconds spell player_class level false * second;
      })
      (spell_fields spell false))

-- The loop of `restore_you_spells`.
unfoldable pub buff_rows :
    ℕ → SpellBook → Option PlayerClass → Option ℕ → ℕ → List YouSpellSnapshot → List Row
buff_rows now book player_class level new_id [] = []
buff_rows now book player_class level new_id (item ∷ saved) =
    let rest = buff_rows now book player_class level (new_id + 1) saved in
    elim (spell_by_name book item.name) [
      | none ↦ rest
      | some spell ↦ buff_row now player_class level new_id item spell ∷ rest
    ]

-- `if saved: self._notify()`
unfoldable pub restore_you_spells :
    List YouSpellSnapshot → ℕ → SpellBook → Option PlayerClass → Option ℕ → ℕ → Timers → Timers
unfolding buff_rows
restore_you_spells saved now book player_class level new_id s =
    let rows = s.rows ++ buff_rows now book player_class level new_id saved in
    if is_empty_list saved then record s { rows = rows } else notify_with rows s

-- `book.spell_by_name(item.spell_name) if item.spell_name else None`
abbrev pub named_spell : SpellBook → Text → Option Spell
named_spell book [] = none
named_spell book (c ∷ name) = spell_by_name book (c ∷ name)

abbrev pub cooldown_kind : SelfCooldownSnapshot → Option Spell → Kind
cooldown_kind item (some spell) =
    spell_row
      (record { ends_at = snap_to_second item.ends_at; total_duration = item.total_duration })
      (spell_fields spell true)
cooldown_kind item none =
    timer_row
      (record { ends_at = snap_to_second item.ends_at; total_duration = item.total_duration })
      (record {
        window_ends_at = none;
        window_opened_at = none;
        window_series = [];
        window_index = 0;
        window_count = 0;
      })

-- The loop of `restore_self_cooldowns`.
unfoldable pub cooldown_rows : ℕ → SpellBook → ℕ → List SelfCooldownSnapshot → List Row
cooldown_rows now book new_id [] = []
cooldown_rows now book new_id (item ∷ saved) =
    let rest = cooldown_rows now book (new_id + 1) saved in
    if leb item.ends_at now
    then rest
    else restored_row new_id item.name you_group now
        (cooldown_kind item (named_spell book item.spell_name))
      ∷ rest

-- `if restored: self._notify()`
abbrev pub append_restored : List Row → Timers → Timers
append_restored rows s = if is_empty_list rows then s else notify_with (s.rows ++ rows) s

unfoldable pub restore_self_cooldowns :
    List SelfCooldownSnapshot → ℕ → SpellBook → ℕ → Timers → Timers
unfolding cooldown_rows
restore_self_cooldowns saved now book new_id s =
    append_restored (cooldown_rows now book new_id saved) s

-- The loop of `restore_self_counters`.
unfoldable pub counter_rows : ℕ → ℕ → List SelfCounterSnapshot → List Row
counter_rows now new_id [] = []
counter_rows now new_id (item ∷ saved) =
    let rest = counter_rows now (new_id + 1) saved in
    if ltb (item.updated_at + counter_idle_expiry) now
    then rest
    else restored_row new_id item.name you_group item.updated_at (counter_row item.count) ∷ rest

unfoldable pub restore_self_counters : List SelfCounterSnapshot → ℕ → ℕ → Timers → Timers
unfolding counter_rows
restore_self_counters saved now new_id s = append_restored (counter_rows now new_id saved) s

-- `series, index, count = "", 0, 0`
abbrev pub no_series : TimerFields → TimerFields
no_series f = record f { window_series = []; window_index = 0; window_count = 0 }

-- A window that does not follow its base end is dropped.
unfoldable pub degrade_window : ℕ → TimerFields → TimerFields
degrade_window end f = elim f.window_ends_at [
  | none ↦ f
  | some w ↦
      if leb (snap_to_second w) (snap_to_second end)
      then no_series (record f { window_ends_at = none; window_opened_at = none })
      else f
]

-- A series position that is out of range is dropped.
unfoldable pub degrade_series : TimerFields → TimerFields
degrade_series f =
    if not (is_empty f.window_series) && bad_index f.window_index f.window_count
    then no_series f
    else f

abbrev pub degraded : RespawnTimerSnapshot → TimerFields
degraded item = degrade_series (degrade_window item.ends_at item.window)

-- The loop of `restore_respawn_timers`: the rows it appends, and whether the constructor of a row
-- raised ValueError, which ends it.
unfoldable pub respawn_rows : Text → ℕ → ℕ → List RespawnTimerSnapshot → List Row × Bool
respawn_rows group now new_id [] = ([], false)
respawn_rows group now new_id (item ∷ saved) =
    let rest = respawn_rows group now (new_id + 1) saved in
    let f = degraded item in
    if over f.window_ends_at item.ends_at now
    then rest
    else (elim (validate
        (timer_row (record { ends_at = item.ends_at; total_duration = item.total_duration }) f)) [
          | none ↦ ([], true)
          | some kind ↦ (restored_row new_id item.name group now kind ∷ rest.0, rest.1)
        ])

-- The state after, and whether a ValueError came out. What was appended before it stays, and it
-- skips the notification.
unfoldable pub restore_respawn_timers :
    List RespawnTimerSnapshot → Text → ℕ → ℕ → Timers → Timers × Bool
unfolding respawn_rows
restore_respawn_timers saved group now new_id s =
    let (rows, raised) = respawn_rows group now new_id saved in
    if raised then (record s { rows = s.rows ++ rows }, true) else (append_restored rows s, false)
