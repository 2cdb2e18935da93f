-- ===== src/Timers/Persistence.antt =====
-- The snapshots by which timers survive camping and restarts (core/timers.py): the
-- `export_…` methods of `TimersService`.
use nparse_plus.Prelude.{
  ℕ, Bool, ◌&&◌, not, Option, none, some, List, [], collect, if◌then◌else◌, ltb, leb,
}
use nparse_plus.Text.{Text, text_eq, name_eq, is_empty}
use nparse_plus.Timers.Rows.{
  Row, TimerFields, spell_row, timer_row, counter_row, roll_row, you_group, seconds_left,
}

pub record YouSpellSnapshot : Type 0 where
  pub name : Text
  pub total_seconds_left : ℕ

pub record SelfCooldownSnapshot : Type 0 where
  pub name : Text
  pub ends_at : ℕ
  pub total_duration : ℕ
  pub spell_name : Text

pub record SelfCounterSnapshot : Type 0 where
  pub name : Text
  pub count : ℕ
  pub updated_at : ℕ

pub record RespawnTimerSnapshot : Type 0 where
  pub name : Text
  pub ends_at : ℕ
  pub total_duration : ℕ
  pub window : TimerFields

-- The bodies of the loops: what is saved of one row.
unfoldable pub saved_spell : ℕ → Row → Option YouSpellSnapshot
saved_spell now r = elim r.kind [
  | spell_row c f ↦
      if (text_eq r.group you_group && not f.is_cooldown) && ltb 0 (seconds_left c.ends_at now)
      then some (record { name = r.name; total_seconds_left = seconds_left c.ends_at now })
      else none
  | timer_row c f ↦ none
  | counter_row n ↦ none
  | roll_row c n m ↦ none
]

unfoldable pub export_you_spells : ℕ → List Row → List YouSpellSnapshot
unfolding saved_spell seconds_left
export_you_spells now rows = collect (saved_spell now) rows

unfoldable pub saved_cooldown : ℕ → Row → Option SelfCooldownSnapshot
saved_cooldown now r = elim r.kind [
  | spell_row c f ↦
      if (text_eq r.group you_group && ltb now c.ends_at) && f.is_cooldown
      then some (record {
        name = r.name;
        ends_at = c.ends_at;
        total_duration = c.total_duration;
        spell_name = f.spell.name;
      })
      else none
  | timer_row c f ↦
      if text_eq r.group you_group && ltb now c.ends_at
      then some (record {
        name = r.name;
        ends_at = c.ends_at;
        total_duration = c.total_duration;
        spell_name = [];
      })
      else none
  | counter_row n ↦ none
  | roll_row c n m ↦ none
]

unfoldable pub export_self_cooldowns : ℕ → List Row → List SelfCooldownSnapshot
unfolding saved_cooldown
export_self_cooldowns now rows = collect (saved_cooldown now) rows

unfoldable pub saved_counter : Row → Option SelfCounterSnapshot
saved_counter r = elim r.kind [
  | counter_row n ↦
      if text_eq r.group you_group
      then some (record { name = r.name; count = n; updated_at = r.updated_at })
      else none
  | spell_row c f ↦ none
  | timer_row c f ↦ none
  | roll_row c n m ↦ none
]

unfoldable pub export_self_counters : List Row → List SelfCounterSnapshot
unfolding saved_counter
export_self_counters rows = collect saved_counter rows

-- `(window_ends_at or ends_at) <= now`
abbrev pub over : Option ℕ → ℕ → ℕ → Bool
over (some w) end now = leb w now
over none end now = leb end now

unfoldable pub saved_respawn : Text → ℕ → Row → Option RespawnTimerSnapshot
saved_respawn group now r = elim r.kind [
  | timer_row c f ↦
      if (name_eq r.group group && is_empty r.owner) && not (over f.window_ends_at c.ends_at now)
      then some (record {
        name = r.name;
        ends_at = c.ends_at;
        total_duration = c.total_duration;
        window = f;
      })
      else none
  | spell_row c f ↦ none
  | counter_row n ↦ none
  | roll_row c n m ↦ none
]

unfoldable pub export_respawn_timers : Text → ℕ → List Row → List RespawnTimerSnapshot
unfolding saved_respawn
export_respawn_timers group now rows = collect (saved_respawn group now) rows
