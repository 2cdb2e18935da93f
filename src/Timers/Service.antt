-- ===== src/Timers/Service.antt =====
-- `TimersService` of core/timers.py: its state and the operations that add and correct rows.
--
-- An observer that the service calls is a notice: `changed` for each callback of `on_change`,
-- `expired` and `window_open` for those of `on_expired` and `on_window_open`. A `none` is the
-- ValueError that `list.remove` raises for a row it does not find.
use nparse_plus.Prelude.{
  ℕ, ◌+◌, ◌-◌, Bool, false, ◌&&◌, not, Option, none, some, List, [], ◌∷◌, ◌++◌, keep, find?, remove,
  if◌then◌else◌, ltb,
}
use nparse_plus.Text.{Text, name_eq}
use nparse_plus.Spells.{PlayerClass, Spell, is_detrimental}
use nparse_plus.Spells.Durations.{base_timer_duration, npc_grace}
use nparse_plus.Timers.Rows.{
  Row, Kind, Countdown, SpellFields, spell_row, timer_row, counter_row, roll_row, row_eq, is_spell,
  is_timer, is_counter, snap_to_second,
}

pub data Notice : Type 0 where
  changed : Notice
  expired : List Row → Notice
  window_open : List Row → Notice

pub record Timers : Type 0 where
  pub rows : List Row
  pub notices : List Notice

abbrev pub empty : Timers
empty = record { rows = []; notices = [] }

-- `_notify`, after the rows have been replaced
abbrev pub notify_with : List Row → Timers → Timers
notify_with rows s = record { rows = rows; notices = s.notices ++ changed ∷ [] }

-- A row of a class, by name and group, without regard to case.
abbrev pub same_key : (Kind → Bool) → Row → Row → Bool
same_key class row r = class r.kind && (name_eq r.name row.name && name_eq r.group row.group)

-- `find(name, group)`
unfoldable pub find : Text → Option Text → List Row → Option Row
find name none rows = find? (λ r. name_eq r.name name) rows
find name (some group) rows = find? (λ r. name_eq r.name name && name_eq r.group group) rows

-- `existing = next(…)`, and its removal
unfoldable pub drop_existing : (Row → Bool) → List Row → Option (List Row)
drop_existing p rows = elim (find? p rows) [
  | none ↦ some rows
  | some existing ↦ remove row_eq existing rows
]

abbrev pub append_row : Row → Timers → Option (List Row) → Option Timers
append_row row s none = none
append_row row s (some rows) = some (notify_with (rows ++ row ∷ []) s)

unfoldable pub add_spell : Row → Bool → Timers → Option Timers
unfolding drop_existing
add_spell row overwrite s =
    append_row row s
      (if overwrite then drop_existing (same_key is_spell row) s.rows else some s.rows)

unfoldable pub add_timer : Row → Bool → Timers → Option Timers
unfolding drop_existing
add_timer row allow_duplicates s =
    append_row row s
      (if not allow_duplicates then drop_existing (same_key is_timer row) s.rows else some s.rows)

-- `existing.count += 1; existing.updated_at = row.updated_at`
abbrev pub bumped : ℕ → Row → Row
bumped now r = record r {
  updated_at = now;
  kind = elim r.kind [
    | counter_row n ↦ counter_row (n + 1)
    | spell_row c f ↦ spell_row c f
    | timer_row c f ↦ timer_row c f
    | roll_row c n m ↦ roll_row c n m
  ];
}

-- The first row that a test selects is changed in place; `none` where there is no such row.
unfoldable pub update_first : (Row → Bool) → (Row → Row) → List Row → Option (List Row)
update_first p f [] = none
update_first p f (r ∷ rows) =
    if p r
    then some (f r ∷ rows)
    else (elim (update_first p f rows) [ none ↦ none | some rest ↦ some (r ∷ rest) ])

unfoldable pub add_counter : Row → Timers → Timers
unfolding update_first
add_counter row s = elim (update_first (same_key is_counter row) (bumped row.updated_at) s.rows) [
  | none ↦ notify_with (s.rows ++ row ∷ []) s
  | some rows ↦ notify_with rows s
]

-- The body of the loop of `add_roll`, over a roll that ends at `end`; the assignment snaps.
abbrev pub reset_roll : Text → ℕ → Row → Row
reset_roll group end r = elim r.kind [
  | roll_row c n m ↦
      if name_eq r.group group
      then record r { kind = roll_row (record c { ends_at = snap_to_second end }) n m }
      else r
  | spell_row c f ↦ r
  | timer_row c f ↦ r
  | counter_row n ↦ r
]

abbrev pub map_rows : (Row → Row) → List Row → List Row
map_rows f [] = []
map_rows f (r ∷ rows) = f r ∷ map_rows f rows

-- `end` is `row.ends_at`.
unfoldable pub add_roll : Row → ℕ → Timers → Timers
unfolding snap_to_second
add_roll row end s = notify_with (map_rows (reset_roll row.group end) s.rows ++ row ∷ []) s

-- `self._rows[self._rows.index(row)] = replacement`; `none` where the row is not there
unfoldable pub replace_row : Row → Row → List Row → Option (List Row)
replace_row row replacement [] = none
replace_row row replacement (r ∷ rows) =
    if row_eq r row
    then some (replacement ∷ rows)
    else (elim (replace_row row replacement rows) [ none ↦ none | some rest ↦ some (r ∷ rest) ])

-- The row that `respell_row` builds; `new_id` is the identity of the new object.
unfoldable pub respelled : Row → Countdown → SpellFields → Spell → ℕ → ℕ → ℕ → Row
respelled row c f spell duration persist new_id =
    let started_at = c.ends_at - c.total_duration in
    record {
      row_id = new_id;
      name = spell.name;
      group = row.group;
      updated_at = row.updated_at;
      is_target_player = row.is_target_player;
      owner = row.owner;
      kind =
          spell_row
            (record { ends_at = snap_to_second (started_at + duration); total_duration = duration })
            (record {
              spell = spell;
              detrimental = is_detrimental spell;
              is_cooldown = f.is_cooldown;
              post_expiry_persist = persist;
              expired_at = none;
              alternatives =
                  keep (λ (a : Spell). not (name_eq a.name spell.name)) (f.spell ∷ f.alternatives);
            });
    }

-- The state after, and the replacement; `none` where the correction cannot be made. `row` is a
-- spell row with the fields `c` and `f`.
unfoldable pub respell_row :
    Row
    → Countdown
    → SpellFields
    → Spell
    → Option PlayerClass
    → Option ℕ
    → ℕ
    → ℕ
    → Timers
    → Timers × Option Row
respell_row row c f spell player_class player_level persist new_id s =
    let base = base_timer_duration spell player_class player_level false in
    let duration = base + npc_grace spell (not row.is_target_player) in
    let replacement = respelled row c f spell duration persist new_id in
    elim (replace_row row replacement s.rows) [
      | none ↦ (s, none)
      | some rows ↦ if ltb 0 base then (notify_with rows s, some replacement) else (s, none)
    ]
