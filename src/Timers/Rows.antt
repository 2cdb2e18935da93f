-- ===== src/Timers/Rows.antt =====
-- The rows of the spell window (core/timers.py): the row models with their validators, the
-- countdown helpers, and the equality by which `list.remove` and `list.index` find a row.
--
-- Times are microseconds since the clock's origin, durations are microseconds. A row object has an
-- identity, `row_id`, which is what `id(row)` reads; equality of rows compares everything else, as
-- the models of pydantic do.
use nparse_plus.Prelude.{
  ℕ, ◌+◌, ◌-◌, ◌*◌, ◌/◌, ◌≡◌, ◌↔◌, Bool, true, false, ◌&&◌, ◌||◌, not, Option, none, some, List, [],
  ltb, leb, if◌then◌else◌, is_yes, is_yes_iff, ℕ_discrete,
}
use nparse_plus.Text.{Text, Text-discrete, is_empty, codes}
use nparse_plus.Spells.{Spell, Spell-discrete}
use nparse_plus.Spells.Durations.{second}

abbrev pub you_group : Text
you_group = codes " You "

-- Counters are dropped when not refreshed for this long: ten minutes.
abbrev pub counter_idle_expiry : ℕ
counter_idle_expiry = 600 * second

unfoldable pub snap_to_second : ℕ → ℕ
snap_to_second t = t / second * second

-- `max(0, ceil(ends_at - now))`: the subtraction stops at 0.
unfoldable pub seconds_left : ℕ → ℕ → ℕ
seconds_left ends_at now = (ends_at - now + (second - 1)) / second

-- What `CountdownRow` adds.
pub record Countdown : Type 0 where
  pub ends_at : ℕ
  pub total_duration : ℕ

-- What `SpellRow` adds.
pub record SpellFields : Type 0 where
  pub spell : Spell
  pub detrimental : Bool
  pub is_cooldown : Bool
  pub post_expiry_persist : ℕ
  pub expired_at : Option ℕ
  pub alternatives : List Spell

-- What `TimerRow` adds.
pub record TimerFields : Type 0 where
  pub window_ends_at : Option ℕ
  pub window_opened_at : Option ℕ
  pub window_series : Text
  pub window_index : ℕ
  pub window_count : ℕ

-- The four classes of the union `Row`, with their own fields.
pub data Kind : Type 0 where
  spell_row : Countdown → SpellFields → Kind
  timer_row : Countdown → TimerFields → Kind
  counter_row : ℕ → Kind
  roll_row : Countdown → ℕ → ℕ → Kind

-- A row object: its identity, the fields of `BaseRow`, and those of its class.
pub record Row : Type 0 where
  pub row_id : ℕ
  pub name : Text
  pub group : Text
  pub updated_at : ℕ
  pub is_target_player : Bool
  pub owner : Text
  pub kind : Kind

abbrev pub no_window : TimerFields
no_window = record {
  window_ends_at = none;
  window_opened_at = none;
  window_series = [];
  window_index = 0;
  window_count = 0;
}

Row-discrete : Discrete Row
Row-discrete = hlevel (ℕ_discrete, Spell-discrete, Text-discrete)

abbrev pub anonymous : Row → Row
anonymous r = record r { row_id = 0 }

-- `a == b` on rows: the same class and the same fields.
pub row_eq : Row → Row → Bool
row_eq a b = is_yes (Row-discrete (anonymous a) (anonymous b))

pub row_eq_iff : (a b : Row) → (row_eq a b ≡ true) ↔ (anonymous a ≡ anonymous b)
unfolding row_eq
row_eq_iff a b = is_yes_iff (Row-discrete (anonymous a) (anonymous b))

-- The tests `isinstance(row, SpellRow)` and so on.
abbrev pub is_spell : Kind → Bool
is_spell (spell_row c f) = true
is_spell (timer_row c f) = false
is_spell (counter_row n) = false
is_spell (roll_row c n m) = false

abbrev pub is_timer : Kind → Bool
is_timer (timer_row c f) = true
is_timer (spell_row c f) = false
is_timer (counter_row n) = false
is_timer (roll_row c n m) = false

abbrev pub is_counter : Kind → Bool
is_counter (counter_row n) = true
is_counter (spell_row c f) = false
is_counter (timer_row c f) = false
is_counter (roll_row c n m) = false

abbrev pub is_roll : Kind → Bool
is_roll (roll_row c n m) = true
is_roll (spell_row c f) = false
is_roll (timer_row c f) = false
is_roll (counter_row n) = false

-- `getattr(row, "ends_at", None)`
abbrev pub ends_at? : Kind → Option ℕ
ends_at? (spell_row c f) = some c.ends_at
ends_at? (timer_row c f) = some c.ends_at
ends_at? (counter_row n) = none
ends_at? (roll_row c n m) = some c.ends_at

-- `getattr(row, "window_ends_at", None)`
abbrev pub window_ends_at? : Kind → Option ℕ
window_ends_at? (timer_row c f) = f.window_ends_at
window_ends_at? (spell_row c f) = none
window_ends_at? (counter_row n) = none
window_ends_at? (roll_row c n m) = none

-- `getattr(row, "window_series", "")`
abbrev pub window_series_of : Kind → Text
window_series_of (timer_row c f) = f.window_series
window_series_of (spell_row c f) = []
window_series_of (counter_row n) = []
window_series_of (roll_row c n m) = []

abbrev is_some? {ℓ} : {A : Type ℓ} → Option A → Bool
is_some? (some a) = true
is_some? none = false

unfoldable pub has_pop_window : Row → Bool
has_pop_window row = is_some? (window_ends_at? row.kind)

-- `ends_at is not None and ends_at <= now`
abbrev passed : Option ℕ → ℕ → Bool
passed none now = false
passed (some t) now = leb t now

unfoldable pub in_pop_window : Row → ℕ → Bool
unfolding has_pop_window
in_pop_window row now = has_pop_window row && passed (ends_at? row.kind) now

abbrev or_option : Option ℕ → Option ℕ → Option ℕ
or_option (some a) b = some a
or_option none b = b

unfoldable pub expires_at : Row → Option ℕ
expires_at row = or_option (window_ends_at? row.kind) (ends_at? row.kind)

unfoldable pub countdown_target : Row → ℕ → Option ℕ
unfolding in_pop_window
countdown_target row now =
    if in_pop_window row now then window_ends_at? row.kind else ends_at? row.kind

-- The validators of `CountdownRow` and `TimerRow`, as a row is built or a field is assigned:
-- the ends are snapped, and `none` is the ValueError of `_window_must_follow_the_base_end`.
abbrev snap? : Option ℕ → Option ℕ
snap? none = none
snap? (some t) = some (snap_to_second t)

-- `not 1 <= index <= count`
abbrev pub bad_index : ℕ → ℕ → Bool
bad_index index count = not (leb 1 index && leb index count)

window_ok : ℕ → TimerFields → Bool
window_ok end f = elim f.window_ends_at [
  | none ↦ is_empty f.window_series
  | some w ↦
      ltb end w && (is_empty f.window_series || not (bad_index f.window_index f.window_count))
]

-- The fields of a row that is being built or assigned to, as its validators leave them.
unfoldable pub validate : Kind → Option Kind
unfolding window_ok
validate (counter_row n) = some (counter_row n)
validate (spell_row c f) = some (spell_row (record c { ends_at = snap_to_second c.ends_at }) f)
validate (roll_row c n m) = some (roll_row (record c { ends_at = snap_to_second c.ends_at }) n m)
validate (timer_row c f) =
    let c' : Countdown = record c { ends_at = snap_to_second c.ends_at } in
    let f' : TimerFields = record f { window_ends_at = snap? f.window_ends_at } in
    if window_ok c'.ends_at f' then some (timer_row c' f') else none
