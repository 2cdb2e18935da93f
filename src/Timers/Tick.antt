-- ===== src/Timers/Tick.antt =====
-- `TimersService.tick` (core/timers.py): the loop over the rows, the removal of those that are
-- done, and the observers it calls.
pub mod Laws
pub mod Reports
use nparse_plus.Prelude.{
  ℕ, ◌+◌, Bool, true, false, ◌||◌, not, Option, none, some, List, [], ◌∷◌, ◌++◌, remove_each,
  if◌then◌else◌, ltb, is_empty_list,
}
use nparse_plus.Timers.Rows.{
  Row, Kind, Countdown, SpellFields, TimerFields, spell_row, timer_row, counter_row, roll_row,
  row_eq, counter_idle_expiry,
}
use nparse_plus.Timers.Service.{Timers, Notice, changed, expired, window_open}

-- What one pass of the loop does with a row: the row as it leaves it, and the lists it joins.
pub record Verdict : Type 0 where
  pub row : Row
  pub just_opened : Bool
  pub just_expired : Bool
  pub dropped : Bool
  pub stamped : Bool

-- `continue` with nothing done
abbrev pub stay : Row → Verdict
stay r = record {
  row = r;
  just_opened = false;
  just_expired = false;
  dropped = false;
  stamped = false;
}

abbrev pub expire : Row → Verdict
expire r = record (stay r) { just_expired = true; dropped = true }

-- A timer past its base end, with its window's end.
unfoldable pub judge_window : ℕ → Row → Countdown → TimerFields → ℕ → Verdict
judge_window now r c f w =
    let opened = record r { kind = timer_row c (record f { window_opened_at = some now }) } in
    elim f.window_opened_at [
      | none ↦
          if ltb now w
          then record (stay opened) { just_opened = true; stamped = true }
          else record (expire opened) { just_opened = true; stamped = true }
      | some _ ↦ if ltb now w then stay r else expire r
    ]

-- A spell past its end that lingers.
unfoldable pub judge_persist : ℕ → Row → Countdown → SpellFields → Verdict
judge_persist now r c f = elim f.expired_at [
  | none ↦ record {
    row = record r { kind = spell_row c (record f { expired_at = some now }) };
    just_opened = false;
    just_expired = true;
    dropped = ltb (now + f.post_expiry_persist) now;
    stamped = true;
  }
  | some e ↦ record (stay r) { dropped = ltb (e + f.post_expiry_persist) now }
]

judge_kind : ℕ → Row → Kind → Verdict
unfolding judge_window judge_persist
judge_kind now r (counter_row n) =
    if ltb (r.updated_at + counter_idle_expiry) now then expire r else stay r
judge_kind now r (timer_row c f) =
    if ltb now c.ends_at
    then stay r
    else (elim f.window_ends_at [ none ↦ expire r | some w ↦ judge_window now r c f w ])
judge_kind now r (spell_row c f) =
    if ltb now c.ends_at
    then stay r
    else if ltb 0 f.post_expiry_persist
    then judge_persist now r c f
    else expire r
judge_kind now r (roll_row c n m) = if ltb now c.ends_at then stay r else expire r

-- The body of the loop.
unfoldable pub judge : ℕ → Row → Verdict
unfolding judge_kind
judge now r = judge_kind now r r.kind

-- The lists that the loop builds, and the rows as it leaves them.
pub record Scan : Type 0 where
  pub rows : List Row
  pub just_expired : List Row
  pub just_opened : List Row
  pub drop : List Row
  pub changed : Bool

abbrev pub scan_step : Verdict → Scan → Scan
scan_step v rest = record {
  rows = v.row ∷ rest.rows;
  just_expired = if v.just_expired then v.row ∷ rest.just_expired else rest.just_expired;
  just_opened = if v.just_opened then v.row ∷ rest.just_opened else rest.just_opened;
  drop = if v.dropped then v.row ∷ rest.drop else rest.drop;
  changed = v.stamped || rest.changed;
}

unfoldable pub scan : ℕ → List Row → Scan
scan now [] = record { rows = []; just_expired = []; just_opened = []; drop = []; changed = false }
scan now (r ∷ rows) = scan_step (judge now r) (scan now rows)

abbrev pub notice_if : Bool → Notice → List Notice
notice_if true n = n ∷ []
notice_if false n = []

-- The calls at the end: window openings, then expiries, then the change.
abbrev pub announce : Scan → List Notice
announce k =
    notice_if (not (is_empty_list k.just_opened)) (window_open k.just_opened)
    ++ notice_if (not (is_empty_list k.just_expired)) (expired k.just_expired)
    ++ notice_if (not (is_empty_list k.drop) || k.changed) changed

-- The state after, and the rows that just expired.
unfoldable pub tick : ℕ → Timers → Option (Timers × List Row)
unfolding scan
tick now s =
    let k = scan now s.rows in
    elim (remove_each row_eq k.drop k.rows) [
      | none ↦ none
      | some rows ↦ some (record { rows = rows; notices = s.notices ++ announce k }, k.just_expired)
    ]
