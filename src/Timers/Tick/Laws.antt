-- ===== src/Timers/Tick/Laws.antt =====
-- What one tick does to the rows: the loop of removals is a filter, and the rows that stay are
-- alive.
use nparse_plus.Prelude.{
  ℕ, ◌+◌, ◌≤◌, ◌<◌, ◌≡◌, refl, ap, ◌⊎◌, inl, inr, Bool, true, false, not, Option, none, some, List,
  [], ◌∷◌, ◌++◌, keep, remove_each, remove_each-keep, All, arith, ltb, leb, if◌then◌else◌,
  append-nil, Bool-cases,
}
use nparse_plus.Timers.Rows.{
  Row, Kind, spell_row, timer_row, counter_row, roll_row, row_eq, row_eq_iff, counter_idle_expiry,
}
use nparse_plus.Timers.Service.{Timers, map_rows}
use nparse_plus.Timers.Tick.{Scan, stay, judge, scan, announce, tick}

-- A row has nothing left to show: an idle counter, a timer past the end of its window or of its
-- countdown, a spell that has lingered long enough.
abbrev pub lingered : Option ℕ → ℕ → ℕ → Bool
lingered none persist now = false
lingered (some e) persist now = ltb (e + persist) now

abbrev window_done : Option ℕ → ℕ → Bool
window_done none now = true
window_done (some w) now = leb w now

abbrev pub is_done_kind : ℕ → ℕ → Kind → Bool
is_done_kind now updated (counter_row n) = ltb (updated + counter_idle_expiry) now
is_done_kind now updated (timer_row c f) =
    if ltb now c.ends_at then false else window_done f.window_ends_at now
is_done_kind now updated (spell_row c f) =
    if ltb now c.ends_at
    then false
    else if ltb 0 f.post_expiry_persist
    then lingered f.expired_at f.post_expiry_persist now
    else true
is_done_kind now updated (roll_row c n m) = if ltb now c.ends_at then false else true

abbrev pub is_done : ℕ → Row → Bool
is_done now r = is_done_kind now r.updated_at r.kind

-- The row as the loop leaves it.
abbrev pub judged : ℕ → Row → Row
judged now r = (judge now r).row

pub dropped-judge : (now : ℕ) (r : Row) → (judge now r).dropped ≡ is_done now (judged now r)
unfolding judge
dropped-judge now r = ground arith

is_done-row_eq : (now : ℕ) (a b : Row) → row_eq a b ≡ true → is_done now a ≡ is_done now b
is_done-row_eq now a b h = ap (is_done now) ((row_eq_iff a b).0 h)

row_eq_refl : (a : Row) → row_eq a a ≡ true
row_eq_refl a = (row_eq_iff a a).1 refl

pub rows-scan : (now : ℕ) (rows : List Row) → (scan now rows).rows ≡ map_rows (judged now) rows
unfolding scan
rows-scan now [] = refl
rows-scan now (r ∷ rows) = ap (◌∷◌ (judged now r)) (rows-scan now rows)

pub drop-scan :
    (now : ℕ) (rows : List Row)
    → (scan now rows).drop ≡ keep (is_done now) (map_rows (judged now) rows)
unfolding scan
drop-scan now [] = refl
drop-scan now (r ∷ rows) = ground (arith, dropped-judge now r, drop-scan now rows)

abbrev pub after_tick : ℕ → List Row → List Row
after_tick now rows = keep (λ r. not (is_done now r)) (map_rows (judged now) rows)

scan_removals :
    (now : ℕ) (rows : List Row)
    → remove_each row_eq (scan now rows).drop (scan now rows).rows ≡ some (after_tick now rows)
scan_removals now rows =
    rw (drop-scan now rows, rows-scan now rows)
      (remove_each-keep row_eq (is_done now) (is_done-row_eq now) row_eq_refl
        (map_rows (judged now) rows))

pub tick_lem :
    (now : ℕ) (s : Timers)
    → tick now s
      ≡ some (
        record { rows = after_tick now s.rows; notices = s.notices ++ announce (scan now s.rows) },
        (scan now s.rows).just_expired,
      )
unfolding tick
tick_lem now s = rw (scan_removals now s.rows, tick)

-- A window that was stamped as opened and has not ended; a lingering time that is not over.
abbrev pub InWindow : ℕ → Option ℕ → Option ℕ → Type 0
InWindow now (some w) (some o) = now < w
InWindow now (some w) none = ⊥
InWindow now none o = ⊥

abbrev pub Lingers : ℕ → ℕ → Option ℕ → Type 0
Lingers now persist (some e) = (0 < persist) × (now ≤ e + persist)
Lingers now persist none = ⊥

-- What holds of a row that is on the screen at a time: a counter was refreshed within its expiry; a
-- roll runs; a timer runs, or its window is open, marked as such and not over; a spell runs, or
-- lingers within its time, marked as expired.
abbrev pub Alive : ℕ → ℕ → Kind → Type 0
Alive now updated (counter_row n) = now ≤ updated + counter_idle_expiry
Alive now updated (roll_row c n m) = now < c.ends_at
Alive now updated (timer_row c f) =
    (now < c.ends_at) ⊎ InWindow now f.window_ends_at f.window_opened_at
Alive now updated (spell_row c f) =
    (now < c.ends_at) ⊎ Lingers now f.post_expiry_persist f.expired_at

abbrev pub IsAlive : ℕ → Row → Type 0
IsAlive now r = Alive now r.updated_at r.kind

abbrev pub of_kind : Row → Kind → Row
of_kind r k = record r { kind = k }

IsAlive-of_kind :
    (now : ℕ) (r : Row) (k : Kind)
    → is_done now (judged now (of_kind r k)) ≡ false
    → IsAlive now (judged now (of_kind r k))
unfolding judge
IsAlive-of_kind now r (counter_row n) h = ground arith
IsAlive-of_kind now r (timer_row c f) h = ground arith
IsAlive-of_kind now r (spell_row c f) h = ground arith
IsAlive-of_kind now r (roll_row c n m) h = ground arith

All-after_tick : (now : ℕ) (rows : List Row) → All (IsAlive now) (after_tick now rows)
All-after_tick now [] = tt
All-after_tick now (r ∷ rows) = elim (Bool-cases (is_done now (judged now r))) [
  | inl e ↦ rw e (All-after_tick now rows)
  | inr e ↦ rw e (IsAlive-of_kind now r r.kind e, All-after_tick now rows)
]

-- A tick never fails, and every row that it leaves on the screen is alive at its time.
pub tick-IsAlive :
    (now : ℕ) (s : Timers)
    → (s' : Timers) × (out : List Row) × (tick now s ≡ some (s', out)) × All (IsAlive now) s'.rows
tick-IsAlive now s = (_, _, tick_lem now s, All-after_tick now s.rows)

-- A row that is alive is left as it is.
stay-of_kind :
    (now : ℕ) (r : Row) (k : Kind)
    → IsAlive now (of_kind r k)
    → judge now (of_kind r k) ≡ stay (of_kind r k)
unfolding judge
stay-of_kind now r (counter_row n) h = ground arith
stay-of_kind now r (timer_row c f) h = ground arith
stay-of_kind now r (spell_row c f) h = ground arith
stay-of_kind now r (roll_row c n m) h = ground arith

abbrev quiet : List Row → Scan
quiet rows = record { rows = rows; just_expired = []; just_opened = []; drop = []; changed = false }

scan_alive : (now : ℕ) (rows : List Row) → All (IsAlive now) rows → scan now rows ≡ quiet rows
unfolding scan
scan_alive now [] h = refl
scan_alive now (r ∷ rows) h = rw (stay-of_kind now r r.kind h.0, scan_alive now rows h.1)

tick_alive : (now : ℕ) (s : Timers) → All (IsAlive now) s.rows → tick now s ≡ some (s, [])
unfolding tick
tick_alive now s h = rw (scan_alive now s.rows h, tick) (rw (scan_alive now s.rows h, append-nil))

state_of_tick :
    (now : ℕ) (s s' : Timers) (out : List Row)
    → tick now s ≡ some (s', out)
    → s'.rows ≡ after_tick now s.rows
state_of_tick now s s' out h = ground (arith, tick_lem now s)

-- A second tick at the same time reports nothing, changes nothing and calls no observer.
pub tick_idem :
    (now : ℕ) (s s' : Timers) (out : List Row)
    → tick now s ≡ some (s', out)
    → tick now s' ≡ some (s', [])
tick_idem now s s' out h =
    tick_alive now s' (rw (state_of_tick now s s' out h) (All-after_tick now s.rows))
