-- ===== src/Timers/Tick/Reports.antt =====
-- Who is told, and how often: over any run of ticks each row is reported once.
use nparse_plus.Prelude.{
  ℕ, ◌+◌, ◌≡◌, refl, Bool, true, false, ◌&&◌, not, Option, none, some, List, [], ◌∷◌, ◌++◌, keep,
  length, keep-append, length-append, length-keep_if, one_if, arith, ltb, ◌==◌,
}
use nparse_plus.Timers.Rows.{Row, Kind, spell_row, timer_row, counter_row, roll_row}
use nparse_plus.Timers.Service.{Timers}
use nparse_plus.Timers.Tick.{judge, scan, announce, tick}
use nparse_plus.Timers.Tick.Laws.{is_done, judged, of_kind, after_tick, tick_lem}

-- A spell that lingers has been reported: it shows the time of its expiry.
abbrev marked : Option ℕ → Bool
marked none = false
marked (some e) = true

abbrev reported_kind : Kind → Bool
reported_kind (spell_row c f) = ltb 0 f.post_expiry_persist && marked f.expired_at
reported_kind (timer_row c f) = false
reported_kind (counter_row n) = false
reported_kind (roll_row c n m) = false

-- The rows of one identity in a list, and those of them whose expiry is still to be reported.
abbrev pub with_id : ℕ → Row → Bool
with_id i r = r.row_id == i

abbrev pub pending : ℕ → Row → Bool
pending i r = with_id i r && not (reported_kind r.kind)

abbrev pub reports : ℕ → List Row → ℕ
reports i rows = length (keep (with_id i) rows)

abbrev pub pendings : ℕ → List Row → ℕ
pendings i rows = length (keep (pending i) rows)

-- A row is reported as it leaves, or as it begins to linger. A spell marked as expired has ended.
judge_balance :
    (i now : ℕ) (r : Row) (k : Kind)
    → one_if ((judge now (of_kind r k)).just_expired && with_id i (judged now (of_kind r k)))
        + one_if
            (not (is_done now (judged now (of_kind r k))) && pending i (judged now (of_kind r k)))
      ≡ one_if (pending i (of_kind r k))
unfolding judge
judge_balance i now r (counter_row n) = ground arith
judge_balance i now r (timer_row c f) = ground arith
judge_balance i now r (spell_row c f) = ground arith
judge_balance i now r (roll_row c n m) = ground arith

-- Over one tick: what is reported of an identity, with what is still to be reported after, is what
-- was to be reported before.
scan_balance :
    (i now : ℕ) (rows : List Row)
    → reports i (scan now rows).just_expired + pendings i (after_tick now rows) ≡ pendings i rows
unfolding scan
scan_balance i now [] = refl
scan_balance i now (r ∷ rows) = omega (
  arith,
  length-keep_if (with_id i) (judge now r).just_expired (judged now r) (scan now rows).just_expired,
  length-keep_if (pending i) (not (is_done now (judged now r))) (judged now r)
      (after_tick now rows),
  length-keep_if (pending i) true r rows,
  judge_balance i now r r.kind,
  scan_balance i now rows,
)

-- A run of ticks at the given times: the state after, and all that was reported.
unfoldable pub run : List ℕ → Timers → Option (Timers × List Row)
run [] s = some (s, [])
run (now ∷ times) s = elim (tick now s) [
  | none ↦ none
  | some (s', out) ↦ elim (run times s') [
    | none ↦ none
    | some (s'', more) ↦ some (s'', out ++ more)
  ]
]

reports-append : (i : ℕ) (xs ys : List Row) → reports i (xs ++ ys) ≡ reports i xs + reports i ys
reports-append i xs ys =
    rw (keep-append (with_id i) xs ys) (length-append (keep (with_id i) xs) (keep (with_id i) ys))

-- A run of ticks never fails. Over the whole run, whatever the times, what is reported of each
-- identity, with what is still to be reported, is what was to be reported at the start: no expiry
-- is lost, and none is reported twice.
pub run_balance :
    (i : ℕ) (times : List ℕ) (s : Timers)
    → (s' : Timers) × (out : List Row) × (run times s ≡ some (s', out))
      × (reports i out + pendings i s'.rows ≡ pendings i s.rows)
unfolding run
run_balance i [] s = (s, [], refl, omega arith)
run_balance i (now ∷ times) s =
    let s₁ : Timers = record {
      rows = after_tick now s.rows;
      notices = s.notices ++ announce (scan now s.rows);
    } in
    let (s', more, ran, balance) = run_balance i times s₁ in
    (
      s',
      (scan now s.rows).just_expired ++ more,
      rw (tick_lem now s, run) (rw (ran, run)),
      omega (
        arith,
        balance,
        reports-append i (scan now s.rows).just_expired more,
        scan_balance i now s.rows,
      ),
    )
