-- ===== src/BardCount/Conservation.antt =====
-- The totals of hits and of resists (core/handlers/bard_count.py).
use nparse_plus.Prelude.{
  ℕ, ◌+◌, ◌≡◌, refl, ap, ◌∙◌, Bool, true, false, ◌&&◌, not, Bool-cases, Option-cases, inl, inr,
  none, some, List, [], ◌∷◌, ◌++◌, arith, keep, one_if, is_yes_iff, remove_each-keep, append_assoc,
}
use nparse_plus.Text.{Text}
use nparse_plus.BardCount.Lines.{is_hit_line, normalize_spell_name}
use nparse_plus.BardCount.Sessions.{
  Session, Session-discrete, session_eq, CounterLists, BardCount, Count, hit, resist, is_listed,
  is_expired, finalized, finalize_expired,
}
use nparse_plus.BardCount.Handlers.{
  Event, line_read, resisted, casting_begun, resist_of, count_line, count_resist, handle, run,
  flush, follow, then_more,
}
use nparse_plus.BardCount.Attaching.{total, same_count, total-append, total-keep, attach-total}

-- The lines that tell of a hit, or of a resist.
abbrev pub tells_of : CounterLists → Count → Event → Bool
tells_of lists c (line_read timestamp message) = elim (resist_of lists message) [
  | some name ↦ same_count c resist
  | none ↦ is_hit_line message && same_count c hit
]
tells_of lists c (resisted timestamp name) =
    is_listed lists.bard_spells_that_need_resists (normalize_spell_name name) && same_count c resist
tells_of lists c (casting_begun name) = false

count_line-total :
    (c : Count) (lists : CounterLists) (timestamp : ℕ) (message : Text) (h : BardCount)
    → total c (count_line lists timestamp message h).sessions
      ≡ total c h.sessions + one_if (tells_of lists c (line_read timestamp message))
unfolding count_line
count_line-total c lists timestamp message h = elim (Option-cases (resist_of lists message)) [
  | inl e ↦ rw e (elim (Bool-cases (is_hit_line message)) [
    | inl b ↦
        rw b
          (attach-total c hit timestamp h lists (normalize_spell_name h.casting_spell_name) false)
    | inr b ↦ rw b (omega arith)
  ])
  | inr (name, e) ↦ rw e (attach-total c resist timestamp h lists name true)
]

count_resist-total :
    (c : Count) (lists : CounterLists) (timestamp : ℕ) (name : Text) (h : BardCount)
    → total c (count_resist lists timestamp name h).sessions
      ≡ total c h.sessions + one_if (tells_of lists c (resisted timestamp name))
unfolding count_resist
count_resist-total c lists timestamp name h =
    elim (Bool-cases (is_listed lists.bard_spells_that_need_resists (normalize_spell_name name))) [
      | inl b ↦ rw b (attach-total c resist timestamp h lists (normalize_spell_name name) true)
      | inr b ↦ rw b (omega arith)
    ]

session_eq_refl : (a : Session) → session_eq a a ≡ true
unfolding session_eq
session_eq_refl a = (is_yes_iff (Session-discrete a a)).1 refl

is_expired-session_eq :
    (now : ℕ) (a b : Session) → session_eq a b ≡ true → is_expired now a ≡ is_expired now b
unfolding session_eq
is_expired-session_eq now a b h = ap (is_expired now) ((is_yes_iff (Session-discrete a b)).0 h)

-- The removal of the sessions that are over never fails.
finalize_expired_lem :
    (now : ℕ) (h : BardCount)
    → finalize_expired now h
      ≡ some (
        record h { sessions = keep (λ s. not (is_expired now s)) h.sessions },
        keep (is_expired now) h.sessions,
      )
unfolding finalize_expired
finalize_expired_lem now h = ap (finalized (keep (is_expired now) h.sessions) h) (
    remove_each-keep session_eq (is_expired now) (is_expired-session_eq now) session_eq_refl
      h.sessions)

finalized-total :
    (c : Count) (now : ℕ) (ss : List Session)
    → total c (keep (is_expired now) ss) + total c (keep (λ s. not (is_expired now s)) ss)
      ≡ total c ss
finalized-total c now ss = total-keep c (is_expired now) ss

-- One event: it is handled, and what was pending and what it tells of is pending or put out.
handle-total :
    (c : Count) (lists : CounterLists) (e : Event) (h : BardCount)
    → (h' : BardCount) × (out : List Session) × (handle lists e h ≡ some (h', out))
      × (total c out + total c h'.sessions ≡ total c h.sessions + one_if (tells_of lists c e))
unfolding handle
handle-total c lists (line_read t m) h =
    let kept : BardCount = record h { sessions = keep (λ s. not (is_expired t s)) h.sessions } in
    (
      count_line lists t m kept,
      keep (is_expired t) h.sessions,
      rw (finalize_expired_lem t h) refl,
      omega (arith, count_line-total c lists t m kept, finalized-total c t h.sessions),
    )
handle-total c lists (resisted t name) h =
    let kept : BardCount = record h { sessions = keep (λ s. not (is_expired t s)) h.sessions } in
    (
      count_resist lists t name kept,
      keep (is_expired t) h.sessions,
      rw (finalize_expired_lem t h) refl,
      omega (arith, count_resist-total c lists t name kept, finalized-total c t h.sessions),
    )
handle-total c lists (casting_begun name) h =
    (record h { casting_spell_name = name }, [], refl, omega arith)

-- How many of the events tell of a hit, or of a resist.
abbrev pub told : CounterLists → Count → List Event → ℕ
told lists c [] = 0
told lists c (e ∷ es) = one_if (tells_of lists c e) + told lists c es

-- Any events are handled without an error. The summaries that they and a flush at the end put out
-- hold together as many hits as were pending before and as many again as lines told of one, however
-- the lines fell into sessions, and the same of the resists.
pub run-total :
    (c : Count) (lists : CounterLists) (es : List Event) (h : BardCount)
    → (h' : BardCount) × (out : List Session) × (run lists es h ≡ some (h', out))
      × (total c (out ++ (flush h').1) ≡ total c h.sessions + told lists c es)
unfolding run flush
run-total c lists [] h = (h, [], refl, omega arith)
run-total c lists (e ∷ es) h =
    let (h1, now, handled, sum_now) = handle-total c lists e h in
    let (h2, later, ran, sum_later) = run-total c lists es h1 in
    (
      h2,
      now ++ later,
      ap (follow (run lists es)) handled ∙ ap (then_more now) ran,
      ap (total c) (append_assoc now later h2.sessions)
          ∙ total-append c now (later ++ h2.sessions)
          ∙ omega (arith, sum_now, sum_later),
    )
