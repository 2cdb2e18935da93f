-- ===== src/Driver/Watches.antt =====
-- What one run does to the watches of the ticks (core/driver.py).
use nparse_plus.Prelude.{
  ℕ, ◌+◌, ◌-◌, ◌≡◌, refl, ap, sym, subst, ◌∙◌, Bool, true, false, not, Option, none, some, List, [],
  ◌∷◌, if◌then◌else◌, ◌==◌, ltb, one_if, arith, Bool-cases, Option-cases, inl, inr,
}
use nparse_plus.Driver.Ticks.{
  tick_budget, SupervisedTick, Ticks, watch_of, set_watch, pop_watch, without_tick, remove_tick_now,
  with_breaches, drop_tick, record_tick_duration, timed,
}

abbrev pub breaches_of : Option SupervisedTick → Option ℕ
breaches_of none = none
breaches_of (some w) = some w.breaches

-- The breaches of a callback that is supervised.
abbrev pub seen : ℕ → Ticks → Option ℕ
seen fn s = breaches_of (watch_of fn s.supervised)

-- How often a callback is on the list.
abbrev pub listed : ℕ → List ℕ → ℕ
listed fn [] = 0
listed fn (k ∷ ks) = one_if (k == fn) + listed fn ks

abbrev pub is_slow : ℕ → Bool
is_slow elapsed = not (ltb elapsed tick_budget)

-- What one run makes of the breaches.
abbrev pub after_run : ℕ → Option ℕ → Option ℕ
after_run elapsed none = none
after_run elapsed (some n) =
    if is_slow elapsed then (if ltb (n + 1) 2 then some (n + 1) else none) else some 0

abbrev pub after_runs : List ℕ → Option ℕ → Option ℕ
after_runs [] b = b
after_runs (d ∷ ds) b = after_runs ds (after_run d b)

pub watch_of-set_watch :
    (fn k : ℕ) (w : SupervisedTick) (ws : List (ℕ × SupervisedTick))
    → watch_of fn (set_watch k w ws) ≡ (if k == fn then some w else watch_of fn ws)
unfolding watch_of set_watch
watch_of-set_watch fn k w [] = ground arith
watch_of-set_watch fn k w ((j, v) ∷ ws) = ground (arith, watch_of-set_watch fn k w ws)

pub watch_of-pop_watch :
    (fn k : ℕ) (ws : List (ℕ × SupervisedTick))
    → watch_of fn (pop_watch k ws) ≡ (if k == fn then none else watch_of fn ws)
unfolding watch_of pop_watch
watch_of-pop_watch fn k [] = ground arith
watch_of-pop_watch fn k ((j, v) ∷ ws) = ground (arith, watch_of-pop_watch fn k ws)

pub listed-without_tick :
    (fn k : ℕ) (ks : List ℕ)
    → listed fn (without_tick k ks) ≡ (if k == fn then listed fn ks - 1 else listed fn ks)
unfolding without_tick
listed-without_tick fn k [] = ground arith
listed-without_tick fn k (j ∷ ks) = ground (arith, listed-without_tick fn k ks)

abbrev pub is_some? {ℓ} : {A : Type ℓ} → Option A → Bool
is_some? none = false
is_some? (some a) = true

-- Supervised and on the list, or neither.
abbrev pub IsListed : ℕ → Ticks → Type 0
IsListed fn s = listed fn s.on_tick ≡ one_if (is_some? (watch_of fn s.supervised))

-- A watch of `fn` itself, where the callback that ran is `fn`.
abbrev IsWatch : ℕ → SupervisedTick → Ticks → Type 0
IsWatch k w s = watch_of k s.supervised ≡ some w

-- What a callback's own runs, and those of others, do to its breaches and its place on the list.
abbrev Follows : ℕ → ℕ → ℕ → Ticks → Ticks → Type 0
Follows fn k elapsed s s' =
    (seen fn s' ≡ (if k == fn then after_run elapsed (seen fn s) else seen fn s)) × IsListed fn s'

same_fn : (fn k : ℕ) → (k == fn) ≡ true → k ≡ fn
same_fn fn k h = ground (arith, h)

with_breaches-own :
    (fn n : ℕ) (w v : SupervisedTick) (s : Ticks)
    → IsWatch fn v s
    → IsListed fn s
    → (seen fn (with_breaches fn n w s) ≡ some n) × IsListed fn (with_breaches fn n w s)
with_breaches-own fn n w v s e h =
    let set = watch_of-set_watch fn fn (record w { breaches = n }) s.supervised in
    let same : (fn == fn) ≡ true = ground arith in rw (set, same) (refl, rw e at h)

with_breaches-other :
    (fn k n : ℕ) (w : SupervisedTick) (s : Ticks)
    → (k == fn) ≡ false
    → IsListed fn s
    → (seen fn (with_breaches k n w s) ≡ seen fn s) × IsListed fn (with_breaches k n w s)
with_breaches-other fn k n w s e h =
    rw (watch_of-set_watch fn k (record w { breaches = n }) s.supervised, e) (refl, h)

drop_tick-rest :
    (fn k : ℕ) (w : SupervisedTick) (s : Ticks)
    → (watch_of fn (drop_tick k w s).supervised
        ≡ (if k == fn then none else watch_of fn s.supervised))
      × (listed fn (drop_tick k w s).on_tick
          ≡ (if k == fn then listed fn s.on_tick - 1 else listed fn s.on_tick))
unfolding remove_tick_now
drop_tick-rest fn k w s = elim (Bool-cases w.has_on_dropped) [
  | inl e ↦ rw e (watch_of-pop_watch fn k s.supervised, listed-without_tick fn k s.on_tick)
  | inr e ↦ rw e (watch_of-pop_watch fn k s.supervised, listed-without_tick fn k s.on_tick)
]

record-own :
    (fn elapsed : ℕ) (w : SupervisedTick) (s : Ticks)
    → IsWatch fn w s
    → IsListed fn s
    → (seen fn (record_tick_duration fn w elapsed s) ≡ after_run elapsed (some w.breaches))
      × IsListed fn (record_tick_duration fn w elapsed s)
unfolding record_tick_duration
record-own fn elapsed w s e h = elim (Bool-cases (ltb elapsed tick_budget)) [
  | inl b ↦ rw b (with_breaches-own fn 0 w w s e h)
  | inr b ↦ elim (Bool-cases (ltb (w.breaches + 1) 2)) [
    | inl c ↦ rw (b, c) (with_breaches-own fn (w.breaches + 1) w w s e h)
    | inr c ↦
        let (gone, off) = drop_tick-rest fn fn w s in
        let same : (fn == fn) ≡ true = ground arith in
        let once : listed fn s.on_tick ≡ 1 = h ∙ ap (λ o. one_if (is_some? o)) e in
        rw (b, c) (rw (gone, off, same) (refl, omega (arith, once)))
  ]
]

record-other :
    (fn k elapsed : ℕ) (w : SupervisedTick) (s : Ticks)
    → (k == fn) ≡ false
    → IsListed fn s
    → (seen fn (record_tick_duration k w elapsed s) ≡ seen fn s)
      × IsListed fn (record_tick_duration k w elapsed s)
unfolding record_tick_duration
record-other fn k elapsed w s e h = elim (Bool-cases (ltb elapsed tick_budget)) [
  | inl b ↦ rw b (with_breaches-other fn k 0 w s e h)
  | inr b ↦ elim (Bool-cases (ltb (w.breaches + 1) 2)) [
    | inl c ↦ rw (b, c) (with_breaches-other fn k (w.breaches + 1) w s e h)
    | inr c ↦ let (stays, on) = drop_tick-rest fn k w s in rw (b, c) (rw (stays, on, e) (refl, h))
  ]
]

pub timed-Follows :
    (fn k elapsed : ℕ) (s : Ticks)
    → IsListed fn s
    → Follows fn k elapsed s (timed k elapsed s (watch_of k s.supervised))
timed-Follows fn k elapsed s h = elim (Option-cases (watch_of k s.supervised)) [
  | inl e ↦ elim (Bool-cases (k == fn)) [
    | inl b ↦
        let unwatched : seen fn s ≡ none =
          ap (λ j. breaches_of (watch_of j s.supervised)) (sym (same_fn fn k b))
          ∙ ap breaches_of e in
        rw (e, b) (rw unwatched refl, h)
    | inr b ↦ rw (e, b) (refl, h)
  ]
  | inr (w, e) ↦ elim (Bool-cases (k == fn)) [
    | inl b ↦
        let own : watch_of fn s.supervised ≡ some w =
          ap (λ j. watch_of j s.supervised) (sym (same_fn fn k b)) ∙ e in
        let (breaches, on) = record-own fn elapsed w s own h in
        rw (e, b)
          (rw own (
            subst
              (λ j.
                (seen fn (record_tick_duration j w elapsed s) ≡ after_run elapsed (some w.breaches))
                × IsListed fn (record_tick_duration j w elapsed s))
              (sym (same_fn fn k b)) (breaches, on)))
    | inr b ↦ rw (e, b) (record-other fn k elapsed w s b h)
  ]
]
