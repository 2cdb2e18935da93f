-- ===== src/DeathLoop/History.antt =====
-- The history of events as the alarm should read it: the deaths since the last sign of life, and
-- the loop that rolls old ones off as a filter on them.
use nparse_plus.Prelude.{
  ℕ, ◌+◌, ◌≤◌, ◌≡◌, refl, sym, ap, Bool, true, false, ◌&&◌, not, Option, none, some, List, [], ◌∷◌,
  ◌++◌, keep, keep-All, All, All-append, All-mono, arith, if◌then◌else◌, ltb, Bool-cases, inl, inr,
}
use nparse_plus.Text.{text_eq}
use nparse_plus.DeathLoop.{roll_off, you, Event, slain, damage, begin_casting, comms}

-- The times of one's own deaths since the last sign of life (one's own melee, cast or line of
-- chat), oldest first; a history has its last event first.
abbrev pub deaths : List Event → List ℕ
deaths [] = []
deaths (slain t victim ∷ earlier) =
    let before = deaths earlier in if text_eq victim you then before ++ t ∷ [] else before
deaths (damage t attacker ∷ earlier) = if text_eq attacker you then [] else deaths earlier
deaths (begin_casting ∷ earlier) = []
deaths (comms t on_channel sender ∷ earlier) =
    if on_channel && text_eq sender you then [] else deaths earlier

-- A death lies in the window of a time.
abbrev pub within : ℕ → ℕ → ℕ → Bool
within window now t = not (ltb (t + window) now)

abbrev pub time_of : Event → Option ℕ
time_of (slain t victim) = some t
time_of (damage t attacker) = some t
time_of begin_casting = none
time_of (comms t on_channel sender) = some t

-- The history ends by a time, and its own times do not run backwards.
abbrev pub Before : ℕ → Option ℕ → (ℕ → Type 0) → Type 0
Before now none rest = rest now
Before now (some t) rest = (t ≤ now) × rest t

abbrev pub InOrder : ℕ → List Event → Type 0
InOrder now [] = Unit
InOrder now (e ∷ earlier) = Before now (time_of e) (λ t. InOrder t earlier)

-- Rolling off once, and again later, is rolling off later.
module _ (window now later : ℕ) (le : now ≤ later) where
  pub roll_off_twice :
      (ts us : List ℕ)
      → roll_off later window (roll_off now window ts ++ us) ≡ roll_off later window (ts ++ us)
  unfolding roll_off
  roll_off_twice [] us = refl
  roll_off_twice (t ∷ ts) us = ground (arith, roll_off_twice ts us)

abbrev pub Ascending : List ℕ → Type 0
Ascending [] = Unit
Ascending (t ∷ ts) = All (λ u. t ≤ u) ts × Ascending ts

-- On ascending times the loop is a filter.
pub roll_off-keep :
    (window now : ℕ) (ts : List ℕ)
    → Ascending ts
    → roll_off now window ts ≡ keep (within window now) ts
unfolding roll_off
roll_off-keep window now [] a = refl
roll_off-keep window now (t ∷ ts) a = elim (Bool-cases (ltb (t + window) now)) [
  | inl e ↦ rw e (roll_off-keep window now ts a.1)
  | inr e ↦ rw e (
      ap (◌∷◌ t) (
        sym (
          keep-All (within window now) ts
            (All-mono _ _ (λ (u : ℕ) (le : t ≤ u). ground arith) ts a.0))))
]

Ascending-append :
    (ts : List ℕ) (u : ℕ) → Ascending ts → All (λ t. t ≤ u) ts → Ascending (ts ++ u ∷ [])
Ascending-append [] u a h = (tt, tt)
Ascending-append (t ∷ ts) u a h =
    (All-append (λ v. t ≤ v) ts (u ∷ []) a.0 (h.0, tt), Ascending-append ts u a.1 h.1)

abbrev pub IsGood : ℕ → List ℕ → Type 0
IsGood now ts = Ascending ts × All (λ t. t ≤ now) ts

IsGood-mono : (t now : ℕ) (ts : List ℕ) → t ≤ now → IsGood t ts → IsGood now ts
IsGood-mono t now ts le g = (g.0, All-mono _ _ (λ (u : ℕ) (h : u ≤ t). omega arith) ts g.1)

IsGood-if :
    (now : ℕ) (b : Bool) (ts us : List ℕ)
    → IsGood now ts
    → IsGood now us
    → IsGood now (if b then ts else us)
IsGood-if now true ts us g h = g
IsGood-if now false ts us g h = h

-- The deaths of a history in order ascend up to its end.
pub deaths-IsGood :
    (now : ℕ) (history : List Event) → InOrder now history → IsGood now (deaths history)
deaths-IsGood now [] o = (tt, tt)
deaths-IsGood now (slain t victim ∷ earlier) o =
    let g = deaths-IsGood t earlier o.1 in
    IsGood-mono t now _ o.0 (
      IsGood-if t (text_eq victim you) (deaths earlier ++ t ∷ []) (deaths earlier)
        (
          Ascending-append (deaths earlier) t g.0 g.1,
          All-append (λ u. u ≤ t) (deaths earlier) (t ∷ []) g.1 (omega arith, tt),
        )
        g)
deaths-IsGood now (damage t attacker ∷ earlier) o =
    IsGood-mono t now _ o.0 (
      IsGood-if t (text_eq attacker you) [] (deaths earlier) (tt, tt) (deaths-IsGood t earlier o.1))
deaths-IsGood now (begin_casting ∷ earlier) o = (tt, tt)
deaths-IsGood now (comms t on_channel sender ∷ earlier) o = IsGood-mono t now _ o.0 (
    IsGood-if t (on_channel && text_eq sender you) [] (deaths earlier) (tt, tt)
      (deaths-IsGood t earlier o.1))
