-- ===== src/Damage/Readings.antt =====
-- The trailing window and the session's numbers (core/dps.py): `update_trailing` and `PlayerDamage`.
use nparse_plus.Prelude.{
  ℕ, ◌+◌, ◌≤◌, ◌≡◌, refl, ap, ◌∙◌, inl, inr, Bool, true, false, none, some, List, [], ◌∷◌, ◌++◌,
  arith, is_empty_list, Bool-cases, keep, keep_none, keep-append, All-append, All, All-mono, ltb,
  leb,
}
use nparse_plus.Damage.Entity.{Hit, FightEntity, measure, update_trailing, sum_recent, reversed}
use nparse_plus.Damage.Windows.{total, Follows}
use nparse_plus.Damage.Sweeps.{total-append}
use nparse_plus.Damage.Measured.{update-IsUnmoved, update_trailing-live}

-- A hit that is at most a window old.
abbrev pub is_recent : ℕ → ℕ → Hit → Bool
is_recent window now h = leb now (h.time + window)

-- The hits, newest first, each no later than the one before it.
abbrev Recedes : List Hit → Type 0
Recedes [] = Unit
Recedes (h ∷ hs) = All (λ k. k.time ≤ h.time) hs × Recedes hs

older_none :
    (window now : ℕ) (h : Hit) (hs : List Hit)
    → ltb (h.time + window) now ≡ true
    → All (λ k. k.time ≤ h.time) hs
    → keep (is_recent window now) hs ≡ []
older_none window now h hs e a = keep_none (is_recent window now) hs (
    All-mono (λ k. k.time ≤ h.time) (λ k. is_recent window now k ≡ false) (λ k le. ground arith) hs
      a)

sum_recent-Recedes :
    (window now : ℕ) (hs : List Hit)
    → Recedes hs
    → sum_recent window now hs ≡ total (keep (is_recent window now) hs)
unfolding sum_recent
sum_recent-Recedes window now [] r = refl
sum_recent-Recedes window now (h ∷ hs) r = elim (Bool-cases (ltb (h.time + window) now)) [
  | inl e ↦
      let old : is_recent window now h ≡ false = ground arith in
      rw (e, old) (rw (older_none window now h hs e r.0) refl)
  | inr e ↦
      let recent : is_recent window now h ≡ true = ground arith in
      rw (e, recent) (ap (λ n. h.damage + n) (sum_recent-Recedes window now hs r.1))
]

total-reversed : (p : Hit → Bool) (hs : List Hit) → total (keep p (reversed hs)) ≡ total (keep p hs)
unfolding reversed
total-reversed p [] = refl
total-reversed p (h ∷ hs) =
    ap total (keep-append p (reversed hs) (h ∷ []))
    ∙ total-append (keep p (reversed hs)) (keep p (h ∷ []))
    ∙ (elim (Bool-cases (p h)) [
      | inl e ↦ rw e (omega (arith, total-reversed p hs))
      | inr e ↦ rw e (omega (arith, total-reversed p hs))
    ])

All-reversed {κ} : (P : Hit → Type κ) (hs : List Hit) → All P hs → All P (reversed hs)
unfolding reversed
All-reversed P [] a = tt
All-reversed P (h ∷ hs) a = All-append P (reversed hs) (h ∷ []) (All-reversed P hs a.1) (a.0, tt)

Follows-All : (t : ℕ) (hs : List Hit) → Follows t hs → All (λ k. t ≤ k.time) hs
Follows-All t [] f = tt
Follows-All t (h ∷ hs) f = (
  f.0,
  All-mono (λ k. h.time ≤ k.time) (λ k. t ≤ k.time) (λ k le. omega arith) hs
      (Follows-All h.time hs f.1),
)

Recedes-append :
    (hs : List Hit) (h : Hit) → Recedes hs → All (λ k. h.time ≤ k.time) hs → Recedes (hs ++ h ∷ [])
Recedes-append [] h r a = (tt, tt)
Recedes-append (k ∷ hs) h r a =
    (All-append (λ x. x.time ≤ k.time) hs (h ∷ []) r.0 (a.0, tt), Recedes-append hs h r.1 a.1)

reversed-Recedes : (t : ℕ) (hs : List Hit) → Follows t hs → Recedes (reversed hs)
unfolding reversed
reversed-Recedes t [] f = tt
reversed-Recedes t (h ∷ hs) f =
    Recedes-append (reversed hs) h (reversed-Recedes h.time hs f.1)
      (All-reversed (λ k. h.time ≤ k.time) hs (Follows-All h.time hs f.1))

-- The trailing damage of a live row, after an update, is the sum of its hits that are at most a window
-- old, where the hits came in the order of time.
pub update_trailing-sum :
    (now window : ℕ) (e : FightEntity)
    → Follows 0 e.hits
    → e.death_time ≡ none
    → is_empty_list e.hits ≡ false
    → (update_trailing now (some window) e).trailing_damage
      ≡ total (keep (is_recent window now) e.hits)
unfolding measure
update_trailing-sum now window e f alive s =
    ap (λ (x : FightEntity). x.trailing_damage) (update_trailing-live now (some window) e alive s)
    ∙ (update-IsUnmoved (record e {
      trailing_window = window;
      trailing_damage = sum_recent window now (reversed e.hits);
    })).trailing_damage
    ∙ sum_recent-Recedes window now (reversed e.hits) (reversed-Recedes 0 e.hits f)
    ∙ total-reversed (is_recent window now) e.hits
