-- ===== src/Damage/Measured.antt =====
-- The numbers of an entity are those of its hits (core/dps.py): `FightEntity`.
use nparse_plus.Prelude.{
  ℕ, ◌≤◌, ◌≡◌, refl, sym, ap, subst, ◌∙◌, inl, inr, false, Option, none, some, List, [], ◌∷◌, ◌++◌,
  arith, All-append, All-mono, is_empty_list, max, Option-cases, if◌then◌else◌,
}
use nparse_plus.Damage.Entity.{
  Hit, FightEntity, Sweep, update_best_window, rescan_best_window, resume_best_window,
  update_trailing, adopt, add_damage, with_hit, measure, unless_dead,
}
use nparse_plus.Damage.Windows.{total, best_window, IsLate, Follows}
use nparse_plus.Damage.Sweeps.{total-append, sweep_all-best}
use nparse_plus.Damage.Carried.{
  highest_of, Carries, WasSwept, WasSwept-same, Carries-WasSwept, update-Carries,
  update-Carries_hit,
}

-- What holds of an entity that was hit, up to a time: its numbers are those of its hits.
pub record IsMeasured (now : ℕ) (e : FightEntity) : Type 0 where
  pub started : is_empty_list e.hits ≡ false
  pub followed : Follows 0 e.hits
  pub late : IsLate now e.hits
  pub totalled : e.total_damage ≡ total e.hits
  pub highest : e.highest_hit ≡ highest_of e.hits
  pub carries : Carries e.trailing_window e.hits e

pub IsMeasured-best :
    (now : ℕ) (e : FightEntity)
    → IsMeasured now e
    → e.best_window_damage ≡ best_window e.trailing_window e.hits
IsMeasured-best now e m =
    ap (λ (s : Sweep). s.best) m.carries.swept ∙ sweep_all-best e.trailing_window e.hits m.followed

-- An entity that is about to be hit: a new one, or one that was measured, over any window.
pub record IsReady (now : ℕ) (e : FightEntity) : Type 0 where
  pub followed : Follows 0 e.hits
  pub late : IsLate now e.hits
  pub totalled : e.total_damage ≡ total e.hits
  pub highest : e.highest_hit ≡ highest_of e.hits
  pub was_swept : WasSwept e.hits e

Follows-append :
    (t : ℕ) (hits : List Hit) (h : Hit)
    → Follows t hits
    → t ≤ h.time
    → IsLate h.time hits
    → Follows t (hits ++ h ∷ [])
Follows-append t [] h f le l = (le, tt)
Follows-append t (k ∷ hits) h f le l = (f.0, Follows-append k.time hits h f.1 l.0 l.1)

highest_of-append :
    (hits : List Hit) (h : Hit) → highest_of (hits ++ h ∷ []) ≡ max (highest_of hits) h.damage
highest_of-append [] h = omega arith
highest_of-append (k ∷ hits) h = omega (arith, highest_of-append hits h)

-- What an update of the best window leaves as it is.
pub record IsUnmoved (e e' : FightEntity) : Type 0 where
  pub hits : e'.hits ≡ e.hits
  pub total_damage : e'.total_damage ≡ e.total_damage
  pub highest_hit : e'.highest_hit ≡ e.highest_hit
  pub trailing_window : e'.trailing_window ≡ e.trailing_window
  pub death_time : e'.death_time ≡ e.death_time
  pub trailing_damage : e'.trailing_damage ≡ e.trailing_damage

pub update-IsUnmoved : (e : FightEntity) → IsUnmoved e (update_best_window e)
unfolding update_best_window rescan_best_window resume_best_window
update-IsUnmoved e = ground arith

-- An update measures an entity whose sums are right.
updated :
    (now : ℕ) (e : FightEntity)
    → is_empty_list e.hits ≡ false
    → Follows 0 e.hits
    → IsLate now e.hits
    → e.total_damage ≡ total e.hits
    → e.highest_hit ≡ highest_of e.hits
    → Carries e.trailing_window e.hits (update_best_window e)
    → IsMeasured now (update_best_window e)
updated now e s f l t h c =
    let u = update-IsUnmoved e in
    record {
      started = ap is_empty_list u.hits ∙ s;
      followed = subst (Follows 0) (sym u.hits) f;
      late = subst (IsLate now) (sym u.hits) l;
      totalled = u.total_damage ∙ t ∙ ap total (sym u.hits);
      highest = u.highest_hit ∙ h ∙ ap highest_of (sym u.hits);
      carries =
          subst (λ w. Carries w (update_best_window e).hits (update_best_window e))
            (sym u.trailing_window)
            (subst (λ l. Carries e.trailing_window l (update_best_window e)) (sym u.hits) c);
    }

not_empty : (hits : List Hit) (h : Hit) → is_empty_list (hits ++ h ∷ []) ≡ false
not_empty [] h = refl
not_empty (k ∷ hits) h = refl

pub measured :
    (before now : ℕ) (e : FightEntity)
    → is_empty_list e.hits ≡ false
    → Follows 0 e.hits
    → IsLate before e.hits
    → e.total_damage ≡ total e.hits
    → e.highest_hit ≡ highest_of e.hits
    → ((d : ℕ)
        → Carries e.trailing_window e.hits (update_best_window (record e { trailing_damage = d })))
    → IsMeasured before (measure now e)
unfolding measure
measured before now e s f l t h c =
    updated before (record e { trailing_damage = _ }) s f l t h (c _)

pub update_trailing-live :
    (now : ℕ) (window : Option ℕ) (e : FightEntity)
    → e.death_time ≡ none
    → is_empty_list e.hits ≡ false
    → update_trailing now window e ≡ measure now (adopt window e)
unfolding update_trailing
update_trailing-live now window e alive s =
    ap
      (λ o.
        unless_dead o e
          (if is_empty_list e.hits then adopt window e else measure now (adopt window e)))
      alive
    ∙ ap (λ b. if b then adopt window e else measure now (adopt window e)) s

pub add_damage-IsMeasured :
    (now timestamp damage : ℕ) (e : FightEntity)
    → now ≤ timestamp
    → e.death_time ≡ none
    → IsReady now e
    → IsMeasured timestamp (add_damage timestamp damage e)
unfolding add_damage
add_damage-IsMeasured now timestamp damage e le alive r =
    let h : Hit = record { time = timestamp; damage = damage } in
    let e' = with_hit timestamp damage e in
    let late =
      All-mono (λ k. k.time ≤ now) (λ k. k.time ≤ timestamp) (λ k p. omega arith) e.hits r.late in
    let s = not_empty e.hits h in
    subst (IsMeasured timestamp) (sym (update_trailing-live timestamp none e' alive s)) (
      measured timestamp timestamp e' s (Follows-append 0 e.hits h r.followed (omega arith) late)
        (All-append (λ k. k.time ≤ timestamp) e.hits (h ∷ []) late (omega arith, tt))
        (omega (arith, total-append e.hits (h ∷ []), r.totalled))
        (ground (arith, highest_of-append e.hits h, r.highest))
        (λ d.
          update-Carries_hit (record e' { trailing_damage = d }) e.hits h refl
            (WasSwept-same e.hits e (record e' { trailing_damage = d }) refl refl refl
              r.was_swept)))

remeasured :
    (before now : ℕ) (window : Option ℕ) (e : FightEntity)
    → IsMeasured before e
    → IsMeasured before (measure now (adopt window e))
remeasured before now none e m =
    measured before now e m.started m.followed m.late m.totalled m.highest (λ d.
      update-Carries (record e { trailing_damage = d })
        (WasSwept-same e.hits e (record e { trailing_damage = d }) refl refl refl
          (Carries-WasSwept e.trailing_window e.hits e m.carries)))
remeasured before now (some w) e m =
    measured before now (record e { trailing_window = w }) m.started m.followed m.late m.totalled
      m.highest
      (λ d.
        update-Carries (record e { trailing_window = w; trailing_damage = d })
          (WasSwept-same e.hits e (record e { trailing_window = w; trailing_damage = d }) refl refl
            refl (Carries-WasSwept e.trailing_window e.hits e m.carries)))

update_trailing-dead :
    (now : ℕ) (window : Option ℕ) (e : FightEntity) (t : ℕ)
    → e.death_time ≡ some t
    → update_trailing now window e ≡ e
unfolding update_trailing
update_trailing-dead now window e t dead =
    ap
      (λ o.
        unless_dead o e
          (if is_empty_list e.hits then adopt window e else measure now (adopt window e)))
      dead

pub update_trailing-IsMeasured :
    (before now : ℕ) (window : Option ℕ) (e : FightEntity)
    → IsMeasured before e
    → IsMeasured before (update_trailing now window e)
update_trailing-IsMeasured before now window e m = elim (Option-cases e.death_time) [
  | inr (t, dead) ↦ subst (IsMeasured before) (sym (update_trailing-dead now window e t dead)) m
  | inl alive ↦
      subst (IsMeasured before) (sym (update_trailing-live now window e alive m.started))
        (remeasured before now window e m)
]
