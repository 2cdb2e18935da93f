-- ===== src/Damage/Carried.antt =====
-- The best window is carried from hit to hit as a sweep over all hits would find it (core/dps.py):
-- `_update_best_window` against `_rescan_best_window`.
use nparse_plus.Prelude.{
  ℕ, ◌+◌, ◌≡◌, refl, sym, ap, subst, ◌∙◌, ◌⊎◌, inl, inr, true, false, Option, none, some, List, [],
  ◌∷◌, ◌++◌, arith, append_assoc, length, length-append, max, ◌==◌, Bool-cases,
}
use nparse_plus.Damage.Entity.{
  Hit, FightEntity, last_hit, Sweep, sweep_hit, sweep_all, is_span, rescan_best_window,
  resume_best_window, update_best_window,
}
use nparse_plus.Damage.Sweeps.{start}

-- The highest of the hits.
abbrev pub highest_of : List Hit → ℕ
highest_of [] = 0
highest_of (h ∷ hs) = max h.damage (highest_of hs)

sweep_all-append :
    (window : ℕ) (seen xs : List Hit) (h : Hit) (s : Sweep)
    → sweep_all window seen (xs ++ h ∷ []) s
      ≡ sweep_hit window (seen ++ (xs ++ h ∷ [])) h (sweep_all window seen xs s)
unfolding sweep_all
sweep_all-append window seen [] h s = refl
sweep_all-append window seen (x ∷ xs) h s =
    sweep_all-append window (seen ++ x ∷ []) xs h (sweep_hit window (seen ++ x ∷ []) x s)
    ∙ ap
        (λ l.
          sweep_hit window l h
            (sweep_all window (seen ++ x ∷ []) xs (sweep_hit window (seen ++ x ∷ []) x s)))
        (append_assoc seen (x ∷ []) (xs ++ h ∷ []))

last_hit-append : (xs : List Hit) (h : Hit) → last_hit (xs ++ h ∷ []) ≡ some h
unfolding last_hit
last_hit-append [] h = refl
last_hit-append (x ∷ []) h = refl
last_hit-append (x ∷ y ∷ xs) h = last_hit-append (y ∷ xs) h

-- What an entity carries of a sweep.
abbrev pub carried : FightEntity → Sweep
carried e = record { left = e.best_left; sum = e.best_sum; best = e.best_window_damage }

-- The entity carries the sweep of the hits over a span.
pub record Carries (span : ℕ) (hits : List Hit) (e : FightEntity) : Type 0 where
  pub spanned : e.best_window_span ≡ some span
  pub counted : e.best_window_hits ≡ length hits
  pub swept : carried e ≡ sweep_all span [] hits start

rescan-Carries :
    (e : FightEntity)
    → is_span e.best_window_span e.trailing_window ≡ false
    → Carries e.trailing_window e.hits (rescan_best_window e)
unfolding rescan_best_window
rescan-Carries e h = rw h (record { spanned = refl; counted = refl; swept = refl })

is_span-same : (o : Option ℕ) (w : ℕ) → is_span o w ≡ true → o ≡ some w
is_span-same none w h = cc
is_span-same (some s) w h = ground arith

-- An entity that was never swept, or carries a sweep of the hits over some span.
abbrev pub WasSwept : List Hit → FightEntity → Type 0
WasSwept hits e = (e.best_window_span ≡ none) ⊎ ((span : ℕ) × Carries span hits e)

pub Carries-WasSwept :
    (span : ℕ) (hits : List Hit) (e : FightEntity) → Carries span hits e → WasSwept hits e
Carries-WasSwept span hits e c = inr (span, c)

-- It rests on what the entity carries alone.
pub WasSwept-same :
    (hits : List Hit) (e e' : FightEntity)
    → e'.best_window_span ≡ e.best_window_span
    → e'.best_window_hits ≡ e.best_window_hits
    → carried e' ≡ carried e
    → WasSwept hits e
    → WasSwept hits e'
WasSwept-same hits e e' a b c (inl n) = inl (a ∙ n)
WasSwept-same hits e e' a b c (inr (span, d)) =
    inr (span, record { spanned = a ∙ d.spanned; counted = b ∙ d.counted; swept = c ∙ d.swept })

-- The three ways of the update.
module _ (e : FightEntity) where
  update-rescan :
      is_span e.best_window_span e.trailing_window ≡ false
      → update_best_window e ≡ rescan_best_window e
  unfolding update_best_window
  update-rescan h = elim (Bool-cases (length e.hits == e.best_window_hits)) [
    | inl f ↦ rw (f, h) refl
    | inr f ↦ rw (f, h) refl
  ]

  update-same :
      is_span e.best_window_span e.trailing_window ≡ true
      → e.best_window_hits ≡ length e.hits
      → update_best_window e ≡ e
  unfolding update_best_window
  update-same h c =
      let f : (length e.hits == e.best_window_hits) ≡ true = ground arith in rw (f, h) refl

  update-resume :
      (h : Hit)
      → is_span e.best_window_span e.trailing_window ≡ true
      → length e.hits ≡ e.best_window_hits + 1
      → last_hit e.hits ≡ some h
      → update_best_window e ≡ resume_best_window h e
  unfolding update_best_window
  update-resume h s c l =
      let f : (length e.hits == e.best_window_hits) ≡ false = ground arith in
      let g : (length e.hits == e.best_window_hits + 1) ≡ true = ground arith in
      rw (f, s, g, l) refl

-- A span that is not the window is swept again, and so is an entity that never was swept.
Carries-span :
    (span : ℕ) (hits : List Hit) (e : FightEntity)
    → Carries span hits e
    → is_span e.best_window_span e.trailing_window ≡ true
    → span ≡ e.trailing_window
Carries-span span hits e c h =
    let same = sym c.spanned ∙ is_span-same e.best_window_span e.trailing_window h in cc

not_spanned : (o : Option ℕ) (w : ℕ) → o ≡ none → is_span o w ≡ false
not_spanned none w e = refl
not_spanned (some s) w e = cc

rescanned :
    (e : FightEntity)
    → is_span e.best_window_span e.trailing_window ≡ false
    → Carries e.trailing_window e.hits (update_best_window e)
rescanned e h = rw (update-rescan e h) (rescan-Carries e h)

-- No hit came: only a new window asks for a new sweep.
pub update-Carries :
    (e : FightEntity) → WasSwept e.hits e → Carries e.trailing_window e.hits (update_best_window e)
update-Carries e (inl n) = rescanned e (not_spanned _ _ n)
update-Carries e (inr (span, c)) =
    elim (Bool-cases (is_span e.best_window_span e.trailing_window)) [
      | inl s ↦
          rw (update-same e s c.counted)
            (subst (λ w. Carries w e.hits e) (Carries-span span e.hits e c s) c)
      | inr s ↦ rescanned e s
    ]

resume-Carries :
    (e : FightEntity) (hits : List Hit) (h : Hit)
    → e.hits ≡ hits ++ h ∷ []
    → Carries e.trailing_window hits e
    → Carries e.trailing_window e.hits (resume_best_window h e)
unfolding resume_best_window
resume-Carries e hits h eq c = record {
  spanned = c.spanned;
  counted = refl;
  swept =
      ap (λ s. sweep_hit e.trailing_window e.hits h s) c.swept
      ∙ ap (λ l. sweep_hit e.trailing_window l h (sweep_all e.trailing_window [] hits start)) eq
      ∙ sym (sweep_all-append e.trailing_window [] hits h start)
      ∙ ap (λ l. sweep_all e.trailing_window [] l start) (sym eq);
}

-- One hit came.
pub update-Carries_hit :
    (e : FightEntity) (hits : List Hit) (h : Hit)
    → e.hits ≡ hits ++ h ∷ []
    → WasSwept hits e
    → Carries e.trailing_window e.hits (update_best_window e)
update-Carries_hit e hits h eq (inl n) = rescanned e (not_spanned _ _ n)
update-Carries_hit e hits h eq (inr (span, c)) =
    elim (Bool-cases (is_span e.best_window_span e.trailing_window)) [
      | inl s ↦
          rw
            (update-resume e h s
              (ap length eq ∙ length-append hits (h ∷ []) ∙ ap (λ n. n + 1) (sym c.counted))
              (ap last_hit eq ∙ last_hit-append hits h))
            (resume-Carries e hits h eq
              (subst (λ w. Carries w hits e) (Carries-span span hits e c s) c))
      | inr s ↦ rescanned e s
    ]
