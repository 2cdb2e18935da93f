-- ===== src/Sessions/RespawnRows.antt =====
-- The respawn timers of the window beside the rows of one's own: the restores of each leave the
-- other alone.
use nparse_plus.Prelude.{
  ℕ, ◌+◌, ◌≡◌, refl, sym, ap, ◌∙◌, Bool, true, false, not, Option, none, some, List, [], ◌∷◌, ◌++◌,
  arith, if◌then◌else◌, Bool-cases, Option-cases, inl, inr, All, collect, collect-none,
  collect-some, collect-append, append-nil, keep,
}
use nparse_plus.Text.{Text, name_eq}
use nparse_plus.Timers.Rows.{Row, Kind, Countdown, TimerFields, timer_row, validate}
use nparse_plus.Timers.Service.{Timers}
use nparse_plus.Timers.Removals.{retain, remove_group}
use nparse_plus.Timers.Persistence.{RespawnTimerSnapshot}
use nparse_plus.Timers.Restore.{
  restored_row, degraded, respawn_rows, restore_respawn_timers, append_restored,
}
use nparse_plus.Sessions.Alone.{collect_nothing}

pub remove_group-rows :
    (group : Text) (s : Timers)
    → (remove_group group s).0.rows ≡ keep (λ r. not (name_eq r.group group)) s.rows
unfolding remove_group retain
remove_group-rows group s = ground arith

abbrev respawned : Timers → List Row → Bool → Timers × Bool
respawned s rows raised =
    if raised then (record s { rows = s.rows ++ rows }, true) else (append_restored rows s, false)

respawned-rows :
    (s : Timers) (rows : List Row) (raised : Bool)
    → (respawned s rows raised).0.rows ≡ s.rows ++ rows
respawned-rows s rows true = refl
respawned-rows s [] false = sym (append-nil _)
respawned-rows s (r ∷ rows) false = refl

module _ {ℓ} {B : Type ℓ} (f : Row → Option B) where
  -- Rows that leave take what is saved of them along.
  pub collect-keep_nothing :
      (p : Row → Bool) (rows : List Row) → collect f rows ≡ [] → collect f (keep p rows) ≡ []
  collect-keep_nothing p [] h = refl
  collect-keep_nothing p (r ∷ rows) h = elim (Option-cases (f r)) [
    | inl e ↦
        let ih = collect-keep_nothing p rows (sym (collect-none f r rows e) ∙ h) in
        elim (Bool-cases (p r)) [
          | inl d ↦ rw d (collect-none f r (keep p rows) e ∙ ih)
          | inr d ↦ rw d ih
        ]
    | inr (y, e) ↦ cc (collect-some f r y rows e)
  ]

  pub collect-kept :
      (p : Row → Bool) (rows : List Row)
      → ((r : Row) → p r ≡ true → f r ≡ none)
      → collect f (keep p rows) ≡ []
  collect-kept p [] h = refl
  collect-kept p (r ∷ rows) h = elim (Bool-cases (p r)) [
    | inl e ↦ rw e (collect-none f r _ (h r e) ∙ collect-kept p rows h)
    | inr e ↦ rw e (collect-kept p rows h)
  ]

  no_respawns_step :
      (group : Text) (now i : ℕ) (name : Text) (b : Bool) (o : Option Kind) (rest : List Row × Bool)
      → ((k : Kind) → o ≡ some k → f (restored_row i name group now k) ≡ none)
      → All (λ r. f r ≡ none) rest.0
      → All
          (λ r. f r ≡ none)
          (if b then rest else (elim o [
            | none ↦ ([], true)
            | some kind ↦ (restored_row i name group now kind ∷ rest.0, rest.1)
          ])).0
  no_respawns_step group now i name true o rest g h = h
  no_respawns_step group now i name false none rest g h = tt
  no_respawns_step group now i name false (some k) rest g h = (g k refl, h)

  no_respawns :
      (group : Text) (now : ℕ)
      → ((i : ℕ) (name : Text) (k : Kind) (c : Countdown) (w : TimerFields)
          → validate (timer_row c w) ≡ some k
          → f (restored_row i name group now k) ≡ none)
      → (i : ℕ) (saved : List RespawnTimerSnapshot)
      → All (λ r. f r ≡ none) (respawn_rows group now i saved).0
  unfolding respawn_rows
  no_respawns group now g i [] = tt
  no_respawns group now g i (item ∷ saved) =
      no_respawns_step group now i item.name _ _ (respawn_rows group now (i + 1) saved)
        (λ k e. g i item.name k _ (degraded item) e) (no_respawns group now g (i + 1) saved)

  pub restore_respawn_timers_nothing :
      (group : Text) (now : ℕ)
      → ((i : ℕ) (name : Text) (k : Kind) (c : Countdown) (w : TimerFields)
          → validate (timer_row c w) ≡ some k
          → f (restored_row i name group now k) ≡ none)
      → (saved : List RespawnTimerSnapshot) (i : ℕ) (s : Timers)
      → collect f (restore_respawn_timers saved group now i s).0.rows ≡ collect f s.rows
  unfolding restore_respawn_timers
  restore_respawn_timers_nothing group now g saved i s =
      ap (collect f)
        (respawned-rows s (respawn_rows group now i saved).0 (respawn_rows group now i saved).1)
      ∙ collect-append f s.rows (respawn_rows group now i saved).0
      ∙ ap (λ k. collect f s.rows ++ k)
          (collect_nothing f (respawn_rows group now i saved).0 (no_respawns group now g i saved))
      ∙ append-nil _
