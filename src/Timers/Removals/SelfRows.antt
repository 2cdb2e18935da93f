-- ===== src/Timers/Removals/SelfRows.antt =====
-- The removal of the rows of one's own.
use nparse_plus.Prelude.{
  ℕ, ◌≡◌, refl, ◌∙◌, false, not, Option, none, List, [], ◌∷◌, keep, collect, collect-none, arith,
  Bool-cases, inl, inr,
}
use nparse_plus.Timers.Rows.{Row}
use nparse_plus.Timers.Service.{Timers}
use nparse_plus.Timers.Removals.{is_self_row, remove_self_rows}
use nparse_plus.Timers.Persistence.{
  saved_spell, saved_cooldown, saved_counter, export_you_spells, export_self_cooldowns,
  export_self_counters,
}

-- What a row of one's own leaves behind when the window drops all such rows.
self_kept {ℓ} :
    {B : Type ℓ} (f : Row → Option B) (rows : List Row)
    → ((r : Row) → is_self_row r ≡ false → f r ≡ none)
    → collect f (keep (λ r. not (is_self_row r)) rows) ≡ []
self_kept f [] h = refl
self_kept f (r ∷ rows) h = elim (Bool-cases (is_self_row r)) [
  | inl e ↦ rw e (self_kept f rows h)
  | inr e ↦ rw e (collect-none f r _ (h r e) ∙ self_kept f rows h)
]

remove_self_rows-rows :
    (s : Timers) → (remove_self_rows s).0.rows ≡ keep (λ r. not (is_self_row r)) s.rows
unfolding remove_self_rows
remove_self_rows-rows s = ground arith

unsaved_spell : (now : ℕ) (r : Row) → is_self_row r ≡ false → saved_spell now r ≡ none
unfolding saved_spell
unsaved_spell now r h = ground arith

unsaved_cooldown : (now : ℕ) (r : Row) → is_self_row r ≡ false → saved_cooldown now r ≡ none
unfolding saved_cooldown
unsaved_cooldown now r h = ground arith

unsaved_counter : (r : Row) → is_self_row r ≡ false → saved_counter r ≡ none
unfolding saved_counter
unsaved_counter r h = ground arith

-- Dropping the rows of one's own leaves nothing that the three stores of a character would save,
-- and keeps every other row in its order.
pub remove_self_rows_lem :
    (now : ℕ) (s : Timers)
    → let s' = (remove_self_rows s).0 in
      (s'.rows ≡ keep (λ r. not (is_self_row r)) s.rows)
      × (export_you_spells now s'.rows ≡ [])
      × (export_self_cooldowns now s'.rows ≡ [])
      × (export_self_counters s'.rows ≡ [])
unfolding export_you_spells export_self_cooldowns export_self_counters
remove_self_rows_lem now s = (
  remove_self_rows-rows s,
  rw (remove_self_rows-rows s) (self_kept (saved_spell now) s.rows (unsaved_spell now)),
  rw (remove_self_rows-rows s) (self_kept (saved_cooldown now) s.rows (unsaved_cooldown now)),
  rw (remove_self_rows-rows s) (self_kept saved_counter s.rows unsaved_counter),
)
