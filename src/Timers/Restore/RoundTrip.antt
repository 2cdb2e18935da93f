-- ===== src/Timers/Restore/RoundTrip.antt =====
-- The character's own timers: what a restore brings back is what can be saved again.
use nparse_plus.Prelude.{
  ℕ, ◌+◌, ◌*◌, ◌≡◌, refl, ap, ◌∙◌, false, Option, none, some, List, [], ◌∷◌, ◌++◌, append-nil,
  collect, collect-none, collect-append, collect-cons, sym, All, arith, if◌then◌else◌, ltb, leb,
  Bool-cases, Option-cases, inl, inr,
}
use nparse_plus.Text.{Text, text_eq_refl}
use nparse_plus.Spells.{PlayerClass, Spell}
use nparse_plus.Spells.Book.{SpellBook, spell_by_name}
use nparse_plus.Spells.Durations.{second}
use nparse_plus.Timers.Rows.{
  Row, counter_row, snap_to_second, seconds_left, you_group, counter_idle_expiry,
}
use nparse_plus.Timers.Service.{Timers}
use nparse_plus.Timers.Persistence.{
  YouSpellSnapshot, SelfCooldownSnapshot, SelfCounterSnapshot, saved_spell, saved_cooldown,
  saved_counter, export_you_spells, export_self_cooldowns, export_self_counters,
}
use nparse_plus.Timers.Restore.{
  restored_row, buff_row, buff_rows, restore_you_spells, named_spell, cooldown_kind, cooldown_rows,
  restore_self_cooldowns, counter_rows, restore_self_counters, append_restored,
}

-- A countdown that is anchored now reads the seconds it was given.
seconds_left-snap : (now k : ℕ) → seconds_left (snap_to_second (now + k * second)) now ≡ k
unfolding seconds_left snap_to_second
seconds_left-snap now k = omega arith

-- What is saved of a buff that is restored: its seconds, under the name the spell book has for it.
abbrev pub again : YouSpellSnapshot → Option Spell → Option YouSpellSnapshot
again item none = none
again item (some spell) =
    if ltb 0 item.total_seconds_left then some (record item { name = spell.name }) else none

abbrev pub resaved_spell : SpellBook → YouSpellSnapshot → Option YouSpellSnapshot
resaved_spell book item = again item (spell_by_name book item.name)

saved-buff_row :
    (now : ℕ) (c : Option PlayerClass) (l : Option ℕ) (new_id : ℕ) (item : YouSpellSnapshot)
    (spell : Spell)
    → saved_spell now (buff_row now c l new_id item spell) ≡ again item (some spell)
unfolding saved_spell
saved-buff_row now c l new_id item spell =
    rw (seconds_left-snap now item.total_seconds_left, text_eq_refl you_group) refl

module _ (now : ℕ) (book : SpellBook) (c : Option PlayerClass) (l : Option ℕ) where
  pub buff_rows-some :
      (new_id : ℕ) (item : YouSpellSnapshot) (saved : List YouSpellSnapshot) (spell : Spell)
      → spell_by_name book item.name ≡ some spell
      → buff_rows now book c l new_id (item ∷ saved)
        ≡ buff_row now c l new_id item spell ∷ buff_rows now book c l (new_id + 1) saved
  unfolding buff_rows
  buff_rows-some new_id item saved spell e = rw (e, buff_rows)

  pub buff_rows-none :
      (new_id : ℕ) (item : YouSpellSnapshot) (saved : List YouSpellSnapshot)
      → spell_by_name book item.name ≡ none
      → buff_rows now book c l new_id (item ∷ saved) ≡ buff_rows now book c l (new_id + 1) saved
  unfolding buff_rows
  buff_rows-none new_id item saved e = rw (e, buff_rows)

  buff_rows-export :
      (new_id : ℕ) (saved : List YouSpellSnapshot)
      → collect (saved_spell now) (buff_rows now book c l new_id saved)
        ≡ collect (resaved_spell book) saved
  buff_rows-export new_id [] = unfold buff_rows in refl
  buff_rows-export new_id (item ∷ saved) = elim (Option-cases (spell_by_name book item.name)) [
    | inl e ↦
        ap (collect (saved_spell now)) (buff_rows-none new_id item saved e)
        ∙ buff_rows-export (new_id + 1) saved
        ∙ sym (collect-none (resaved_spell book) item saved (ap (again item) e))
    | inr (spell, e) ↦
        ap (collect (saved_spell now)) (buff_rows-some new_id item saved spell e)
        ∙ collect-cons (saved_spell now) (resaved_spell book) _ item _ saved
            (saved-buff_row now c l new_id item spell ∙ sym (ap (again item) e))
            (buff_rows-export (new_id + 1) saved)
  ]

  -- The buffs restored at a time can be saved at that time with the very seconds that were saved,
  -- in their order, beside what was there: what the spell book does not know and what had no second
  -- left is gone.
  pub restore-export_you_spells :
      (saved : List YouSpellSnapshot) (new_id : ℕ) (s : Timers)
      → export_you_spells now (restore_you_spells saved now book c l new_id s).rows
        ≡ export_you_spells now s.rows ++ collect (resaved_spell book) saved
  unfolding restore_you_spells export_you_spells
  restore-export_you_spells [] new_id s = collect-append (saved_spell now) s.rows []
  restore-export_you_spells (item ∷ saved) new_id s =
      collect-append (saved_spell now) s.rows (buff_rows now book c l new_id (item ∷ saved))
      ∙ ap (λ k. collect (saved_spell now) s.rows ++ k) (buff_rows-export new_id (item ∷ saved))

-- What `append_restored` does to the list of what can be saved.
pub append_restored-collect {ℓ} :
    {B : Type ℓ} (f : Row → Option B) (rows : List Row) (s : Timers)
    → collect f (append_restored rows s).rows ≡ collect f s.rows ++ collect f rows
append_restored-collect f [] s = sym (append-nil _)
append_restored-collect f (r ∷ rows) s = collect-append f s.rows (r ∷ rows)

-- What is saved of a counter that is restored: all of it, unless its idle time is over.
abbrev pub resaved_counter : ℕ → SelfCounterSnapshot → Option SelfCounterSnapshot
resaved_counter now item =
    if ltb (item.updated_at + counter_idle_expiry) now then none else some item

counter_rows-export :
    (now new_id : ℕ) (saved : List SelfCounterSnapshot)
    → collect saved_counter (counter_rows now new_id saved) ≡ collect (resaved_counter now) saved
unfolding counter_rows saved_counter
counter_rows-export now new_id [] = refl
counter_rows-export now new_id (item ∷ saved) =
    elim (Bool-cases (ltb (item.updated_at + counter_idle_expiry) now)) [
      | inl e ↦ rw e (
          counter_rows-export now (new_id + 1) saved
          ∙ sym (collect-none (resaved_counter now) item saved (rw e)))
      | inr e ↦ rw e (
          collect-cons saved_counter (resaved_counter now)
            (restored_row new_id item.name you_group item.updated_at (counter_row item.count)) item
            (counter_rows now (new_id + 1) saved) saved (rw (text_eq_refl you_group, e))
            (counter_rows-export now (new_id + 1) saved))
    ]

-- Counters come back with their counts and stamps, in their order, beside what was there; gone are
-- those that a tick would drop at that time.
pub restore-export_self_counters :
    (saved : List SelfCounterSnapshot) (now new_id : ℕ) (s : Timers)
    → export_self_counters (restore_self_counters saved now new_id s).rows
      ≡ export_self_counters s.rows ++ collect (resaved_counter now) saved
unfolding restore_self_counters export_self_counters
restore-export_self_counters saved now new_id s =
    append_restored-collect saved_counter (counter_rows now new_id saved) s
    ∙ ap (λ k. collect saved_counter s.rows ++ k) (counter_rows-export now new_id saved)

-- What is saved of a cooldown that is restored: its end, under the name of its spell in the book;
-- a cooldown of a spell that the book does not know is saved as one without a spell.
abbrev pub book_name : Option Spell → Text
book_name none = []
book_name (some spell) = spell.name

abbrev pub resaved_cooldown : ℕ → SpellBook → SelfCooldownSnapshot → Option SelfCooldownSnapshot
resaved_cooldown now book item =
    if leb item.ends_at now
    then none
    else some (record item { spell_name = book_name (named_spell book item.spell_name) })

saved-cooldown_row :
    (now new_id : ℕ) (item : SelfCooldownSnapshot) (o : Option Spell)
    → snap_to_second item.ends_at ≡ item.ends_at
    → leb item.ends_at now ≡ false
    → saved_cooldown now (restored_row new_id item.name you_group now (cooldown_kind item o))
      ≡ some (record item { spell_name = book_name o })
unfolding saved_cooldown
saved-cooldown_row now new_id item none h e = ground (arith, text_eq_refl you_group)
saved-cooldown_row now new_id item (some spell) h e = ground (arith, text_eq_refl you_group)

abbrev pub IsSnapped : SelfCooldownSnapshot → Type 0
IsSnapped item = snap_to_second item.ends_at ≡ item.ends_at

cooldown_rows-export :
    (now : ℕ) (book : SpellBook) (new_id : ℕ) (saved : List SelfCooldownSnapshot)
    → All IsSnapped saved
    → collect (saved_cooldown now) (cooldown_rows now book new_id saved)
      ≡ collect (resaved_cooldown now book) saved
unfolding cooldown_rows
cooldown_rows-export now book new_id [] h = refl
cooldown_rows-export now book new_id (item ∷ saved) h =
    let ih = cooldown_rows-export now book (new_id + 1) saved h.1 in
    elim (Bool-cases (leb item.ends_at now)) [
      | inl e ↦ rw e (ih ∙ sym (collect-none (resaved_cooldown now book) item saved (rw e)))
      | inr e ↦ rw e (
          collect-cons (saved_cooldown now) (resaved_cooldown now book) _ item _ saved
            (saved-cooldown_row now new_id item (named_spell book item.spell_name) h.0 e
              ∙ sym (rw e))
            ih)
    ]

-- Cooldowns come back with the ends that were saved, in their order, beside what was there; gone
-- are those that came up meanwhile. The saved ends are whole seconds, as a row's are.
pub restore-export_self_cooldowns :
    (saved : List SelfCooldownSnapshot) (now : ℕ) (book : SpellBook) (new_id : ℕ) (s : Timers)
    → All IsSnapped saved
    → export_self_cooldowns now (restore_self_cooldowns saved now book new_id s).rows
      ≡ export_self_cooldowns now s.rows ++ collect (resaved_cooldown now book) saved
unfolding restore_self_cooldowns export_self_cooldowns
restore-export_self_cooldowns saved now book new_id s h =
    append_restored-collect (saved_cooldown now) (cooldown_rows now book new_id saved) s
    ∙ ap (λ k. collect (saved_cooldown now) s.rows ++ k)
        (cooldown_rows-export now book new_id saved h)
