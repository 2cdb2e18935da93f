-- ===== src/Sessions/Alone.antt =====
-- Each of the three restores of the rows of one's own leaves alone what the other two bring back.
use nparse_plus.Prelude.{
  ℕ, ◌+◌, ◌≡◌, refl, sym, ap, subst, ◌∙◌, Option, none, some, List, [], ◌∷◌, ◌++◌, ltb, leb, arith,
  Bool-cases, Option-cases, inl, inr, All, collect, collect-none, collect-append, append-nil,
}
use nparse_plus.Spells.{Spell, PlayerClass}
use nparse_plus.Spells.Book.{SpellBook, spell_by_name}
use nparse_plus.Timers.Rows.{Row, you_group, counter_row, counter_idle_expiry}
use nparse_plus.Timers.Service.{Timers}
use nparse_plus.Timers.Persistence.{
  YouSpellSnapshot, SelfCooldownSnapshot, SelfCounterSnapshot, saved_spell, saved_cooldown,
  saved_counter, export_you_spells, export_self_cooldowns, export_self_counters,
}
use nparse_plus.Timers.Restore.{
  restored_row, buff_row, buff_rows, restore_you_spells, named_spell, cooldown_kind, cooldown_rows,
  restore_self_cooldowns, counter_rows, restore_self_counters, append_restored,
}
use nparse_plus.Timers.Restore.RoundTrip.{append_restored-collect, buff_rows-some, buff_rows-none}

restore_you_spells-rows :
    (now : ℕ) (book : SpellBook) (c : Option PlayerClass) (l : Option ℕ)
    (saved : List YouSpellSnapshot) (i : ℕ) (s : Timers)
    → (restore_you_spells saved now book c l i s).rows ≡ s.rows ++ buff_rows now book c l i saved
unfolding restore_you_spells
restore_you_spells-rows now book c l [] i s = refl
restore_you_spells-rows now book c l (item ∷ saved) i s = refl

module _ {ℓ} {B : Type ℓ} (f : Row → Option B) where
  pub collect_nothing : (rows : List Row) → All (λ r. f r ≡ none) rows → collect f rows ≡ []
  collect_nothing [] h = refl
  collect_nothing (r ∷ rows) h = collect-none f r rows h.0 ∙ collect_nothing rows h.1

  no_buffs :
      (now : ℕ) (book : SpellBook) (c : Option PlayerClass) (l : Option ℕ)
      → ((i : ℕ) (item : YouSpellSnapshot) (spell : Spell)
          → f (buff_row now c l i item spell) ≡ none)
      → (i : ℕ) (saved : List YouSpellSnapshot)
      → All (λ r. f r ≡ none) (buff_rows now book c l i saved)
  unfolding buff_rows
  no_buffs now book c l g i [] = tt
  no_buffs now book c l g i (item ∷ saved) = elim (Option-cases (spell_by_name book item.name)) [
    | inl e ↦
        subst (All (λ r. f r ≡ none)) (sym (buff_rows-none now book c l i item saved e))
          (no_buffs now book c l g (i + 1) saved)
    | inr (spell, e) ↦
        subst (All (λ r. f r ≡ none)) (sym (buff_rows-some now book c l i item saved spell e))
          (g i item spell, no_buffs now book c l g (i + 1) saved)
  ]

  pub no_cooldowns :
      (now : ℕ) (book : SpellBook)
      → ((i : ℕ) (item : SelfCooldownSnapshot) (o : Option Spell)
          → f (restored_row i item.name you_group now (cooldown_kind item o)) ≡ none)
      → (i : ℕ) (saved : List SelfCooldownSnapshot)
      → All (λ r. f r ≡ none) (cooldown_rows now book i saved)
  unfolding cooldown_rows
  no_cooldowns now book g i [] = tt
  no_cooldowns now book g i (item ∷ saved) = elim (Bool-cases (leb item.ends_at now)) [
    | inl e ↦ rw e (no_cooldowns now book g (i + 1) saved)
    | inr e ↦
        rw e (g i item (named_spell book item.spell_name), no_cooldowns now book g (i + 1) saved)
  ]

  pub no_counters :
      (now : ℕ)
      → ((i : ℕ) (item : SelfCounterSnapshot)
          → f (restored_row i item.name you_group item.updated_at (counter_row item.count)) ≡ none)
      → (i : ℕ) (saved : List SelfCounterSnapshot)
      → All (λ r. f r ≡ none) (counter_rows now i saved)
  unfolding counter_rows
  no_counters now g i [] = tt
  no_counters now g i (item ∷ saved) =
      elim (Bool-cases (ltb (item.updated_at + counter_idle_expiry) now)) [
        | inl e ↦ rw e (no_counters now g (i + 1) saved)
        | inr e ↦ rw e (g i item, no_counters now g (i + 1) saved)
      ]

  -- Appending rows of which nothing is saved.
  pub append_restored_nothing :
      (rows : List Row) (s : Timers)
      → All (λ r. f r ≡ none) rows
      → collect f (append_restored rows s).rows ≡ collect f s.rows
  append_restored_nothing rows s h =
      append_restored-collect f rows s
      ∙ ap (λ k. collect f s.rows ++ k) (collect_nothing rows h)
      ∙ append-nil _

  pub restore_you_spells_nothing :
      (now : ℕ) (book : SpellBook) (c : Option PlayerClass) (l : Option ℕ)
      → ((i : ℕ) (item : YouSpellSnapshot) (spell : Spell)
          → f (buff_row now c l i item spell) ≡ none)
      → (saved : List YouSpellSnapshot) (i : ℕ) (s : Timers)
      → collect f (restore_you_spells saved now book c l i s).rows ≡ collect f s.rows
  unfolding restore_you_spells
  restore_you_spells_nothing now book c l g saved i s =
      ap (collect f) (restore_you_spells-rows now book c l saved i s)
      ∙ collect-append f s.rows (buff_rows now book c l i saved)
      ∙ ap (λ k. collect f s.rows ++ k)
          (collect_nothing (buff_rows now book c l i saved) (no_buffs now book c l g i saved))
      ∙ append-nil _

-- A restore of one kind of row brings back nothing of the other kinds.
buff-no_cooldown :
    (at now : ℕ) (c : Option PlayerClass) (l : Option ℕ) (i : ℕ) (item : YouSpellSnapshot)
    (spell : Spell)
    → saved_cooldown at (buff_row now c l i item spell) ≡ none
unfolding saved_cooldown
buff-no_cooldown at now c l i item spell = ground arith

buff-no_counter :
    (now : ℕ) (c : Option PlayerClass) (l : Option ℕ) (i : ℕ) (item : YouSpellSnapshot)
    (spell : Spell)
    → saved_counter (buff_row now c l i item spell) ≡ none
unfolding saved_counter
buff-no_counter now c l i item spell = refl

cooldown-no_spell :
    (at now i : ℕ) (item : SelfCooldownSnapshot) (o : Option Spell)
    → saved_spell at (restored_row i item.name you_group now (cooldown_kind item o)) ≡ none
unfolding saved_spell
cooldown-no_spell at now i item none = refl
cooldown-no_spell at now i item (some spell) = ground arith

cooldown-no_counter :
    (now i : ℕ) (item : SelfCooldownSnapshot) (o : Option Spell)
    → saved_counter (restored_row i item.name you_group now (cooldown_kind item o)) ≡ none
unfolding saved_counter
cooldown-no_counter now i item none = refl
cooldown-no_counter now i item (some spell) = refl

counter-no_spell :
    (at i : ℕ) (item : SelfCounterSnapshot)
    → saved_spell at (restored_row i item.name you_group item.updated_at (counter_row item.count))
      ≡ none
unfolding saved_spell
counter-no_spell at i item = refl

counter-no_cooldown :
    (at i : ℕ) (item : SelfCounterSnapshot)
    → saved_cooldown at
        (restored_row i item.name you_group item.updated_at (counter_row item.count))
      ≡ none
unfolding saved_cooldown
counter-no_cooldown at i item = refl

-- So it leaves what can be saved of them.
module _ (at now i : ℕ) (book : SpellBook) (s : Timers) where
  pub buffs-cooldowns :
      (c : Option PlayerClass) (l : Option ℕ) (saved : List YouSpellSnapshot)
      → export_self_cooldowns at (restore_you_spells saved now book c l i s).rows
        ≡ export_self_cooldowns at s.rows
  unfolding export_self_cooldowns
  buffs-cooldowns c l saved =
      restore_you_spells_nothing (saved_cooldown at) now book c l (buff-no_cooldown at now c l)
        saved i s

  pub buffs-counters :
      (c : Option PlayerClass) (l : Option ℕ) (saved : List YouSpellSnapshot)
      → export_self_counters (restore_you_spells saved now book c l i s).rows
        ≡ export_self_counters s.rows
  unfolding export_self_counters
  buffs-counters c l saved =
      restore_you_spells_nothing saved_counter now book c l (buff-no_counter now c l) saved i s

  pub cooldowns-spells :
      (saved : List SelfCooldownSnapshot)
      → export_you_spells at (restore_self_cooldowns saved now book i s).rows
        ≡ export_you_spells at s.rows
  unfolding export_you_spells restore_self_cooldowns
  cooldowns-spells saved =
      append_restored_nothing (saved_spell at) (cooldown_rows now book i saved) s
        (no_cooldowns (saved_spell at) now book (cooldown-no_spell at now) i saved)

  pub cooldowns-counters :
      (saved : List SelfCooldownSnapshot)
      → export_self_counters (restore_self_cooldowns saved now book i s).rows
        ≡ export_self_counters s.rows
  unfolding export_self_counters restore_self_cooldowns
  cooldowns-counters saved =
      append_restored_nothing saved_counter (cooldown_rows now book i saved) s
        (no_cooldowns saved_counter now book (cooldown-no_counter now) i saved)

  pub counters-spells :
      (saved : List SelfCounterSnapshot)
      → export_you_spells at (restore_self_counters saved now i s).rows
        ≡ export_you_spells at s.rows
  unfolding export_you_spells restore_self_counters
  counters-spells saved =
      append_restored_nothing (saved_spell at) (counter_rows now i saved) s
        (no_counters (saved_spell at) now (counter-no_spell at) i saved)

  pub counters-cooldowns :
      (saved : List SelfCounterSnapshot)
      → export_self_cooldowns at (restore_self_counters saved now i s).rows
        ≡ export_self_cooldowns at s.rows
  unfolding export_self_cooldowns restore_self_counters
  counters-cooldowns saved =
      append_restored_nothing (saved_cooldown at) (counter_rows now i saved) s
        (no_counters (saved_cooldown at) now (counter-no_cooldown at) i saved)
