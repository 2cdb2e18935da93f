-- ===== src/Timers/Respell.antt =====
-- Correcting a guessed spell: `respell_row` edits one row, keeps the moment it started, and can be
-- undone.
use nparse_plus.Prelude.{
  ◌∙◌, ℕ, ◌+◌, ◌-◌, ◌%◌, ◌≤◌, ◌<◌, ◌≡◌, refl, sym, ap, Bool, false, not, Option, none, some, List,
  [], ◌∷◌, ◌++◌, arith, if◌then◌else◌, Bool-cases, inl, inr, ltb,
}
use nparse_plus.Spells.{PlayerClass, Spell}
use nparse_plus.Spells.Durations.{second, base_timer_duration, npc_grace}
use nparse_plus.Timers.Rows.{
  Row, Kind, Countdown, SpellFields, spell_row, timer_row, roll_row, counter_row, row_eq,
  row_eq_iff, anonymous, snap_to_second,
}
use nparse_plus.Timers.Service.{Timers, notify_with, replace_row, respelled, respell_row}

-- Where a replacement succeeds, one row, equal to the row asked for, made way for it; those before
-- and behind stay.
abbrev Replaced : Row → Row → List Row → Option (List Row) → Type 0
Replaced row new rows none = Unit
Replaced row new rows (some rows') =
    (pre : List Row) × (x : Row) × (post : List Row) × (rows ≡ pre ++ x ∷ post)
    × (rows' ≡ pre ++ new ∷ post)
    × (anonymous x ≡ anonymous row)

Replaced-cons :
    (row new r : Row) (rows : List Row) (o : Option (List Row))
    → Replaced row new rows o
    → Replaced row new (r ∷ rows) (elim o [ none ↦ none | some rest ↦ some (r ∷ rest) ])
Replaced-cons row new r rows none h = tt
Replaced-cons row new r rows (some rest) (pre, x, post, e, f, g) =
    (r ∷ pre, x, post, ap (◌∷◌ r) e, ap (◌∷◌ r) f, g)

replace_row-Replaced :
    (row new : Row) (rows : List Row) → Replaced row new rows (replace_row row new rows)
unfolding replace_row
replace_row-Replaced row new [] = tt
replace_row-Replaced row new (r ∷ rows) = elim (Bool-cases (row_eq r row)) [
  | inl e ↦ rw e ([], r, rows, refl, refl, (row_eq_iff r row).0 e)
  | inr e ↦ rw e (Replaced-cons row new r rows _ (replace_row-Replaced row new rows))
]

-- The whole seconds.
abbrev pub Whole : ℕ → Type 0
Whole t = t % second ≡ 0

snap-Whole : (t : ℕ) → Whole t → snap_to_second t ≡ t
unfolding snap_to_second
snap-Whole t h = omega arith

base-Whole :
    (spell : Spell) (c : Option PlayerClass) (l : Option ℕ)
    → Whole (base_timer_duration spell c l false)
unfolding base_timer_duration
base-Whole spell c l = omega arith

grace-Whole : (spell : Spell) (b : Bool) → Whole (npc_grace spell b)
unfolding npc_grace
grace-Whole spell b = ground arith

-- The duration that a correction gives the row.
abbrev pub corrected : Row → Spell → Option PlayerClass → Option ℕ → ℕ
corrected row spell c l =
    base_timer_duration spell c l false + npc_grace spell (not row.is_target_player)

corrected-Whole :
    (row : Row) (spell : Spell) (c : Option PlayerClass) (l : Option ℕ)
    → Whole (corrected row spell c l)
corrected-Whole row spell c l =
    omega (arith, base-Whole spell c l, grace-Whole spell (not row.is_target_player))

-- One row changed, in its place, from the row asked for to the new one; it was announced once.
abbrev pub OneRow : Row → Timers → Timers → Row → Type 0
OneRow row s s' new =
    (pre : List Row) × (x : Row) × (post : List Row) × (s.rows ≡ pre ++ x ∷ post)
    × (s' ≡ notify_with (pre ++ new ∷ post) s)
    × (anonymous x ≡ anonymous row)

-- What a correction leaves alone.
abbrev pub SameTarget : Row → Row → Type 0
SameTarget row new =
    (new.group ≡ row.group)
    × (new.is_target_player ≡ row.is_target_player)
    × (new.owner ≡ row.owner)
    × (new.updated_at ≡ row.updated_at)

-- `ends_at` and `total_duration` of a row that counts down.
abbrev pub countdown? : Kind → Option Countdown
countdown? (spell_row c f) = some c
countdown? (timer_row c f) = some c
countdown? (roll_row c n m) = some c
countdown? (counter_row n) = none

-- A countdown of a duration from a start.
abbrev pub from_start : ℕ → ℕ → Countdown
from_start start duration = record { ends_at = start + duration; total_duration = duration }

module _ (row : Row) (c : Countdown) (f : SpellFields) (spell : Spell)
    (player_class : Option PlayerClass) (level : Option ℕ) (persist new_id : ℕ) (s : Timers) where
  abbrev pub replacement : Row
  replacement = respelled row c f spell (corrected row spell player_class level) persist new_id

  abbrev pub outcome : Option (List Row) → Timers × Option Row
  outcome o = elim o [
    | none ↦ (s, none)
    | some rows ↦
        if ltb 0 (base_timer_duration spell player_class level false)
        then (notify_with rows s, some replacement)
        else (s, none)
  ]

  abbrev pub respell : Timers × Option Row
  respell = respell_row row c f spell player_class level persist new_id s

  pub respell-outcome : respell ≡ outcome (replace_row row replacement s.rows)
  unfolding respell_row
  respell-outcome = refl

  OneRow-outcome :
      (o : Option (List Row)) (s' : Timers) (new : Row)
      → Replaced row replacement s.rows o
      → outcome o ≡ (s', some new)
      → (new ≡ replacement)
        × (0 < base_timer_duration spell player_class level false)
        × OneRow row s s' new
  OneRow-outcome none s' new r h = cc
  OneRow-outcome (some rows) s' new (pre, x, post, e, g, a) h =
      let e1 : new ≡ replacement = ground arith in
      (e1, ground arith, (pre, x, post, e, ground arith, a))

respelled_lem :
    (row : Row) (c : Countdown) (f : SpellFields) (spell : Spell) (duration persist new_id : ℕ)
    → Whole (c.ends_at - c.total_duration + duration)
    → let new = respelled row c f spell duration persist new_id in
      (new.name ≡ spell.name)
      × SameTarget row new
      × (countdown? new.kind ≡ some (from_start (c.ends_at - c.total_duration) duration))
unfolding respelled
respelled_lem row c f spell duration persist new_id w =
    (refl, (refl, refl, refl, refl), rw (snap-Whole _ w))

-- A correction that succeeds edits one row: an equal one makes way, in its place, and the rows
-- before and behind stay. The new row has the chosen spell's name, the old one's target and the
-- spell's duration, which is not zero; and it counts from the moment the old one started, where
-- that is a whole second.
pub respell_row-one :
    (row : Row) (c : Countdown) (f : SpellFields) (spell : Spell)
    (player_class : Option PlayerClass) (level : Option ℕ) (persist new_id : ℕ) (s s' : Timers)
    (new : Row)
    → respell_row row c f spell player_class level persist new_id s ≡ (s', some new)
    → Whole (c.ends_at - c.total_duration)
    → OneRow row s s' new
      × (0 < corrected row spell player_class level)
      × (new.name ≡ spell.name)
      × SameTarget row new
      × (countdown? new.kind
          ≡ some
              (from_start (c.ends_at - c.total_duration) (corrected row spell player_class level)))
respell_row-one row c f spell player_class level persist new_id s s' new h w =
    let d = corrected row spell player_class level in
    let (e, pos, one) =
      OneRow-outcome row c f spell player_class level persist new_id s
        (replace_row row (replacement row c f spell player_class level persist new_id s) s.rows) s'
        new (replace_row-Replaced row _ s.rows)
        (sym (respell-outcome row c f spell player_class level persist new_id s) ∙ h) in
    let (name, target, count) =
      respelled_lem row c f spell d persist new_id
        (omega (arith, w, corrected-Whole row spell player_class level)) in
    (one, omega (arith, pos), rw e name, rw e target, rw e count)

counted : (c d : Countdown) → some c ≡ some d → c ≡ d
counted c d h = cc

restarted :
    (c : Countdown) (start duration : ℕ)
    → c.total_duration ≤ c.ends_at
    → start ≡ c.ends_at - c.total_duration
    → duration ≡ c.total_duration
    → from_start start duration ≡ c
restarted c start duration le h k = ground arith

corrected-same :
    (row new : Row) (spell : Spell) (c : Option PlayerClass) (l : Option ℕ)
    → new.is_target_player ≡ row.is_target_player
    → corrected new spell c l ≡ corrected row spell c l
corrected-same row new spell c l e =
    ap (λ b. base_timer_duration spell c l false + npc_grace spell (not b)) e

-- Correcting a corrected row back to its first spell gives the first name and the first countdown,
-- where the row had the duration that the spell's formula gives and started at a whole second.
pub respell_row-undo :
    (row : Row) (c : Countdown) (f : SpellFields) (spell : Spell)
    (player_class : Option PlayerClass) (level : Option ℕ) (persist new_id persist' new_id' : ℕ)
    (s s' s'' : Timers) (new back : Row) (c' : Countdown) (f' : SpellFields)
    → Whole (c.ends_at - c.total_duration)
    → c.total_duration ≤ c.ends_at
    → c.total_duration ≡ corrected row f.spell player_class level
    → respell_row row c f spell player_class level persist new_id s ≡ (s', some new)
    → new.kind ≡ spell_row c' f'
    → respell_row new c' f' f.spell player_class level persist' new_id' s' ≡ (s'', some back)
    → (back.name ≡ f.spell.name) × (countdown? back.kind ≡ some c) × SameTarget row back
respell_row-undo row c f spell cl level p i p' i' s s' s'' new back c' f' w le d h k h' =
    let (one, pos, name, target, count) = respell_row-one row c f spell cl level p i s s' new h w in
    let e : c' ≡ from_start (c.ends_at - c.total_duration) (corrected row spell cl level) =
      counted c' _ (sym (ap countdown? k) ∙ count) in
    let start : c'.ends_at - c'.total_duration ≡ c.ends_at - c.total_duration =
      rw e (omega arith) in
    let (one', pos', name', target', count') =
      respell_row-one new c' f' f.spell cl level p' i' s' s'' back h' (rw start w) in
    (
      name',
      count'
          ∙ ap some
              (restarted c _ _ le start (corrected-same row new f.spell cl level target.1 ∙ sym d)),
      (target'.0 ∙ target.0, target'.1 ∙ target.1, target'.2 ∙ target.2, target'.3 ∙ target.3),
    )
