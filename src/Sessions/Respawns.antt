-- ===== src/Sessions/Respawns.antt =====
-- The stores of respawn timers beside the rows of one's own: the restores of each leave the
-- other alone.
use nparse_plus.Prelude.{
  ℕ, ◌+◌, ◌≡◌, refl, ◌∙◌, Bool, not, Option, none, some, List, [], length, arith,
}
use nparse_plus.Text.{Text, name_eq, text_eq, casefold}
use nparse_plus.Spells.{Spell, PlayerClass}
use nparse_plus.Timers.Rows.{
  Row, Kind, Countdown, TimerFields, timer_row, validate, you_group, counter_row,
}
use nparse_plus.Timers.Service.{Timers}
use nparse_plus.Timers.Removals.{remove_group}
use nparse_plus.Timers.Persistence.{
  YouSpellSnapshot, SelfCooldownSnapshot, SelfCounterSnapshot, RespawnTimerSnapshot, saved_spell,
  saved_cooldown, saved_counter, saved_respawn, export_you_spells, export_self_cooldowns,
  export_self_counters, export_respawn_timers,
}
use nparse_plus.Timers.Restore.{
  restored_row, buff_row, cooldown_kind, cooldown_rows, counter_rows, restore_self_cooldowns,
  restore_self_counters, restore_you_spells, restore_respawn_timers,
}
use nparse_plus.Sessions.Profiles.{PlayerInfo}
use nparse_plus.Sessions.TimerPersistence.{Moment, mob_timer_group}
use nparse_plus.Sessions.Quiet.{restored}
use nparse_plus.Sessions.Alone.{
  append_restored_nothing, restore_you_spells_nothing, no_cooldowns, no_counters,
}
use nparse_plus.Sessions.RespawnRows.{
  remove_group-rows, collect-keep_nothing, collect-kept, restore_respawn_timers_nothing,
}

-- The kinds of row of which each store saves nothing.
respawn-no_spell :
    (at i now : ℕ) (name : Text) (k : Kind) (c : Countdown) (w : TimerFields)
    → validate (timer_row c w) ≡ some k
    → saved_spell at (restored_row i name mob_timer_group now k) ≡ none
unfolding saved_spell validate
respawn-no_spell at i now name k c w h = ground arith

respawn-no_cooldown :
    (at i now : ℕ) (name : Text) (k : Kind) (c : Countdown) (w : TimerFields)
    → validate (timer_row c w) ≡ some k
    → saved_cooldown at (restored_row i name mob_timer_group now k) ≡ none
unfolding saved_cooldown validate text_eq
respawn-no_cooldown at i now name k c w h = ground arith

respawn-no_counter :
    (i now : ℕ) (name : Text) (k : Kind) (c : Countdown) (w : TimerFields)
    → validate (timer_row c w) ≡ some k
    → saved_counter (restored_row i name mob_timer_group now k) ≡ none
unfolding saved_counter validate
respawn-no_counter i now name k c w h = ground arith

buff-no_respawn :
    (at now : ℕ) (c : Option PlayerClass) (l : Option ℕ) (i : ℕ) (item : YouSpellSnapshot)
    (spell : Spell)
    → saved_respawn mob_timer_group at (buff_row now c l i item spell) ≡ none
unfolding saved_respawn
buff-no_respawn at now c l i item spell = refl

cooldown-no_respawn :
    (at now i : ℕ) (item : SelfCooldownSnapshot) (o : Option Spell)
    → saved_respawn mob_timer_group at
        (restored_row i item.name you_group now (cooldown_kind item o))
      ≡ none
unfolding saved_respawn name_eq casefold text_eq
cooldown-no_respawn at now i item none = refl
cooldown-no_respawn at now i item (some spell) = refl

counter-no_respawn :
    (at i : ℕ) (item : SelfCounterSnapshot)
    → saved_respawn mob_timer_group at
        (restored_row i item.name you_group item.updated_at (counter_row item.count))
      ≡ none
unfolding saved_respawn
counter-no_respawn at i item = refl

-- The restores of the rows of one's own bring back no respawn timer.
pub restored-respawns :
    (m : Moment) (info : PlayerInfo) (t : Timers)
    → export_respawn_timers mob_timer_group m.now (restored m info t).rows
      ≡ export_respawn_timers mob_timer_group m.now t.rows
unfolding export_respawn_timers restore_self_counters restore_self_cooldowns
restored-respawns m info t =
    let f = saved_respawn mob_timer_group m.now in
    let c = m.player.player_class in
    let l = m.player.level in
    let id1 = m.new_id + length info.you_spells in
    let id2 = id1 + length info.you_cooldowns in
    let t1 = restore_you_spells info.you_spells m.now m.spells c l m.new_id t in
    let t2 = restore_self_cooldowns info.you_cooldowns m.now m.spells id1 t1 in
    append_restored_nothing f (counter_rows m.now id2 info.you_counters) t2
      (no_counters f m.now (counter-no_respawn m.now) id2 info.you_counters)
    ∙ append_restored_nothing f (cooldown_rows m.now m.spells id1 info.you_cooldowns) t1
        (no_cooldowns f m.now m.spells (cooldown-no_respawn m.now m.now) id1 info.you_cooldowns)
    ∙ restore_you_spells_nothing f m.now m.spells c l (buff-no_respawn m.now m.now c l)
        info.you_spells m.new_id t

-- The group goes, and its going leaves nothing of a store that had nothing.
pub remove_group-respawns :
    (group : Text) (at : ℕ) (t : Timers)
    → export_respawn_timers group at (remove_group group t).0.rows ≡ []
unfolding export_respawn_timers saved_respawn
remove_group-respawns group at t = rw (remove_group-rows group t) (
    collect-kept (saved_respawn group at) (λ r. not (name_eq r.group group)) t.rows
      (λ r e. ground arith))

-- The timers hold none of the rows that the stores of one's own save.
abbrev pub NoneOfMine : ℕ → Timers → Type 0
NoneOfMine at t =
    (export_you_spells at t.rows ≡ [])
    × (export_self_cooldowns at t.rows ≡ [])
    × (export_self_counters t.rows ≡ [])

pub remove_group-NoneOfMine :
    (group : Text) (at : ℕ) (t : Timers) → NoneOfMine at t → NoneOfMine at (remove_group group t).0
unfolding export_you_spells export_self_cooldowns export_self_counters
remove_group-NoneOfMine group at t (a, b, c) =
    let p : Row → Bool = λ r. not (name_eq r.group group) in
    (
      rw (remove_group-rows group t) (collect-keep_nothing (saved_spell at) p t.rows a),
      rw (remove_group-rows group t) (collect-keep_nothing (saved_cooldown at) p t.rows b),
      rw (remove_group-rows group t) (collect-keep_nothing saved_counter p t.rows c),
    )

-- The restore of respawn timers leaves the stores of one's own.
pub restore_respawn_timers-spells :
    (at now i : ℕ) (saved : List RespawnTimerSnapshot) (t : Timers)
    → export_you_spells at (restore_respawn_timers saved mob_timer_group now i t).0.rows
      ≡ export_you_spells at t.rows
unfolding export_you_spells
restore_respawn_timers-spells at now i saved t =
    restore_respawn_timers_nothing (saved_spell at) mob_timer_group now
      (λ j name k c w. respawn-no_spell at j now name k c w) saved i t

pub restore_respawn_timers-cooldowns :
    (at now i : ℕ) (saved : List RespawnTimerSnapshot) (t : Timers)
    → export_self_cooldowns at (restore_respawn_timers saved mob_timer_group now i t).0.rows
      ≡ export_self_cooldowns at t.rows
unfolding export_self_cooldowns
restore_respawn_timers-cooldowns at now i saved t =
    restore_respawn_timers_nothing (saved_cooldown at) mob_timer_group now
      (λ j name k c w. respawn-no_cooldown at j now name k c w) saved i t

pub restore_respawn_timers-counters :
    (now i : ℕ) (saved : List RespawnTimerSnapshot) (t : Timers)
    → export_self_counters (restore_respawn_timers saved mob_timer_group now i t).0.rows
      ≡ export_self_counters t.rows
unfolding export_self_counters
restore_respawn_timers-counters now i saved t =
    restore_respawn_timers_nothing saved_counter mob_timer_group now
      (λ j name k c w. respawn-no_counter j now name k c w) saved i t
