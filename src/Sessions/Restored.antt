-- ===== src/Sessions/Restored.antt =====
-- What can be saved again after the three restores of the rows of one's own.
use nparse_plus.Prelude.{ℕ, ◌+◌, ◌≡◌, ap, ◌∙◌, [], ◌++◌, length, All, collect}
use nparse_plus.Spells.Book.{SpellBook}
use nparse_plus.Timers.Service.{Timers}
use nparse_plus.Timers.Persistence.{export_you_spells, export_self_cooldowns, export_self_counters}
use nparse_plus.Timers.Restore.{restore_you_spells, restore_self_cooldowns}
use nparse_plus.Timers.Restore.RoundTrip.{
  resaved_spell, resaved_counter, resaved_cooldown, restore-export_you_spells,
  restore-export_self_counters, restore-export_self_cooldowns, IsSnapped,
}
use nparse_plus.Sessions.Profiles.{PlayerInfo}
use nparse_plus.Sessions.TimerPersistence.{Moment}
use nparse_plus.Sessions.Quiet.{restored}
use nparse_plus.Sessions.Alone.{
  buffs-cooldowns, buffs-counters, cooldowns-spells, cooldowns-counters, counters-spells,
  counters-cooldowns,
}

-- What can be saved again of the rows of one's own.
abbrev pub SavedAgain : ℕ → SpellBook → PlayerInfo → Timers → Type 0
SavedAgain now book info t =
    (export_you_spells now t.rows ≡ collect (resaved_spell book) info.you_spells)
    × (export_self_cooldowns now t.rows ≡ collect (resaved_cooldown now book) info.you_cooldowns)
    × (export_self_counters t.rows ≡ collect (resaved_counter now) info.you_counters)

pub restored-SavedAgain :
    (m : Moment) (info : PlayerInfo) (t : Timers)
    → All IsSnapped info.you_cooldowns
    → export_you_spells m.now t.rows ≡ []
    → export_self_cooldowns m.now t.rows ≡ []
    → export_self_counters t.rows ≡ []
    → SavedAgain m.now m.spells info (restored m info t)
restored-SavedAgain m info t snapped no_spells no_cds no_tallies =
    let c = m.player.player_class in
    let l = m.player.level in
    let id1 = m.new_id + length info.you_spells in
    let t1 = restore_you_spells info.you_spells m.now m.spells c l m.new_id t in
    let t2 = restore_self_cooldowns info.you_cooldowns m.now m.spells id1 t1 in
    let id2 = id1 + length info.you_cooldowns in
    let spells1 = restore-export_you_spells m.now m.spells c l info.you_spells m.new_id t in
    let cds1 = buffs-cooldowns m.now m.now m.new_id m.spells t c l info.you_spells in
    let tallies1 = buffs-counters m.now m.now m.new_id m.spells t c l info.you_spells in
    let cds2 = restore-export_self_cooldowns info.you_cooldowns m.now m.spells id1 t1 snapped in
    (
      counters-spells m.now m.now id2 m.spells t2 info.you_counters
          ∙ cooldowns-spells m.now m.now id1 m.spells t1 info.you_cooldowns
          ∙ spells1
          ∙ ap (λ k. k ++ collect (resaved_spell m.spells) info.you_spells) no_spells,
      counters-cooldowns m.now m.now id2 m.spells t2 info.you_counters
          ∙ cds2
          ∙ ap (λ k. k ++ collect (resaved_cooldown m.now m.spells) info.you_cooldowns)
              (cds1 ∙ no_cds),
      restore-export_self_counters info.you_counters m.now id2 t2
          ∙ ap (λ k. k ++ collect (resaved_counter m.now) info.you_counters)
              (cooldowns-counters m.now m.now id1 m.spells t1 info.you_cooldowns
                ∙ tallies1
                ∙ no_tallies),
    )
