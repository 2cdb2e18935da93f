-- ===== src/Sessions/Trying.antt =====
-- What the restores do when the active character changes.
use nparse_plus.Prelude.{ℕ, ◌+◌, ◌≡◌, refl, ap, ◌∙◌, Bool, true, false, some, List, [], All, length}
use nparse_plus.Text.{Text}
use nparse_plus.Timers.Service.{Timers}
use nparse_plus.Timers.Removals.{remove_self_rows, remove_group}
use nparse_plus.Timers.Removals.SelfRows.{remove_self_rows_lem}
use nparse_plus.Timers.Persistence.{export_respawn_timers}
use nparse_plus.Timers.Restore.{restore_respawn_timers}
use nparse_plus.Timers.Restore.RoundTrip.{IsSnapped}
use nparse_plus.Sessions.Profiles.{PlayerInfo, get_player}
use nparse_plus.Sessions.TimerPersistence.{
  Moment, Session, profile_key, operate, on_after_player_changed, change_to, finish_change,
  with_profile, restore_respawns, restore_self_rows, mob_timer_group,
}
use nparse_plus.Sessions.Quiet.{with_timers, operate_quiet, restored, restore_self_rows_quiet}
use nparse_plus.Sessions.Restored.{SavedAgain, restored-SavedAgain}
use nparse_plus.Sessions.Respawns.{
  restored-respawns, remove_group-respawns, remove_group-NoneOfMine, NoneOfMine,
  restore_respawn_timers-spells, restore_respawn_timers-cooldowns, restore_respawn_timers-counters,
}

module _ (m : Moment) (name server : Text) (k : profile_key m.player ≡ some (name, server)) where
  pub on_after-some : (s : Session) → on_after_player_changed m s ≡ change_to m name server s
  on_after-some s =
      unfold on_after_player_changed in
      ap (λ o. with_profile o (s, false) (λ n v. change_to m n v s)) k

  module _ (s : Session) (info : PlayerInfo) (players : List PlayerInfo) where
    -- The timers before the respawn timers are restored.
    abbrev pub mine : Timers
    mine = restored m info (remove_group mob_timer_group (remove_self_rows s.timers).0).0

    abbrev pub id4 : ℕ
    id4 = m.new_id + length info.you_spells + length info.you_cooldowns + length info.you_counters

    abbrev pub respawned : Timers × Bool
    respawned = restore_respawn_timers info.respawn_timers mob_timer_group m.now id4 mine

    -- The session at the end of the `try`.
    abbrev pub tried : Session
    tried = record s { timers = respawned.0; players = players; restoring = true }

    abbrev begun : Session
    begun = record s { players = players; restoring = true }

    mine_quiet :
        restore_self_rows m info (
          operate m
            (λ t. (remove_group mob_timer_group t).0)
            (operate m (λ t. (remove_self_rows t).0) begun))
        ≡ with_timers mine begun
    mine_quiet =
        let ops : (Timers → Timers) = λ t. (remove_group mob_timer_group t).0 in
        let op : (Timers → Timers) = λ t. (remove_self_rows t).0 in
        ap (λ x. restore_self_rows m info (operate m ops x)) (operate_quiet m op begun refl)
        ∙ ap (restore_self_rows m info) (operate_quiet m ops (with_timers (op s.timers) begun) refl)
        ∙ restore_self_rows_quiet m info (with_timers (ops (op s.timers)) begun) refl

    respawns_quiet : restore_respawns m info id4 (with_timers mine begun) ≡ (tried, respawned.1)
    respawns_quiet =
        ap (λ x. (x, respawned.1))
          (operate_quiet m
            (λ t. (restore_respawn_timers info.respawn_timers mob_timer_group m.now id4 t).0)
            (with_timers mine begun) refl)

  pub change_to-quiet :
      (s : Session)
      → let (info, players) = get_player name server s.players in
        change_to m name server s
        ≡ finish_change m (tried s info players, (respawned s info players).1)
  change_to-quiet s =
      let (info, players) = get_player name server s.players in
      ap (λ x. finish_change m (restore_respawns m info (id4 s info players) x))
        (mine_quiet s info players)
      ∙ ap (finish_change m) (respawns_quiet s info players)

  mine-NoneOfMine :
      (s : Session)
      → NoneOfMine m.now (remove_group mob_timer_group (remove_self_rows s.timers).0).0
  mine-NoneOfMine s =
      let (n0, n1, n2, n3) = remove_self_rows_lem m.now s.timers in
      remove_group-NoneOfMine mob_timer_group m.now (remove_self_rows s.timers).0 (n1, n2, n3)

  pub mine-respawns :
      (s : Session) (info : PlayerInfo) (players : List PlayerInfo)
      → export_respawn_timers mob_timer_group m.now (mine s info players).rows ≡ []
  mine-respawns s info players =
      restored-respawns m info (remove_group mob_timer_group (remove_self_rows s.timers).0).0
      ∙ remove_group-respawns mob_timer_group m.now (remove_self_rows s.timers).0

  mine-SavedAgain :
      (s : Session) (info : PlayerInfo) (players : List PlayerInfo)
      → All IsSnapped info.you_cooldowns
      → SavedAgain m.now m.spells info (mine s info players)
  mine-SavedAgain s info players snapped =
      let (a, b, c) = mine-NoneOfMine s in
      restored-SavedAgain m info (remove_group mob_timer_group (remove_self_rows s.timers).0).0
        snapped a b c

  pub respawned-SavedAgain :
      (s : Session) (info : PlayerInfo) (players : List PlayerInfo)
      → All IsSnapped info.you_cooldowns
      → SavedAgain m.now m.spells info (respawned s info players).0
  respawned-SavedAgain s info players snapped =
      let (a, b, c) = mine-SavedAgain s info players snapped in
      let i = id4 s info players in
      let t = mine s info players in
      (
        restore_respawn_timers-spells m.now m.now i info.respawn_timers t ∙ a,
        restore_respawn_timers-cooldowns m.now m.now i info.respawn_timers t ∙ b,
        restore_respawn_timers-counters m.now i info.respawn_timers t ∙ c,
      )
