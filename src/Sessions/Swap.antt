-- ===== src/Sessions/Swap.antt =====
-- Changing to another character.
use nparse_plus.Prelude.{
  ◌≡◌, refl, sym, ap, ap₂, subst, ◌∙◌, Bool, true, false, ◌&&◌, some, List, All, collect, any, keep,
  if◌then◌else◌,
}
use nparse_plus.Text.{Text}
use nparse_plus.Timers.Service.{Timers}
use nparse_plus.Timers.Persistence.{
  export_you_spells, export_self_cooldowns, export_self_counters, export_respawn_timers,
}
use nparse_plus.Timers.Restore.RoundTrip.{
  resaved_spell, resaved_counter, resaved_cooldown, IsSnapped,
}
use nparse_plus.Timers.Restore.Respawns.{
  IsValidItem, running, is_orphan, restore_respawn_timers-raises, restore_respawn_timers-valid,
}
use nparse_plus.Sessions.Profiles.{PlayerInfo, find_player, get-find_player}
use nparse_plus.Sessions.TimerPersistence.{
  Moment, Session, profile_key, finish_change, snapshot, anchor_or, on_after_player_changed,
  mob_timer_group,
}
use nparse_plus.Sessions.Quiet.{
  export_now-timers, export_now-camped, export_now-restoring, export_now-players,
}
use nparse_plus.Sessions.Restored.{SavedAgain}
use nparse_plus.Sessions.Trying.{
  on_after-some, mine, id4, respawned, tried, change_to-quiet, mine-respawns, respawned-SavedAgain,
}

-- What a session is after the `try` and the lines behind it, from whether a ValueError came out.
abbrev Finished : Moment → Text → Text → PlayerInfo → Session → Bool → Session × Bool → Type 0
Finished m name server info x b (s', raised) =
    (raised ≡ b)
    × (s'.timers ≡ x.timers)
    × (s'.restoring ≡ false)
    × (s'.camped ≡ (b && x.camped))
    × (find_player name server s'.players
        ≡ some (if b then info else snapshot (anchor_or m.log_clock m.later) x.timers info))

module _ (m : Moment) (name server : Text) (k : profile_key m.player ≡ some (name, server)) where
  finish-Finished :
      (s : Session) (info : PlayerInfo) (players : List PlayerInfo) (x : Session) (b : Bool)
      → find_player name server x.players ≡ some info
      → Finished m name server info x b (finish_change m (x, b))
  finish-Finished s info players x true found = (refl, refl, refl, refl, found)
  finish-Finished s info players x false found =
      let last : Session = record x { restoring = false; camped = false } in
      (
        refl,
        export_now-timers m m.later last,
        export_now-restoring m m.later last,
        export_now-camped m m.later last,
        export_now-players m m.later last name server k refl
            ∙ ap (λ g. some (snapshot (anchor_or m.log_clock m.later) x.timers g.0))
                (get-find_player name server info x.players found),
      )

  on_after-Finished :
      (s : Session) (info : PlayerInfo)
      → find_player name server s.players ≡ some info
      → Finished m name server info
          (tried m name server k s info s.players)
          (respawned m name server k s info s.players).1
          (on_after_player_changed m s)
  on_after-Finished s info found =
      let done : PlayerInfo × List PlayerInfo → Session × Bool = λ g.
        finish_change m
          (tried m name server k s g.0 g.1, (respawned m name server k s g.0 g.1).1) in
      let x = tried m name server k s info s.players in
      let b = (respawned m name server k s info s.players).1 in
      let e : on_after_player_changed m s ≡ done (info, s.players) =
        on_after-some m name server k s
        ∙ change_to-quiet m name server k s
        ∙ ap done (get-find_player name server info s.players found) in
      subst (Finished m name server info x b) (sym e) (finish-Finished s info s.players x b found)

-- Changing to a character with a profile brings back all four stores of it and raises nothing: its
-- buffs, cooldowns and counters as at a login, and its respawn timers less those that are over. The
-- mob timers and the own rows of the other character are gone, whatever was on the screen, and the
-- handler is no longer camped. The stored cooldowns end at whole seconds, and the stored respawn
-- timers are valid.
pub on_after_player_changed-restores :
    (m : Moment) (s : Session) (name server : Text) (info : PlayerInfo)
    → profile_key m.player ≡ some (name, server)
    → find_player name server s.players ≡ some info
    → All IsSnapped info.you_cooldowns
    → All IsValidItem info.respawn_timers
    → let (s', raised) = on_after_player_changed m s in
      (raised ≡ false)
      × (s'.camped ≡ false)
      × (export_you_spells m.now s'.timers.rows ≡ collect (resaved_spell m.spells) info.you_spells)
      × (export_self_cooldowns m.now s'.timers.rows
          ≡ collect (resaved_cooldown m.now m.spells) info.you_cooldowns)
      × (export_self_counters s'.timers.rows ≡ collect (resaved_counter m.now) info.you_counters)
      × (export_respawn_timers mob_timer_group m.now s'.timers.rows
          ≡ keep (running m.now) info.respawn_timers)
on_after_player_changed-restores m s name server info k found snapped valid =
    let (raised, timers, r, camped, p) = on_after-Finished m name server k s info found in
    let t = mine m name server k s info s.players in
    let i = id4 m name server k s info s.players in
    let (fine, respawns) =
      restore_respawn_timers-valid mob_timer_group m.now i info.respawn_timers t valid
        (mine-respawns m name server k s info s.players) in
    let (a, b, c) =
      subst (SavedAgain m.now m.spells info) (sym timers)
        (respawned-SavedAgain m name server k s info s.players snapped) in
    (
      raised ∙ fine,
      camped ∙ ap (λ x. x && s.camped) fine,
      a,
      b,
      c,
      ap (λ (x : Timers). export_respawn_timers mob_timer_group m.now x.rows) timers ∙ respawns,
    )

-- Changing to a character raises exactly where its profile holds a respawn timer that is not over
-- and claims a place in a series of windows without a window. Then the profile is left as it was
-- stored, and a camp lasts; else the profile is what the timers save now, and the camp is over.
-- Either way the handler is not restoring.
pub on_after_player_changed-raises :
    (m : Moment) (s : Session) (name server : Text) (info : PlayerInfo)
    → profile_key m.player ≡ some (name, server)
    → find_player name server s.players ≡ some info
    → let (s', raised) = on_after_player_changed m s in
      (raised ≡ any (is_orphan m.now) info.respawn_timers)
      × (s'.restoring ≡ false)
      × (s'.camped ≡ (raised && s.camped))
      × (find_player name server s'.players
          ≡ some (if raised then info else snapshot (anchor_or m.log_clock m.later) s'.timers info))
on_after_player_changed-raises m s name server info k found =
    let (raised, timers, r, camped, p) = on_after-Finished m name server k s info found in
    let i = id4 m name server k s info s.players in
    let t = mine m name server k s info s.players in
    (
      raised ∙ restore_respawn_timers-raises info.respawn_timers mob_timer_group m.now i t,
      r,
      camped ∙ ap (λ x. x && s.camped) (sym raised),
      p
          ∙ ap₂
              (λ b (x : Timers).
                some (if b then info else snapshot (anchor_or m.log_clock m.later) x info))
              (sym raised) (sym timers),
    )
