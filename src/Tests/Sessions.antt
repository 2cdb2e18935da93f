-- ===== src/Tests/Sessions.antt =====
-- A character that camps and logs in, and one that another follows.
use nparse_plus.Prelude.{
  ◌*◌, ◌≡◌, refl, false, ◌&&◌, none, some, [], ◌∷◌, collect, keep, any, if◌then◌else◌,
}
use nparse_plus.Text.{codes, text_eq}
use nparse_plus.Spells.{cleric}
use nparse_plus.Spells.Book.{SpellBook}
use nparse_plus.Spells.Durations.{second}
use nparse_plus.Timers.Rows.{no_window, validate, snap_to_second}
use nparse_plus.Timers.Removals.{clear_all}
use nparse_plus.Timers.Persistence.{
  RespawnTimerSnapshot, export_you_spells, export_self_cooldowns, export_self_counters,
  export_respawn_timers,
}
use nparse_plus.Timers.Restore.Respawns.{is_orphan, running}
use nparse_plus.Timers.Restore.RoundTrip.{resaved_spell, resaved_counter, resaved_cooldown}
use nparse_plus.Sessions.Profiles.{PlayerInfo, find_player, new_player}
use nparse_plus.Sessions.TimerPersistence.{
  ActivePlayer, Moment, Session, profile_key, snapshot, on_camp, on_welcome,
  on_after_player_changed, mob_timer_group,
}
use nparse_plus.Sessions.Camp.{change, before_change, camp_again, steps, on_welcome-on_camp}
use nparse_plus.Sessions.Swap.{on_after_player_changed-restores, on_after_player_changed-raises}
use nparse_plus.Sessions.Others.{handle, welcome, handle-others}
use nparse_plus.Tests.Data.{clarity, breeze, screen, shown}

abbrev book : SpellBook
book = record { all_spells = (codes "clarity", clarity) ∷ (codes "breeze", breeze) ∷ [] }

abbrev ayla : ActivePlayer
ayla = record {
  name = codes "Ayla";
  server_key = some (codes "green");
  player_class = some cleric;
  level = some 40;
}

-- The last line of the log is at second 3; the clock has gone on.
abbrev at_camp : Moment
at_camp = record {
  now = 8 * second;
  later = 8 * second;
  log_clock = some (3 * second);
  player = ayla;
  spells = book;
  new_id = 100;
}

abbrev at_login : Moment
at_login = record at_camp {
  now = 400 * second;
  later = 401 * second;
  log_clock = some (400 * second);
}

abbrev playing : Session
playing = record {
  timers = shown;
  players = [];
  restoring = false;
  camped = false;
  last_export_anchor = none;
  saves = 0;
}

on_welcome-on_camp_example :
    let away =
      change at_login (λ t. (clear_all t).0) ∷ before_change at_login ∷ camp_again at_login ∷ [] in
    let s' = on_welcome at_login (steps away (on_camp at_camp playing)) in
    (export_you_spells (400 * second) s'.timers.rows
      ≡ collect (resaved_spell book) (export_you_spells (3 * second) screen))
    × (export_self_cooldowns (400 * second) s'.timers.rows
        ≡ collect
            (resaved_cooldown (400 * second) book)
            (export_self_cooldowns (3 * second) screen))
    × (export_self_counters s'.timers.rows
        ≡ collect (resaved_counter (400 * second)) (export_self_counters screen))
    × (s'.camped ≡ false)
    × (s'.restoring ≡ false)
unfolding profile_key validate snap_to_second
on_welcome-on_camp_example =
    on_welcome-on_camp at_camp at_login playing
      (change at_login (λ t. (clear_all t).0) ∷ before_change at_login ∷ camp_again at_login ∷ [])
      (codes "Ayla") (codes "green") refl refl refl (refl, (refl, (refl, (refl, tt))))

abbrev vox : RespawnTimerSnapshot
vox = record {
  name = codes "Vox";
  ends_at = 500 * second;
  total_duration = 60 * second;
  window = record no_window {
    window_ends_at = some (600 * second);
    window_series = codes "vox";
    window_index = 1;
    window_count = 3;
  };
}

abbrev stored : PlayerInfo
stored = record (new_player (codes "Ayla") (codes "green")) {
  you_spells = record { name = codes "Clarity"; total_seconds_left = 90 } ∷ [];
  respawn_timers = vox ∷ [];
}

abbrev known : Session
known = record playing { players = new_player (codes "Borin") (codes "green") ∷ stored ∷ [] }

on_after_player_changed-restores_example :
    let (s', raised) = on_after_player_changed at_login known in
    (raised ≡ false)
    × (s'.camped ≡ false)
    × (export_you_spells (400 * second) s'.timers.rows
        ≡ collect (resaved_spell book) stored.you_spells)
    × (export_self_cooldowns (400 * second) s'.timers.rows ≡ [])
    × (export_self_counters s'.timers.rows ≡ [])
    × (export_respawn_timers mob_timer_group (400 * second) s'.timers.rows
        ≡ keep (running (400 * second)) (vox ∷ []))
unfolding profile_key find_player text_eq validate snap_to_second
on_after_player_changed-restores_example =
    on_after_player_changed-restores at_login known (codes "Ayla") (codes "green") stored refl refl
      tt (refl, tt)

-- The same timer without its window.
abbrev edited : PlayerInfo
edited = record stored {
  respawn_timers = record vox { window = record vox.window { window_ends_at = none } } ∷ [];
}

abbrev broken : Session
broken = record playing { players = edited ∷ [] }

on_after_player_changed-raises_test :
    let (s', raised) = on_after_player_changed at_login broken in
    (raised ≡ any (is_orphan (400 * second)) edited.respawn_timers)
    × (s'.restoring ≡ false)
    × (s'.camped ≡ (raised && false))
    × (find_player (codes "Ayla") (codes "green") s'.players
        ≡ some (if raised then edited else snapshot (400 * second) s'.timers edited))
unfolding profile_key find_player text_eq
on_after_player_changed-raises_test =
    on_after_player_changed-raises at_login broken (codes "Ayla") (codes "green") edited refl refl

handle-others_example :
    find_player (codes "Borin") (codes "green") (handle welcome at_login known).players
    ≡ find_player (codes "Borin") (codes "green") known.players
unfolding profile_key text_eq
handle-others_example = handle-others welcome at_login known (codes "Borin") (codes "green") refl
