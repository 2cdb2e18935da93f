-- ===== src/Tests/Restore.antt =====
-- What is saved and restored.
use nparse_plus.Prelude.{◌*◌, ◌≡◌, refl, true, false, some, List, [], ◌∷◌, ◌++◌, keep, any, collect}
use nparse_plus.Text.{codes}
use nparse_plus.Spells.{cleric}
use nparse_plus.Spells.Book.{SpellBook}
use nparse_plus.Spells.Durations.{second}
use nparse_plus.Timers.Rows.{no_window, validate, snap_to_second}
use nparse_plus.Timers.Service.{empty}
use nparse_plus.Tests.Data.{clarity, breeze, screen, shown}
use nparse_plus.Timers.Persistence.{
  YouSpellSnapshot, SelfCooldownSnapshot, SelfCounterSnapshot, RespawnTimerSnapshot,
  export_you_spells, export_self_cooldowns, export_self_counters, export_respawn_timers,
}
use nparse_plus.Timers.Restore.{
  restore_you_spells, restore_self_cooldowns, restore_self_counters, restore_respawn_timers,
}
use nparse_plus.Timers.Restore.Respawns.{
  is_orphan, running, restore_respawn_timers-raises, restore-export_respawn_timers,
}
use nparse_plus.Timers.Restore.RoundTrip.{
  resaved_spell, resaved_counter, resaved_cooldown, restore-export_you_spells,
  restore-export_self_counters, restore-export_self_cooldowns,
}

abbrev book : SpellBook
book = record { all_spells = (codes "clarity", clarity) ∷ (codes "breeze", breeze) ∷ [] }

abbrev spells : List YouSpellSnapshot
spells =
    record { name = codes "Clarity"; total_seconds_left = 90 }
    ∷ record { name = codes "Gone"; total_seconds_left = 5 }
    ∷ []

restore-export_you_spells_example :
    export_you_spells
      (7 * second)
      (restore_you_spells spells (7 * second) book (some cleric) (some 40) 10 shown).rows
    ≡ export_you_spells (7 * second) screen ++ collect (resaved_spell book) spells
restore-export_you_spells_example =
    restore-export_you_spells (7 * second) book (some cleric) (some 40) spells 10 shown

abbrev counters : List SelfCounterSnapshot
counters =
    record { name = codes "Songs"; count = 3; updated_at = 5 * second }
    ∷ record { name = codes "Old"; count = 9; updated_at = 0 }
    ∷ []

restore-export_self_counters_test :
    export_self_counters (restore_self_counters counters (603 * second) 10 shown).rows
    ≡ export_self_counters screen ++ collect (resaved_counter (603 * second)) counters
restore-export_self_counters_test = restore-export_self_counters counters (603 * second) 10 shown

abbrev cooldowns : List SelfCooldownSnapshot
cooldowns =
    record {
      name = codes "Mend";
      ends_at = 300 * second;
      total_duration = 360 * second;
      spell_name = [];
    }
    ∷ record {
      name = codes "Cast";
      ends_at = 5 * second;
      total_duration = 360 * second;
      spell_name = codes "Clarity";
    }
    ∷ []

restore-export_self_cooldowns_test :
    export_self_cooldowns
      (7 * second)
      (restore_self_cooldowns cooldowns (7 * second) book 10 shown).rows
    ≡ export_self_cooldowns (7 * second) screen
      ++ collect (resaved_cooldown (7 * second) book) cooldowns
unfolding snap_to_second
restore-export_self_cooldowns_test =
    restore-export_self_cooldowns cooldowns (7 * second) book 10 shown (refl, (refl, tt))

-- A hand-edited timer: the first window of three, with no window.
abbrev edited : List RespawnTimerSnapshot
edited =
    record {
      name = codes "Vox";
      ends_at = 100 * second;
      total_duration = 60 * second;
      window = record no_window { window_series = codes "vox"; window_index = 1; window_count = 3 };
    }
    ∷ []

restore_respawn_timers-raises_example :
    (restore_respawn_timers edited (codes "  Mob Timers") (7 * second) 10 shown).1
    ≡ any (is_orphan (7 * second)) edited
restore_respawn_timers-raises_example =
    restore_respawn_timers-raises edited (codes "  Mob Timers") (7 * second) 10 shown

-- Such a timer makes the restore raise.
raises_test : (restore_respawn_timers edited (codes "  Mob Timers") (7 * second) 10 shown).1 ≡ true
raises_test = restore_respawn_timers-raises edited (codes "  Mob Timers") (7 * second) 10 shown

restore-export_respawn_timers_example :
    let saved = export_respawn_timers (codes "  Mob Timers") (3 * second) screen in
    let (s', raised) = restore_respawn_timers saved (codes "  Mob Timers") (11 * second) 10 empty in
    (raised ≡ false)
    × (export_respawn_timers (codes "  Mob Timers") (11 * second) s'.rows
        ≡ keep (running (11 * second)) saved)
unfolding export_respawn_timers validate snap_to_second
restore-export_respawn_timers_example =
    restore-export_respawn_timers (codes "  Mob Timers") (3 * second) (11 * second) 10 screen empty
      (refl, (refl, (refl, (refl, tt)))) refl
