-- ===== src/Tests/Data.antt =====
-- A small spell window, on which the tests run.
use nparse_plus.Prelude.{ℕ, ◌*◌, true, false, none, some, List, [], ◌∷◌}
use nparse_plus.Text.{Text, codes}
use nparse_plus.Spells.{Spell, beneficial, cleric}
use nparse_plus.Spells.Durations.{second}
use nparse_plus.Timers.Rows.{
  Row, Kind, Countdown, SpellFields, TimerFields, spell_row, timer_row, counter_row, roll_row,
  no_window, you_group,
}
use nparse_plus.Timers.Service.{Timers}

abbrev pub clarity : Spell
clarity = record {
  spell_id = 174;
  name = codes "Clarity";
  cast_on_you = [];
  cast_on_other = [];
  spell_fades = [];
  cast_time_ms = 4000;
  recast_time_ms = 2250;
  buff_duration_formula = 3;
  pvp_buff_duration_formula = 0;
  buff_duration_ticks = 270;
  resist_type = 0;
  spell_type = 5;
  class_levels = (cleric, 29) ∷ [];
  spell_icon = 0;
  descr_number = 0;
  benefit_detriment = beneficial;
}

abbrev pub breeze : Spell
breeze = record clarity { spell_id = 697; name = codes "Breeze"; buff_duration_ticks = 200 }

abbrev pub buff : SpellFields
buff = record {
  spell = clarity;
  detrimental = false;
  is_cooldown = false;
  post_expiry_persist = 5 * second;
  expired_at = none;
  alternatives = breeze ∷ [];
}

abbrev pub row_of : ℕ → Text → Text → Kind → Row
row_of i name group kind = record {
  row_id = i;
  name = name;
  group = group;
  updated_at = 0;
  is_target_player = true;
  owner = [];
  kind = kind;
}

abbrev pub ends : ℕ → Countdown
ends n = record { ends_at = n * second; total_duration = 5 * second }

abbrev pub windowed : TimerFields
windowed = record no_window { window_ends_at = some (20 * second) }

-- A buff that lingers, a mob with a window, a counter and a roll.
abbrev pub screen : List Row
screen =
    row_of 1 (codes "Clarity") you_group (spell_row (ends 10) buff)
    ∷ row_of 2 (codes "Trakanon") (codes "  Mob Timers") (timer_row (ends 10) windowed)
    ∷ row_of 3 (codes "Jolt") (codes "a rat") (counter_row 4)
    ∷ row_of 4 (codes "Bilbo") (codes "Random -- 100") (roll_row (ends 30) 17 100)
    ∷ []

abbrev pub shown : Timers
shown = record { rows = screen; notices = [] }
