-- ===== src/Tests/Kills.antt =====
-- Kills and their respawn rows at concrete inputs.
use nparse_plus.Prelude.{
  ◌≡◌, ◌⊎◌, refl, true, false, Option, some, none, List, [], ◌∷◌, ◌++◌, arith, length-keep-le,
}
use nparse_plus.Text.{Text, codes, casefold, lower, name_eq, text_eq}
use nparse_plus.Text.Decimal.{decimal}
use nparse_plus.Timers.Rows.{is_timer, Row}
use nparse_plus.Timers.Service.{same_key, Timers, find}
use nparse_plus.Kills.Zones.{ZoneDatabase, ZoneInfo, spawn_time, is_notable_kill}
use nparse_plus.Kills.Correlation.{LogEvent, slain, line_read, you, Death, reset, handle_all}
use nparse_plus.Kills.Bursts.{Hint, faction_hint, exp_hint, events_of, IsOneKill, slain_burst}
use nparse_plus.Kills.SpawnTimers.{
  Context, is_free, numbered, respawn_row, dead_name, do_event_rows, unique_dead_name,
}
use nparse_plus.Kills.Names.{IsLeastFree, AllTaken, unique_dead_name-least}
use nparse_plus.Kills.OneEach.{HasOneEach, do_event_rows-HasOneEach}

abbrev hints : List Hint
hints =
    faction_hint 5000000 (codes "Your faction standing with Rats got worse.")
    ∷ faction_hint 5000000 (codes "Your faction standing with Cats got better.")
    ∷ exp_hint 5000000 (codes "You gain experience!!")
    ∷ []

abbrev slain_line : LogEvent
slain_line = record { timestamp = 5000000; line = codes "You have slain a rat!"; line_number = 7 }

abbrev next_line : LogEvent
next_line = record { timestamp = 9000000; line = codes "You are hungry."; line_number = 11 }

hints-IsOneKill : IsOneKill [] false hints
unfolding text_eq
hints-IsOneKill = (refl, refl, (refl, refl, (refl, tt)))

not_you : text_eq (codes "a rat") you ≡ false
unfolding text_eq
not_you = refl

slain_burst_example :
    handle_all
      (slain slain_line (codes "a rat") you
        ∷ line_read slain_line
        ∷ (events_of 8 hints ++ line_read next_line ∷ []))
      reset
    ≡ (
      reset,
      record { event = slain_line; victim = codes "a rat"; killer = you; guess = false } ∷ [],
    )
slain_burst_example =
    slain_burst slain_line next_line (codes "a rat") you hints not_you hints-IsOneKill refl

abbrev sky : ZoneInfo
sky = record {
  respawn_seconds = 28800;
  notable_npcs = codes "Gorgalosk" ∷ [];
  npc_spawn_times = record { name = codes "Gorgalosk"; seconds = 600 } ∷ [];
  npc_contains_spawn_times = record { name = codes "azarack"; seconds = 900 } ∷ [];
}

abbrev database : ZoneDatabase
database = record {
  zones = (codes "airplane", sky) ∷ [];
  kael_faction_mobs = [];
  name_to_short = (codes "plane of sky", codes "airplane") ∷ [];
  who_to_name = [];
}

-- An exact name, a part of a name, the time of the zone, and an unknown zone.
spawn_time_test :
    (spawn_time (codes " gorgalosk") (some (codes "Airplane")) database ≡ 600)
    × (spawn_time (codes "an azarack") (some (codes "airplane")) database ≡ 900)
    × (spawn_time (codes "a rat") (some (codes "airplane")) database ≡ 28800)
    × (spawn_time (codes "a rat") none database ≡ 400)
unfolding spawn_time text_eq
spawn_time_test = (refl, refl, refl, refl)

is_notable_kill_test :
    (is_notable_kill (codes "GORGALOSK") (some (codes "airplane")) database ≡ true)
    × (is_notable_kill (codes "a rat") (some (codes "airplane")) database ≡ false)
unfolding is_notable_kill casefold text_eq lower
is_notable_kill_test = (refl, refl)

abbrev context : Context
context = record {
  npcs = codes "gorgalosk" ∷ [];
  known_players = codes "Soandso" ∷ [];
  zone = codes "airplane";
  zones = database;
  restarts = true;
}

abbrev death : Death
death = record { event = slain_line; victim = codes "Gorgalosk"; killer = you; guess = false }

-- A boss that died before, and whose row still runs.
abbrev before : Timers
before = record {
  rows = respawn_row 1 (dead_name (codes "Gorgalosk")) 1000000 600 ∷ [];
  notices = [];
}

names_of : List Row → List Text
names_of [] = []
names_of (r ∷ rows) = r.name ∷ names_of rows

names_after : Option Timers → List Text
names_after none = []
names_after (some s) = names_of s.rows

do_event_rows_test :
    names_after (do_event_rows death context 2 before)
    ≡ codes "--Dead-- Gorgalosk"
      ∷ codes "--Dead-- Gorgalosk_1"
      ∷ codes "--Sirran the Lunatic-- "
      ∷ []
unfolding names_of do_event_rows names_after respawn_row text_eq casefold name_eq decimal
do_event_rows_test = refl

one_is_free : is_free before.rows (numbered (dead_name (codes "Gorgalosk")) 1) ≡ true
unfolding find respawn_row decimal text_eq casefold name_eq
one_is_free = refl

before-HasOneEach : HasOneEach before.rows
before-HasOneEach k g = length-keep-le (same_key is_timer k) before.rows

do_event_rows-HasOneEach_example :
    (s' : Timers) × (do_event_rows death context 2 before ≡ some s') × HasOneEach s'.rows
do_event_rows-HasOneEach_example =
    do_event_rows-HasOneEach death context 2 1 before (omega arith) one_is_free before-HasOneEach

unique_dead_name-least_example :
    IsLeastFree
      (dead_name (codes "Gorgalosk"))
      before.rows
      0
      (unique_dead_name (dead_name (codes "Gorgalosk")) before.rows)
    ⊎ (AllTaken (dead_name (codes "Gorgalosk")) before.rows 0
        × (unique_dead_name (dead_name (codes "Gorgalosk")) before.rows
            ≡ numbered (dead_name (codes "Gorgalosk")) 999))
unique_dead_name-least_example = unique_dead_name-least (dead_name (codes "Gorgalosk")) before.rows
