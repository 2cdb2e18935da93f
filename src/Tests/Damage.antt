-- ===== src/Tests/Damage.antt =====
-- The damage meter at concrete inputs.
use nparse_plus.Prelude.{ℕ, ◌+◌, ◌<◌, ◌≡◌, refl, none, some, List, [], ◌∷◌, All, keep, arith, false}
use nparse_plus.Text.{Text, codes, casefold, text_eq, isspace}
use nparse_plus.Damage.Entity.{FightEntity, new_entity, update_trailing}
use nparse_plus.Damage.Entity
use nparse_plus.Damage.Tracker.{Rules, melee_mine, DamageEvent, new_tracker}
use nparse_plus.Damage.Runs.{Call, damaged, died, ticked, cast_noted, run}
use nparse_plus.Damage.Operations.{add_damage}
use nparse_plus.Damage.Rows.{snapshot, fight_parse}
use nparse_plus.Damage.Fight.{Fight, is_dead}
use nparse_plus.Damage.Windows.{total}
use nparse_plus.Damage.Numbers.{HasRightNumbers, run-numbers}
use nparse_plus.Damage.Conservation.{damage_in, counted_damage, add_damage-total}
use nparse_plus.Damage.Readings.{is_recent, update_trailing-sum}
use nparse_plus.Damage.Session.{run-highest_hit}

abbrev rules : Rules
rules = record {
  damage_sources = melee_mine;
  fight_retention = 40000000;
  trailing_window = 12000000;
  session_min_fight = 20000000;
  spell_credit_window = 2000000;
  count_pet_damage = false;
}

abbrev swing : ℕ → ℕ → DamageEvent
swing timestamp damage = record {
  timestamp = timestamp;
  target_name = codes "a rat";
  attacker_name = codes "You";
  damage_done = damage;
  damage_type = codes "slash";
  level_guess = none;
}

abbrev nuke : DamageEvent
nuke = record (swing 13000000 90) { damage_type = codes "non-melee" }

-- Two swings, a spell and the nuke that it lands, then a third swing, a tick, and the death.
abbrev fight_calls : List Call
fight_calls =
    damaged (swing 1000000 30)
    ∷ damaged (swing 10000000 20)
    ∷ cast_noted 10000000 2000000
    ∷ damaged nuke
    ∷ damaged (swing 23000000 7)
    ∷ ticked 24000000
    ∷ died (codes "A rat") 25000000
    ∷ []

best_windows : List (Text × FightEntity) → List ℕ
best_windows [] = []
best_windows ((k, e) ∷ es) = e.best_window_damage ∷ best_windows es

bests : List Fight → List (List ℕ)
unfolding best_windows
bests [] = []
bests (f ∷ fs) = best_windows f.entities ∷ bests fs

-- The nuke shares a window with the second swing, not with the first.
bests_test : bests (run fight_calls (new_tracker rules)).fights ≡ (110 ∷ []) ∷ []
unfolding run bests best_windows casefold text_eq isspace new_tracker is_dead Entity.add_damage
bests_test = refl

parse_test :
    fight_parse (snapshot 25000000 (run fight_calls (new_tracker rules))) (codes "A RAT")
    ≡ codes "Fight Details: a rat Dmg: 147    You 100% DPS:6 DMG:147"
unfolding fight_parse snapshot run casefold text_eq isspace new_tracker is_dead Entity.add_damage
parse_test = refl

run-numbers_example :
    All
      (λ (f : Fight). All (λ (entry : Text × FightEntity). HasRightNumbers entry.1) f.entities)
      (run fight_calls (new_tracker rules)).fights
run-numbers_example =
    run-numbers rules fight_calls (omega arith, (omega arith, (omega arith, (omega arith, tt))))

run-highest_hit_example : (run fight_calls (new_tracker rules)).current_session.highest_hit < 32000
run-highest_hit_example = run-highest_hit rules fight_calls

add_damage-total_example :
    damage_in (add_damage nuke (run fight_calls (new_tracker rules))).fights
    ≡ damage_in (run fight_calls (new_tracker rules)).fights
      + counted_damage nuke (run fight_calls (new_tracker rules))
add_damage-total_example = add_damage-total nuke (run fight_calls (new_tracker rules))

abbrev hit_twice : FightEntity
hit_twice = record (new_entity (codes "You") (codes "a rat") 0 12000000) {
  hits = record { time = 1000000; damage = 30 } ∷ record { time = 9000000; damage = 20 } ∷ [];
}

-- The first hit is older than the window.
update_trailing-sum_example :
    (update_trailing 20000000 (some 12000000) hit_twice).trailing_damage
    ≡ total (keep (is_recent 12000000 20000000) hit_twice.hits)
update_trailing-sum_example =
    update_trailing-sum 20000000 12000000 hit_twice (omega arith, (omega arith, tt)) refl refl

trailing_test : total (keep (is_recent 12000000 20000000) hit_twice.hits) ≡ 20
trailing_test = refl
