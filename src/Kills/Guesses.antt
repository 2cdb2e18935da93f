-- ===== src/Kills/Guesses.antt =====
-- Bursts of lines without a slain line (core/handlers/spawn_timer.py).
use nparse_plus.Prelude.{List, [], ◌∷◌}
use nparse_plus.Text.{Text}
use nparse_plus.Kills.Correlation.{faction_slain, exp_slain}
use nparse_plus.Kills.Bursts.{Hint, faction_hint, exp_hint}

abbrev pub victim_of : Hint → Text
victim_of (faction_hint t l) = faction_slain
victim_of (exp_hint t l) = exp_slain

abbrev pub last_victim : Hint → List Hint → Text
last_victim h [] = victim_of h
last_victim h (g ∷ hs) = last_victim g hs
