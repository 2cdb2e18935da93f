-- ===== src/Tests/BardCount.antt =====
-- The tallies of a bard's songs at concrete inputs.
use nparse_plus.Prelude.{◌+◌, ◌≡◌, refl, true, false, Option, some, none, List, [], ◌∷◌, ◌++◌}
use nparse_plus.Text.{codes, casefold, lower, name_eq, text_eq}
use nparse_plus.Timers.Service.{empty}
use nparse_plus.BardCount.Lines.{
  resist_target, resist_you, is_hit_line, normalize_spell_name, has_double,
}
use nparse_plus.BardCount.Names.{normalize_spell_name-single}
use nparse_plus.BardCount.Sessions.{Session, CounterLists, BardCount, hit}
use nparse_plus.BardCount.Handlers.{
  Output, comms, overlay, speech, emit, Event, line_read, resisted, casting_begun, run, flush,
}
use nparse_plus.BardCount.Attaching.{total}
use nparse_plus.BardCount.Conservation.{told, run-total}

lines_test :
    (resist_target (codes "Your target resisted the Selo`s Chords spell.")
      ≡ some (codes "Selo`s Chords"))
    × (resist_target (codes "YOUR target resisted Chords.") ≡ some (codes "Chords"))
    × (resist_target (codes "Your target resisted the.") ≡ some (codes "the"))
    × (resist_you (codes "You resist the Chords of Dissonance spell!")
        ≡ some (codes "Chords of Dissonance"))
    × (resist_you (codes "You resist") ≡ none)
    × (is_hit_line (codes "a rat winces.") ≡ true)
    × (is_hit_line (codes "a rat twinces.") ≡ false)
    × (is_hit_line (codes "A rat IS BOUND in chords of music!") ≡ true)
unfolding resist_target resist_you is_hit_line lower text_eq
lines_test = (refl, refl, refl, refl, refl, refl, refl, refl)

normalize_spell_name_test :
    normalize_spell_name (codes " Denon`s    Disruptive  Discord ")
    ≡ codes "Denon's Disruptive Discord"
unfolding normalize_spell_name
normalize_spell_name_test = refl

normalize_spell_name-single_example :
    has_double (normalize_spell_name (codes " Denon`s    Disruptive  Discord ")) ≡ false
normalize_spell_name-single_example =
    normalize_spell_name-single (codes " Denon`s    Disruptive  Discord ")

abbrev lists : CounterLists
lists = record {
  spells_that_need_counts = codes "Chords of Dissonance" ∷ [];
  bard_spells_that_need_resists = codes "Chords of Dissonance" ∷ [];
}

abbrev start : BardCount
start = record { sessions = []; casting_spell_name = []; timers = some empty; new_id = 1 }

-- Two hits and a resist of one pulse.
abbrev pulse : List Event
pulse =
    line_read 1000000 (codes "a rat winces.")
    ∷ line_read 1400000 (codes "Your target resisted the Chords of Dissonance spell.")
    ∷ casting_begun (codes "Chords of Dissonance")
    ∷ line_read 1500000 (codes "a bat winces.")
    ∷ []

-- And a resist much later.
abbrev pulses : List Event
pulses =
    pulse
    ++ line_read 4000000 (codes "You are hungry.")
      ∷ resisted 9000000 (codes "Chords of Dissonance")
      ∷ []

summaries : List Session → List Output
summaries [] = []
summaries (s ∷ ss) = emit true true s ++ summaries ss

summaries_of : Option (BardCount × List Session) → List Output
summaries_of none = []
summaries_of (some (h, out)) = summaries (out ++ (flush h).1)

run_test :
    summaries_of (run lists pulse start)
    ≡ comms 1500000 (codes "3 Total | 2 Hits | 1 Resist")
      ∷ overlay (codes "3 Total | 2 Hits | 1 Resist")
      ∷ speech (codes "3 Total | 2 Hits | 1 Resist")
      ∷ []
unfolding summaries summaries_of run emit flush text_eq name_eq casefold
run_test = refl

run-total_example :
    (h' : BardCount) × (out : List Session) × (run lists pulses start ≡ some (h', out))
    × (total hit (out ++ (flush h').1) ≡ total hit [] + told lists hit pulses)
run-total_example = run-total hit lists pulses start
