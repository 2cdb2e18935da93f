-- ===== src/BardCount/Handlers.antt =====
-- The handlers of `BardCountHandler` (core/handlers/bard_count.py), and what a summary puts out.
use nparse_plus.Prelude.{
  ℕ, ◌+◌, Bool, true, false, ◌||◌, not, Option, none, some, List, [], ◌∷◌, ◌++◌, if◌then◌else◌,
  ◌==◌, ltb,
}
use nparse_plus.Text.{Text, codes}
use nparse_plus.Text.Decimal.{decimal}
use nparse_plus.BardCount.Lines.{resist_target, resist_you, is_hit_line, normalize_spell_name}
use nparse_plus.BardCount.Sessions.{
  Session, CounterLists, BardCount, hit, resist, is_listed, attach, finalize_expired,
}

-- What is published on the bus, or spoken.
pub data Output : Type 0 where
  comms : ℕ → Text → Output
  overlay speech : Text → Output

abbrev plural : ℕ → Text → Text
plural n word = decimal n ++ word ++ (if n == 1 then [] else codes "s")

-- `" | ".join(parts)`
abbrev summary : Session → Text
summary s =
    decimal (s.hits + s.resists)
    ++ codes " Total"
    ++ (if s.hits == 0 then [] else codes " | " ++ plural s.hits (codes " Hit"))
    ++ (if s.resists == 0 then [] else codes " | " ++ plural s.resists (codes " Resist"))

-- `_emit`, with whether the option is on and whether there is a speaker
unfoldable pub emit : Bool → Bool → Session → List Output
unfolding decimal
emit enabled speaker s =
    let total = s.hits + s.resists in
    let text = summary s in
    if total == 0
    then []
    else comms s.last_event_time text
      ∷ (if not enabled || ltb total 2
          then []
          else overlay text ∷ (if speaker then speech text ∷ [] else []))

-- The events that the handler takes.
pub data Event : Type 0 where
  line_read : ℕ → Text → Event
  resisted : ℕ → Text → Event
  casting_begun : Text → Event

-- The name of a resist line, where it is a song that counts.
abbrev pub listed_resist : CounterLists → Option Text → Option Text
listed_resist lists none = none
listed_resist lists (some name) =
    let normalized = normalize_spell_name name in
    if is_listed lists.bard_spells_that_need_resists normalized then some normalized else none

abbrev pub or_name : Option Text → Option Text → Option Text
or_name (some a) b = some a
or_name none b = b

-- The resist that a line tells of.
unfoldable pub resist_of : CounterLists → Text → Option Text
unfolding resist_target resist_you normalize_spell_name is_listed
resist_of lists message =
    or_name (listed_resist lists (resist_target message)) (listed_resist lists (resist_you message))

-- The line behind the check of the sessions.
unfoldable pub count_line : CounterLists → ℕ → Text → BardCount → BardCount
unfolding resist_of is_hit_line attach
count_line lists timestamp message h = elim (resist_of lists message) [
  | some name ↦ attach lists timestamp name resist true h
  | none ↦
      if is_hit_line message
      then attach lists timestamp (normalize_spell_name h.casting_spell_name) hit false h
      else h
]

unfoldable pub count_resist : CounterLists → ℕ → Text → BardCount → BardCount
unfolding attach normalize_spell_name is_listed
count_resist lists timestamp name h =
    let normalized = normalize_spell_name name in
    if is_listed lists.bard_spells_that_need_resists normalized
    then attach lists timestamp normalized resist true h
    else h

abbrev behind :
    (BardCount → BardCount) → Option (BardCount × List Session) → Option (BardCount × List Session)
behind f none = none
behind f (some (h, out)) = some (f h, out)

-- The handler after an event, and the sessions that it put out.
unfoldable pub handle : CounterLists → Event → BardCount → Option (BardCount × List Session)
unfolding finalize_expired count_line count_resist
handle lists (line_read timestamp message) h =
    behind (count_line lists timestamp message) (finalize_expired timestamp h)
handle lists (resisted timestamp name) h =
    behind (count_resist lists timestamp name) (finalize_expired timestamp h)
handle lists (casting_begun name) h = some (record h { casting_spell_name = name }, [])

unfoldable pub flush : BardCount → BardCount × List Session
flush h = (record h { sessions = [] }, h.sessions)

abbrev pub then_more :
    List Session → Option (BardCount × List Session) → Option (BardCount × List Session)
then_more out none = none
then_more out (some (h, more)) = some (h, out ++ more)

abbrev pub follow :
    (BardCount → Option (BardCount × List Session))
    → Option (BardCount × List Session)
    → Option (BardCount × List Session)
follow next none = none
follow next (some (h, out)) = then_more out (next h)

-- Events in turn.
unfoldable pub run : CounterLists → List Event → BardCount → Option (BardCount × List Session)
unfolding handle
run lists [] h = some (h, [])
run lists (e ∷ es) h = follow (run lists es) (handle lists e h)
