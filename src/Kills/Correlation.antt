-- ===== src/Kills/Correlation.antt =====
-- Which lines of the log make a kill (core/handlers/spawn_timer.py): the correlation of
-- `SpawnTimerHandler`.
use nparse_plus.Prelude.{
  ℕ, ◌+◌, Bool, true, false, ◌||◌, not, Option, none, some, List, [], ◌∷◌, ◌++◌, if◌then◌else◌,
  ◌==◌, length, is_empty_list,
}
use nparse_plus.Text.{Text, codes, text_eq}

pub record LogEvent : Type 0 where
  pub timestamp : ℕ
  pub line : Text
  pub line_number : ℕ

-- The events that the handler subscribes to.
pub data Event : Type 0 where
  slain : LogEvent → Text → Text → Event
  faction exp_gained line_read : LogEvent → Event
  before_player_changed : Event

-- A call of `_do_event`
pub record Death : Type 0 where
  pub event : LogEvent
  pub victim : Text
  pub killer : Text
  pub guess : Bool

-- The state of the correlation; no line number is the one that can never match.
pub record Burst : Type 0 where
  pub victim : Text
  pub killer : Text
  pub faction_messages : List Text
  pub exp_message : Bool
  pub line_number : Option ℕ
  pub already_emitted : Bool

abbrev pub reset : Burst
reset = record {
  victim = [];
  killer = [];
  faction_messages = [];
  exp_message = false;
  line_number = none;
  already_emitted = false;
}

abbrev pub you : Text
you = codes "You"

abbrev pub faction_slain : Text
faction_slain = codes "Faction Slain"

abbrev pub exp_slain : Text
exp_slain = codes "Exp Slain"

abbrev pub max_faction_messages : ℕ
max_faction_messages = 6

abbrev pub do_event : LogEvent → Bool → Burst → Death
do_event event guess s = record {
  event = event;
  victim = s.victim;
  killer = s.killer;
  guess = guess;
}

-- `event.line_number == self._line_number`
abbrev pub is_line : ℕ → Option ℕ → Bool
is_line n none = false
is_line n (some m) = n == m

-- `event.line_number - 1 == self._line_number`
abbrev pub is_next : ℕ → Option ℕ → Bool
is_next n none = false
is_next n (some m) = n == m + 1

-- The line that closes a burst: a guess that nothing confirmed is emitted now.
unfoldable pub on_line : LogEvent → Burst → Burst × List Death
on_line event s =
    if is_line event.line_number s.line_number
    then (s, [])
    else if not (is_next event.line_number s.line_number)
    then (s, [])
    else if s.already_emitted
    then (reset, [])
    else if s.exp_message || not (is_empty_list s.faction_messages)
    then (reset, do_event event true s ∷ [])
    else (s, [])

unfoldable pub on_exp_gained : LogEvent → Burst → Burst × List Death
on_exp_gained event s =
    let s1 = record s { victim = exp_slain; killer = you } in
    let s2 = if s.exp_message then record reset { already_emitted = true } else s1 in
    (
      record s2 {
        victim = exp_slain;
        killer = you;
        line_number = some event.line_number;
        exp_message = true;
      },
      if s.exp_message then do_event event true s1 ∷ [] else [],
    )

abbrev pub is_first : Text → List Text → Bool
is_first line [] = false
is_first line (first ∷ rest) = text_eq first line

-- A burst of factions that repeats its first line, or is full, closes the kill before.
unfoldable pub on_faction : LogEvent → Burst → Burst × List Death
unfolding text_eq
on_faction event s =
    let s1 = record s {
      victim = faction_slain;
      killer = you;
      line_number = some event.line_number;
    } in
    let closes =
      is_first event.line s.faction_messages || length s.faction_messages == max_faction_messages in
    let s2 = if closes then reset else s1 in
    (
      record s2 {
        victim = faction_slain;
        killer = you;
        line_number = some event.line_number;
        faction_messages = s2.faction_messages ++ event.line ∷ [];
      },
      if closes then do_event event true s1 ∷ [] else [],
    )

unfoldable pub on_slain : LogEvent → Text → Text → Burst → Burst × List Death
unfolding text_eq
on_slain event victim killer s =
    let s1 = record s { victim = victim; killer = killer; line_number = some event.line_number } in
    if text_eq victim you
    then (s, [])
    else (record s1 { already_emitted = true }, do_event event false s1 ∷ [])

unfoldable pub handle : Event → Burst → Burst × List Death
unfolding on_line on_exp_gained on_faction on_slain
handle (slain event victim killer) s = on_slain event victim killer s
handle (faction event) s = on_faction event s
handle (exp_gained event) s = on_exp_gained event s
handle (line_read event) s = on_line event s
handle before_player_changed s = (reset, [])

-- Events in turn, with the deaths that they confirm.
unfoldable pub handle_all : List Event → Burst → Burst × List Death
unfolding handle
handle_all [] s = (s, [])
handle_all (e ∷ es) s =
    let (s1, now) = handle e s in let (s2, later) = handle_all es s1 in (s2, now ++ later)
