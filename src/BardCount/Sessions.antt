-- ===== src/BardCount/Sessions.antt =====
-- The sessions of a bard's songs (core/handlers/bard_count.py): `BardCountHandler`.
--
-- A session that is finished is put out as a summary, which `announcements` turns into what is
-- published and spoken.
use nparse_plus.Prelude.{
  ℕ, ◌+◌, ◌-◌, Bool, true, false, ◌&&◌, ◌||◌, not, Option, none, some, List, [], ◌∷◌, ◌++◌,
  if◌then◌else◌, ◌==◌, leb, ltb, keep, any, max, is_yes, ℕ_discrete,
}
use nparse_plus.Prelude.{remove_each}
use nparse_plus.Text.{Text, Text-discrete, codes, is_empty, name_eq}
use nparse_plus.Timers.Rows.{Row, counter_row, you_group}
use nparse_plus.Timers.Service.{Timers, add_counter}
use nparse_plus.BardCount.Lines.{normalize_spell_name}

-- In microseconds: 500 milliseconds.
abbrev pub track_window : ℕ
track_window = 500000

pub record Session : Type 0 where
  pub spell_name : Text
  pub start_time : ℕ
  pub last_event_time : ℕ
  pub hits : ℕ
  pub resists : ℕ

pub Session-discrete : Discrete Session
Session-discrete = hlevel (ℕ_discrete, Text-discrete)

-- `a == b` on sessions
unfoldable pub session_eq : Session → Session → Bool
session_eq a b = is_yes (Session-discrete a b)

-- The lists of spells that are counted.
pub record CounterLists : Type 0 where
  pub spells_that_need_counts : List Text
  pub bard_spells_that_need_resists : List Text

-- `timers` is `none` where there is no service; the next row gets the identity `new_id`.
pub record BardCount : Type 0 where
  pub sessions : List Session
  pub casting_spell_name : Text
  pub timers : Option Timers
  pub new_id : ℕ

-- `any(normalize(name).casefold() == normalized.casefold() for name in names)`
unfoldable pub is_listed : List Text → Text → Bool
unfolding normalize_spell_name
is_listed names normalized = any (λ name. name_eq (normalize_spell_name name) normalized) names

abbrev pub in_window : ℕ → Session → Bool
in_window timestamp s =
    leb ((timestamp - s.last_event_time) + (s.last_event_time - timestamp)) track_window

-- What a line is: a hit or a resist.
pub data Count : Type 0 where
  hit resist : Count

abbrev pub label_of : Session → Count → Text
label_of s count =
    (if is_empty s.spell_name then codes "AE" else s.spell_name)
    ++ (elim count [ hit ↦ codes " Hits" | resist ↦ codes " Resists" ])

-- The session after `_bump`
abbrev pub bumped_session : ℕ → Count → Session → Session
bumped_session timestamp hit s = record s { last_event_time = timestamp; hits = s.hits + 1 }
bumped_session timestamp resist s = record s {
  last_event_time = timestamp;
  resists = s.resists + 1;
}

-- The counter that `_bump` adds to
abbrev pub count_row : ℕ → Text → ℕ → Row
count_row new_id name timestamp = record {
  row_id = new_id;
  name = name;
  group = you_group;
  updated_at = timestamp;
  is_target_player = true;
  owner = [];
  kind = counter_row 1;
}

unfoldable pub count_on : ℕ → Text → ℕ → Option Timers → Option Timers
unfolding add_counter
count_on new_id name timestamp none = none
count_on new_id name timestamp (some timers) =
    some (add_counter (count_row new_id name timestamp) timers)

-- The latest time of the sessions that a test selects.
unfoldable pub latest : (Session → Bool) → List Session → Option ℕ
latest p [] = none
latest p (s ∷ ss) =
    let later = latest p ss in
    if p s
    then some (elim later [ none ↦ s.last_event_time | some t ↦ max s.last_event_time t ])
    else later

-- `max(…, key=last_event_time)` of the sessions that a test selects, the first where there are more
-- than one, and `_bump` on it, with the name that it has then; `none` where there is no session.
abbrev pub is_latest : (Session → Bool) → Option ℕ → Session → Bool
is_latest p none s = false
is_latest p (some t) s = p s && s.last_event_time == t

unfoldable pub bump_first :
    (Session → Bool) → (Session → Session) → List Session → Option (List Session × Session)
bump_first p f [] = none
bump_first p f (s ∷ ss) =
    let rest = bump_first p f ss in
    if p s
    then some (f s ∷ ss, f s)
    else (elim rest [ none ↦ none | some (later, changed) ↦ some (s ∷ later, changed) ])

unfoldable pub bump_latest :
    (Session → Bool) → (Session → Session) → List Session → Option (List Session × Session)
unfolding latest bump_first
bump_latest p f ss = bump_first (is_latest p (latest p ss)) f ss

-- The handler after a bump.
abbrev pub with_bump : ℕ → Count → List Session × Session → BardCount → BardCount
with_bump timestamp count (sessions, s) h = record h {
  sessions = sessions;
  timers = count_on h.new_id (label_of s count) timestamp h.timers;
  new_id = h.new_id + 1;
}

abbrev pub open_session : ℕ → Text → Count → BardCount → BardCount
open_session timestamp name count h =
    let s : Session = bumped_session timestamp count (record {
      spell_name = name;
      start_time = timestamp;
      last_event_time = timestamp;
      hits = 0;
      resists = 0;
    }) in
    with_bump timestamp count (h.sessions ++ s ∷ [], s) h

abbrev pub rename : Text → Session → Session
rename name s = record s { spell_name = name }

-- The handler after a bump, or another where there was no session to bump.
abbrev pub bumped_or :
    ℕ → Count → BardCount → BardCount → Option (List Session × Session) → BardCount
bumped_or timestamp count h other none = other
bumped_or timestamp count h other (some bumped) = with_bump timestamp count bumped h

-- A count under a name: the session of that name, or else one that has none yet, or else a new one.
unfoldable pub attach_named : ℕ → Text → Count → BardCount → BardCount
unfolding bump_latest count_on
attach_named timestamp name count h =
    bumped_or timestamp count h
      (bumped_or timestamp count h (open_session timestamp name count h) (
        bump_latest (λ s. is_empty s.spell_name && in_window timestamp s)
          (λ s. bumped_session timestamp count (rename name s)) h.sessions))
      (bump_latest (λ s. name_eq s.spell_name name && in_window timestamp s)
        (bumped_session timestamp count) h.sessions)

-- A count without one: the latest session of all, or a new one without a name.
unfoldable pub attach_any : ℕ → Count → BardCount → BardCount
unfolding bump_latest count_on
attach_any timestamp count h =
    bumped_or timestamp count h (open_session timestamp [] count h)
      (bump_latest (in_window timestamp) (bumped_session timestamp count) h.sessions)

unfoldable pub attach : CounterLists → ℕ → Text → Count → Bool → BardCount → BardCount
unfolding normalize_spell_name is_listed attach_named attach_any
attach lists timestamp spell_name count force h =
    let normalized = normalize_spell_name spell_name in
    if not (is_empty normalized)
      && (force
          || is_listed lists.spells_that_need_counts normalized
          || is_listed lists.bard_spells_that_need_resists normalized)
    then attach_named timestamp normalized count h
    else attach_any timestamp count h

abbrev pub is_expired : ℕ → Session → Bool
is_expired now s = ltb track_window (now - s.last_event_time)

-- The handler, and the summaries in order; `none` would be the ValueError of `list.remove`.
abbrev pub finalized :
    List Session → BardCount → Option (List Session) → Option (BardCount × List Session)
finalized out h none = none
finalized out h (some sessions) = some (record h { sessions = sessions }, out)

unfoldable pub finalize_expired : ℕ → BardCount → Option (BardCount × List Session)
finalize_expired now h =
    let expired = keep (is_expired now) h.sessions in
    finalized expired h (remove_each session_eq expired h.sessions)
