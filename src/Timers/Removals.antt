-- ===== src/Timers/Removals.antt =====
-- The operations of `TimersService` that remove rows or put them back (core/timers.py).
pub mod Single
pub mod Reinstate
pub mod SelfRows
use nparse_plus.Prelude.{
  ℕ, ◌-◌, Bool, true, false, ◌&&◌, ◌||◌, not, Option, none, some, List, [], ◌∷◌, ◌++◌, map, keep,
  remove, length, any, if◌then◌else◌, ◌==◌,
}
use nparse_plus.Text.{Text, casefold, text_eq, name_eq, is_empty, isspace, is_in}
use nparse_plus.Timers.Rows.{Row, row_eq, is_spell, is_roll, window_series_of, you_group}
use nparse_plus.Timers.Service.{Timers, notify_with}

unfoldable pub remove_row : Row → Timers → Timers × Bool
remove_row row s = elim (remove row_eq row s.rows) [
  | none ↦ (s, false)
  | some rows ↦ (notify_with rows s, true)
]

-- `if len(matches) == 1: self._rows.remove(matches[0])`: the rows, and whether one went
unfoldable pub remove_single : List Row → List Row → Option (List Row × Bool)
remove_single (m ∷ []) rows = elim (remove row_eq m rows) [
  | none ↦ none
  | some rest ↦ some (rest, true)
]
remove_single _ rows = some (rows, false)

abbrev pub is_self_match : List Text → Row → Bool
is_self_match names r = is_in (casefold r.name) names && text_eq r.group you_group

abbrev pub is_other_match : List Text → Row → Bool
is_other_match names r = is_in (casefold r.name) names && not (text_eq r.group you_group)

abbrev pub is_group_match : List Text → Row → Bool
is_group_match names r = is_in (casefold r.group) names

abbrev notify_if : Timers → Option (List Row × Bool) → Option (Timers × Bool)
notify_if s none = none
notify_if s (some (rows, removed)) =
    some (if removed then (notify_with rows s, true) else (s, false))

unfoldable pub try_remove_unambiguous_self : List Text → Timers → Option (Timers × Bool)
unfolding remove_single
try_remove_unambiguous_self [] s = some (s, false)
try_remove_unambiguous_self (n ∷ ns) s =
    notify_if s (remove_single (keep (is_self_match (map casefold (n ∷ ns))) s.rows) s.rows)

-- `n and not n.isspace()`
abbrev pub is_named : Text → Bool
is_named n = not (is_empty n) && not (isspace n)

-- The second removal looks at the rows that the first one leaves.
unfoldable pub remove_other : List Text → List Row → Option (List Row × Bool)
unfolding remove_single
remove_other names rows = elim (remove_single (keep (is_other_match names) rows) rows) [
  | none ↦ none
  | some (rows', first) ↦ elim (remove_single (keep (is_group_match names) rows') rows') [
    | none ↦ none
    | some (rows'', second) ↦ some (rows'', first || second)
  ]
]

abbrev with_names : List Text → Timers → Option (Timers × Bool)
unfolding remove_other
with_names [] s = some (s, false)
with_names (n ∷ ns) s = notify_if s (remove_other (n ∷ ns) s.rows)

-- One name given as a string is the list of it.
unfoldable pub try_remove_unambiguous_other : List Text → Timers → Option (Timers × Bool)
unfolding remove_other
try_remove_unambiguous_other spell_names s = with_names (map casefold (keep is_named spell_names)) s

-- The rows that an operation gives back and that are not there, by identity.
abbrev pub is_absent : List Row → Row → Bool
is_absent rows r = not (any (λ (q : Row). q.row_id == r.row_id) rows)

abbrev extend_with : List Row → Timers → Timers × ℕ
extend_with [] s = (s, 0)
extend_with (r ∷ rs) s = (notify_with (s.rows ++ r ∷ rs) s, length (r ∷ rs))

unfoldable pub reinstate : List Row → Timers → Timers × ℕ
reinstate rows s = extend_with (keep (is_absent s.rows) rows) s

-- `before = len(…); filter; removed = before - len(…); if removed: notify`
unfoldable pub retain : (Row → Bool) → Timers → Timers × ℕ
retain p s =
    let rows = keep p s.rows in
    let removed = length s.rows - length rows in
    (if removed == 0 then record s { rows = rows } else notify_with rows s, removed)

unfoldable pub remove_series : Text → Timers → Timers × ℕ
unfolding retain
remove_series series s =
    if is_empty series
    then (s, 0)
    else retain (λ r. not (text_eq (window_series_of r.kind) series)) s

unfoldable pub remove_owner : Text → Timers → Timers × ℕ
unfolding retain
remove_owner owner s =
    if is_empty owner then (s, 0) else retain (λ r. not (text_eq r.owner owner)) s

unfoldable pub remove_group : Text → Timers → Timers × ℕ
unfolding retain
remove_group group s = retain (λ r. not (name_eq r.group group)) s

unfoldable pub clear_all : Timers → Timers × ℕ
clear_all s = let removed = length s.rows in (if removed == 0 then s else notify_with [] s, removed)

unfoldable pub clear_you_spells : Timers → Timers
clear_you_spells s = notify_with (keep (λ r. not (text_eq r.group you_group)) s.rows) s

-- A row of the character's own: every class but the rolls.
abbrev pub is_self_row : Row → Bool
is_self_row r = text_eq r.group you_group && not (is_roll r.kind)

unfoldable pub remove_self_rows : Timers → Timers × ℕ
unfolding retain
remove_self_rows s = retain (λ r. not (is_self_row r)) s

unfoldable pub clear_all_other_spells : Timers → Timers
clear_all_other_spells s =
    notify_with
      (keep (λ r. not (is_spell r.kind && (r.is_target_player && not (text_eq r.group you_group))))
        s.rows)
      s
