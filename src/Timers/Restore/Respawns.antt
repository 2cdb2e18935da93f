-- ===== src/Timers/Restore/Respawns.antt =====
-- Saved respawn timers: when a restore raises, and what comes back of a saved list.
use nparse_plus.Prelude.{
  ℕ, ◌+◌, ◌≡◌, refl, ap, ap₂, ◌∙◌, Bool, true, false, ◌&&◌, ◌||◌, not, Option, none, some, List, [],
  ◌∷◌, collect, collect-some, collect-append, All-collect, any, keep, All, arith, if◌then◌else◌,
  leb, Bool-cases, inl, inr,
}
use nparse_plus.Text.{Text, is_empty, name_eq_refl}
use nparse_plus.Timers.Rows.{Row, Kind, timer_row, validate, bad_index}
use nparse_plus.Timers.Service.{Timers}
use nparse_plus.Timers.Persistence.{
  RespawnTimerSnapshot, over, saved_respawn, export_respawn_timers,
}
use nparse_plus.Timers.Restore.{
  restored_row, degrade_window, degrade_series, degraded, respawn_rows, restore_respawn_timers,
  append_restored,
}

abbrev windowless : Option ℕ → Bool
windowless none = true
windowless (some w) = false

-- A saved timer that is not over, and claims a place in a series of windows without a window.
abbrev pub is_orphan : ℕ → RespawnTimerSnapshot → Bool
is_orphan now item =
    windowless item.window.window_ends_at
    && (not (leb item.ends_at now)
        && (not (is_empty item.window.window_series)
            && not (bad_index item.window.window_index item.window.window_count)))

abbrev pub item_kind : RespawnTimerSnapshot → Option Kind
item_kind item = validate (
    timer_row (record { ends_at = item.ends_at; total_duration = item.total_duration })
      (degraded item))

abbrev raises : Bool → Option Kind → Bool
raises true k = false
raises false none = true
raises false (some k) = false

item_raises :
    (now : ℕ) (item : RespawnTimerSnapshot)
    → raises (over (degraded item).window_ends_at item.ends_at now) (item_kind item)
      ≡ is_orphan now item
unfolding degrade_window degrade_series validate
item_raises now item = ground arith

respawn_rows_cons :
    (group : Text) (now new_id : ℕ) (item : RespawnTimerSnapshot)
    (saved : List RespawnTimerSnapshot)
    → (respawn_rows group now new_id (item ∷ saved)).1 ≡ (
        raises (over (degraded item).window_ends_at item.ends_at now) (item_kind item)
        || (respawn_rows group now (new_id + 1) saved).1)
unfolding respawn_rows
respawn_rows_cons group now new_id item saved = ground arith

raised-respawn_rows :
    (group : Text) (now new_id : ℕ) (saved : List RespawnTimerSnapshot)
    → (respawn_rows group now new_id saved).1 ≡ any (is_orphan now) saved
unfolding respawn_rows
raised-respawn_rows group now new_id [] = refl
raised-respawn_rows group now new_id (item ∷ saved) =
    respawn_rows_cons group now new_id item saved
    ∙ ap₂ ◌||◌ (item_raises now item) (raised-respawn_rows group now (new_id + 1) saved)

-- The restore of saved respawn timers raises exactly where one of them is not over and claims a
-- place in a series of windows but carries no window.
pub restore_respawn_timers-raises :
    (saved : List RespawnTimerSnapshot) (group : Text) (now new_id : ℕ) (s : Timers)
    → (restore_respawn_timers saved group now new_id s).1 ≡ any (is_orphan now) saved
unfolding restore_respawn_timers
restore_respawn_timers-raises saved group now new_id s =
    ground (arith, raised-respawn_rows group now new_id saved)

-- A row, or a saved timer, that the validators leave as it is.
abbrev pub IsValid : Row → Type 0
IsValid r = validate r.kind ≡ some r.kind

abbrev own_kind : RespawnTimerSnapshot → Kind
own_kind item =
    timer_row (record { ends_at = item.ends_at; total_duration = item.total_duration }) item.window

abbrev pub IsValidItem : RespawnTimerSnapshot → Type 0
IsValidItem item = validate (own_kind item) ≡ some (own_kind item)

-- The guards of the restore change no valid item.
degraded_valid : (item : RespawnTimerSnapshot) → IsValidItem item → degraded item ≡ item.window
unfolding degrade_window degrade_series validate
degraded_valid item h = ground arith

-- A saved timer is still running.
abbrev pub running : ℕ → RespawnTimerSnapshot → Bool
running now item = not (over item.window.window_ends_at item.ends_at now)

saved_restored :
    (group : Text) (now new_id : ℕ) (item : RespawnTimerSnapshot)
    → running now item ≡ true
    → saved_respawn group now (restored_row new_id item.name group now (own_kind item)) ≡ some item
unfolding saved_respawn
saved_restored group now new_id item h = ground (arith, name_eq_refl group)

respawn_rows_valid :
    (group : Text) (now new_id : ℕ) (item : RespawnTimerSnapshot)
    (saved : List RespawnTimerSnapshot)
    → IsValidItem item
    → respawn_rows group now new_id (item ∷ saved) ≡ (
        if running now item
        then (
          restored_row new_id item.name group now (own_kind item)
              ∷ (respawn_rows group now (new_id + 1) saved).0,
          (respawn_rows group now (new_id + 1) saved).1,
        )
        else respawn_rows group now (new_id + 1) saved)
unfolding respawn_rows
respawn_rows_valid group now new_id item saved h = rw (degraded_valid item h, h) (ground arith)

respawn_rows_export :
    (group : Text) (now new_id : ℕ) (saved : List RespawnTimerSnapshot)
    → All IsValidItem saved
    → (collect (saved_respawn group now) (respawn_rows group now new_id saved).0
        ≡ keep (running now) saved)
      × ((respawn_rows group now new_id saved).1 ≡ false)
respawn_rows_export group now new_id [] h = unfold respawn_rows in (refl, refl)
respawn_rows_export group now new_id (item ∷ saved) h =
    let ih = respawn_rows_export group now (new_id + 1) saved h.1 in
    rw (respawn_rows_valid group now new_id item saved h.0) (elim (Bool-cases (running now item)) [
      | inl e ↦ rw e (
        collect-some (saved_respawn group now) _ item _ (saved_restored group now new_id item e)
            ∙ ap (◌∷◌ item) ih.0,
        ih.1,
      )
      | inr e ↦ rw e ih
    ])

saved-valid :
    (group : Text) (now : ℕ) (r : Row) (item : RespawnTimerSnapshot)
    → saved_respawn group now r ≡ some item
    → IsValid r
    → IsValidItem item
unfolding saved_respawn
saved-valid group now r item h v = ground arith

export-valid :
    (group : Text) (now : ℕ) (rows : List Row)
    → All IsValid rows
    → All IsValidItem (export_respawn_timers group now rows)
unfolding export_respawn_timers
export-valid group now rows v =
    All-collect (saved_respawn group now) IsValid IsValidItem (saved-valid group now) rows v

-- What a restore of valid timers appends to the rows.
append_restored-export :
    (group : Text) (now : ℕ) (rows : List Row) (s : Timers)
    → export_respawn_timers group now s.rows ≡ []
    → export_respawn_timers group now (append_restored rows s).rows
      ≡ collect (saved_respawn group now) rows
unfolding export_respawn_timers
append_restored-export group now [] s h = h
append_restored-export group now (r ∷ rows) s h =
    collect-append (saved_respawn group now) s.rows (r ∷ rows) ∙ rw h

-- A restore of valid timers into a window that shows none of their group.
pub restore_respawn_timers-valid :
    (group : Text) (now new_id : ℕ) (saved : List RespawnTimerSnapshot) (s : Timers)
    → All IsValidItem saved
    → export_respawn_timers group now s.rows ≡ []
    → let (s', raised) = restore_respawn_timers saved group now new_id s in
      (raised ≡ false) × (export_respawn_timers group now s'.rows ≡ keep (running now) saved)
unfolding restore_respawn_timers
restore_respawn_timers-valid group now new_id saved s v h =
    let (same, fine) = respawn_rows_export group now new_id saved v in
    (
      rw fine,
      rw fine (append_restored-export group now (respawn_rows group now new_id saved).0 s h ∙ same),
    )

-- Timers saved from valid rows come back with no error, into a window that shows none of their
-- group: what can be saved again is what was saved, in its order, less what ended meanwhile.
pub restore-export_respawn_timers :
    (group : Text) (then_ now new_id : ℕ) (rows : List Row) (s : Timers)
    → All IsValid rows
    → export_respawn_timers group now s.rows ≡ []
    → let saved = export_respawn_timers group then_ rows in
      let (s', raised) = restore_respawn_timers saved group now new_id s in
      (raised ≡ false) × (export_respawn_timers group now s'.rows ≡ keep (running now) saved)
restore-export_respawn_timers group then_ now new_id rows s v h =
    restore_respawn_timers-valid group now new_id (export_respawn_timers group then_ rows) s
      (export-valid group then_ rows v) h
