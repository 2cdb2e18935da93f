-- ===== src/Kills/OneEach.antt =====
-- The names of the timers of the mobs (core/handlers/spawn_timer.py over core/timers.py).
use nparse_plus.Prelude.{
  ℕ, ◌+◌, ◌≤◌, ◌<◌, ◌≡◌, refl, Bool, true, not, Bool-cases, inl, inr, some, List, [], ◌∷◌, ◌++◌,
  arith, ap, ◌∙◌, keep, length, one_if,
}
use nparse_plus.Text.{Text, name_eq, name_eq_iff, name_eq_refl}
use nparse_plus.Timers.Rows.{Row, is_timer}
use nparse_plus.Timers.Service.{Timers, same_key, add_timer, find, notify_with}
use nparse_plus.Timers.Adds.{held, add_timer_unique, replaced, same_key_agree, length-append_row}
use nparse_plus.Sessions.TimerPersistence.{mob_timer_group}
use nparse_plus.Sessions.RespawnRows.{remove_group-rows}
use nparse_plus.Kills.Zones.{spawn_time}
use nparse_plus.Kills.Correlation.{Death}
use nparse_plus.Kills.SpawnTimers.{
  Context, is_free, group_of, numbered, unique_dead_name, respawn_row, dead_name, drop_victim,
  add_sirran, start_respawn, do_event_rows, is_tracked, is_boss, sirran_timer_name,
  sirran_timer_seconds,
}
use nparse_plus.Kills.Names.{unique_dead_name-least}

-- No two timers of the group of the mobs have the same name.
abbrev pub HasOneEach : List Row → Type 0
HasOneEach rows = (k : Row) → name_eq k.group mob_timer_group ≡ true → held is_timer k rows ≤ 1

held-keep :
    (q : Row → Bool) (k : Row) (rows : List Row)
    → held is_timer k (keep q rows) ≤ held is_timer k rows
held-keep q k [] = omega arith
held-keep q k (r ∷ rows) = ground (arith, held-keep q k rows)

is_free-keep :
    (q : Row → Bool) (name : Text) (rows : List Row)
    → is_free rows name ≡ true
    → is_free (keep q rows) name ≡ true
unfolding find
is_free-keep q name [] h = refl
is_free-keep q name (r ∷ rows) h = ground (arith, is_free-keep q name rows)

held-free :
    (k : Row) (rows : List Row)
    → name_eq k.group mob_timer_group ≡ true
    → is_free rows k.name ≡ true
    → held is_timer k rows ≡ 0
unfolding find
held-free k [] g h = refl
held-free k (r ∷ rows) g h = ground (
  arith,
  held-free k rows g,
  name_eq_iff k.group mob_timer_group,
  name_eq_iff r.group mob_timer_group,
  name_eq_iff r.group k.group,
)

keep_same {ℓ} :
    {A : Type ℓ} (p q : A → Bool) → ((a : A) → p a ≡ q a) → (xs : List A) → keep p xs ≡ keep q xs
keep_same p q h [] = refl
keep_same p q h (x ∷ xs) = ground (arith, h x, keep_same p q h xs)

-- A timer under a free name.
free_row-HasOneEach :
    (row : Row) (rows : List Row)
    → name_eq row.group mob_timer_group ≡ true
    → is_free rows row.name ≡ true
    → HasOneEach rows
    → HasOneEach (rows ++ row ∷ [])
free_row-HasOneEach row rows m f one k g = elim (Bool-cases (same_key is_timer k row)) [
  | inl e ↦
      let none_yet : held is_timer k rows ≡ 0 =
        ap length (
          keep_same (same_key is_timer k) (same_key is_timer row)
            (λ r. same_key_agree is_timer k row r e) rows)
        ∙ held-free row rows m f in
      omega (arith, length-append_row (same_key is_timer k) rows row, ap one_if e, none_yet)
  | inr e ↦ omega (arith, length-append_row (same_key is_timer k) rows row, ap one_if e, one k g)
]

drop_victim-HasOneEach :
    (victim : Text) (c : Context) (s : Timers)
    → HasOneEach s.rows
    → HasOneEach (drop_victim victim c s).rows
unfolding drop_victim
drop_victim-HasOneEach victim c s one k g = elim (Bool-cases c.restarts) [
  | inl e ↦
      rw (e, remove_group-rows (group_of victim c) s)
        (omega
          (arith, held-keep (λ r. not (name_eq r.group (group_of victim c))) k s.rows, one k g))
  | inr e ↦ rw e (one k g)
]

drop_victim-is_free :
    (victim name : Text) (c : Context) (s : Timers)
    → is_free s.rows name ≡ true
    → is_free (drop_victim victim c s).rows name ≡ true
unfolding drop_victim
drop_victim-is_free victim name c s h = elim (Bool-cases c.restarts) [
  | inl e ↦
      rw (e, remove_group-rows (group_of victim c) s)
        (is_free-keep (λ r. not (name_eq r.group (group_of victim c))) name s.rows h)
  | inr e ↦ rw e h
]

-- A free number makes the name free.
unique_dead_name_free :
    (base : Text) (rows : List Row) (n : ℕ)
    → n < 1000
    → is_free rows (numbered base n) ≡ true
    → is_free rows (unique_dead_name base rows) ≡ true
unique_dead_name_free base rows n u h = elim (unique_dead_name-least base rows) [
  | inl (m, l, v, same, free, taken) ↦ free
  | inr (taken, last) ↦ ground (arith, h, taken n (omega arith) u)
]

-- The timer of Sirran takes the place of the one before.
add_sirran-HasOneEach :
    (d : Death) (i : ℕ) (s : Timers)
    → HasOneEach s.rows
    → (s' : Timers) × (add_sirran d i (some s) ≡ some s') × HasOneEach s'.rows
unfolding add_sirran respawn_row
add_sirran-HasOneEach d i s one =
    let row = respawn_row i sirran_timer_name d.event.timestamp sirran_timer_seconds in
    let (added, held_after) = add_timer_unique row s refl in
    elim (Bool-cases (is_boss d.victim)) [
      | inl e ↦ rw e (
        notify_with (replaced is_timer row s.rows) s,
        added,
        λ k g. ground (arith, held_after k, one k g),
      )
      | inr e ↦ rw e (s, refl, one)
    ]

start_respawn-HasOneEach :
    (d : Death) (c : Context) (i n : ℕ) (s : Timers)
    → n < 1000
    → is_free s.rows (numbered (dead_name d.victim) n) ≡ true
    → HasOneEach s.rows
    → (s' : Timers) × (start_respawn d c i s ≡ some s') × HasOneEach s'.rows
unfolding start_respawn add_timer respawn_row
start_respawn-HasOneEach d c i n s u h one =
    let name = unique_dead_name (dead_name d.victim) s.rows in
    let row = respawn_row i name d.event.timestamp (spawn_time d.victim (some c.zone) c.zones) in
    add_sirran-HasOneEach d (i + 1) (notify_with (s.rows ++ row ∷ []) s) (
      free_row-HasOneEach row s.rows (name_eq_refl mob_timer_group)
        (unique_dead_name_free (dead_name d.victim) s.rows n u h) one)

-- Where no two timers of the mobs have one name, and one of the thousand names for the row of the
-- victim is free, a confirmed death is handled without an error, and no two of the timers that it
-- leaves have one name.
pub do_event_rows-HasOneEach :
    (d : Death) (c : Context) (i n : ℕ) (s : Timers)
    → n < 1000
    → is_free s.rows (numbered (dead_name d.victim) n) ≡ true
    → HasOneEach s.rows
    → (s' : Timers) × (do_event_rows d c i s ≡ some s') × HasOneEach s'.rows
unfolding do_event_rows
do_event_rows-HasOneEach d c i n s u h one = elim (Bool-cases (is_tracked d c)) [
  | inl e ↦ rw e (
      start_respawn-HasOneEach d c i n (drop_victim d.victim c s) u
        (drop_victim-is_free d.victim (numbered (dead_name d.victim) n) c s h)
        (drop_victim-HasOneEach d.victim c s one))
  | inr e ↦ rw e (s, refl, one)
]
