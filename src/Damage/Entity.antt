-- ===== src/Damage/Entity.antt =====
-- One attacker's damage against one target (core/dps.py): `FightEntity`.
--
-- Times and windows are numbers of microseconds; a difference of times is compared without being
-- taken, so that nothing is cut off at 0.
use nparse_plus.Prelude.{
  ℕ, ◌+◌, ◌-◌, ◌/◌, ◌≡◌, refl, Bool, true, false, ◌&&◌, ◌||◌, not, Option, none, some, List, [],
  ◌∷◌, ◌++◌, length, if◌then◌else◌, leb, ltb, ◌==◌, is_empty_list,
}
use nparse_plus.Text.{Text}
use nparse_plus.Logs.Integers.{Number}
use nparse_plus.Damage.Floats.{quotient, divided_by, truncated}

pub record Hit : Type 0 where
  pub time : ℕ
  pub damage : ℕ

pub record FightEntity : Type 0 where
  pub attacker_name : Text
  pub target_name : Text
  pub start_time : ℕ
  pub level : Option ℕ
  pub death_time : Option ℕ
  pub was_your_pet : Bool
  pub hits : List Hit
  pub total_damage : ℕ
  pub highest_hit : ℕ
  pub trailing_damage : ℕ
  pub best_window_damage : ℕ
  pub trailing_window : ℕ
  pub best_window_hits : ℕ
  pub best_window_span : Option ℕ
  pub best_left : ℕ
  pub best_sum : ℕ

-- `FightEntity(attacker_name, target_name, start_time, trailing_window=window)`
abbrev pub new_entity : Text → Text → ℕ → ℕ → FightEntity
new_entity attacker target at window = record {
  attacker_name = attacker;
  target_name = target;
  start_time = at;
  level = none;
  death_time = none;
  was_your_pet = false;
  hits = [];
  total_damage = 0;
  highest_hit = 0;
  trailing_damage = 0;
  best_window_damage = 0;
  trailing_window = window;
  best_window_hits = 0;
  best_window_span = none;
  best_left = 0;
  best_sum = 0;
}

-- `hits[left:]`
unfoldable pub hits_from : ℕ → List Hit → List Hit
hits_from left [] = []
hits_from left (h ∷ hs) = let rest = hits_from (left - 1) hs in if left == 0 then h ∷ hs else rest

-- `hits[-1]`
unfoldable pub last_hit : List Hit → Option Hit
last_hit [] = none
last_hit (h ∷ hs) = let rest = last_hit hs in if is_empty_list hs then some h else rest

-- The loop that drops the hits that fell out the back of the window that ends at `timestamp`: it
-- reads the hits from `left` on, and stops at the newest.
unfoldable pub slide : ℕ → ℕ → List Hit → ℕ → ℕ → ℕ × ℕ
slide window timestamp [] left sum = (left, sum)
slide window timestamp (h ∷ []) left sum = (left, sum)
slide window timestamp (h ∷ k ∷ hs) left sum =
    let next = slide window timestamp (k ∷ hs) (left + 1) (sum - h.damage) in
    if leb (h.time + window) timestamp then next else (left, sum)

-- What a sweep over the hits carries.
pub record Sweep : Type 0 where
  pub left : ℕ
  pub sum : ℕ
  pub best : ℕ

-- One round of a sweep: the hits up to the newest, and the newest.
unfoldable pub sweep_hit : ℕ → List Hit → Hit → Sweep → Sweep
unfolding slide hits_from
sweep_hit window seen h s =
    let (left, sum) = slide window h.time (hits_from s.left seen) s.left (s.sum + h.damage) in
    record { left = left; sum = sum; best = if ltb s.best sum then sum else s.best }

-- The loop of `_rescan_best_window`: the hits that were swept, and those to come.
unfoldable pub sweep_all : ℕ → List Hit → List Hit → Sweep → Sweep
unfolding sweep_hit
sweep_all window seen [] s = s
sweep_all window seen (h ∷ hs) s =
    sweep_all window (seen ++ h ∷ []) hs (sweep_hit window (seen ++ h ∷ []) h s)

-- `best_window_span == window`
abbrev pub is_span : Option ℕ → ℕ → Bool
is_span none window = false
is_span (some span) window = span == window

unfoldable pub rescan_best_window : FightEntity → FightEntity
unfolding sweep_all
rescan_best_window e =
    let best = if is_span e.best_window_span e.trailing_window then e.best_window_damage else 0 in
    let s = sweep_all e.trailing_window [] e.hits (record { left = 0; sum = 0; best = best }) in
    record e {
      best_window_span = some e.trailing_window;
      best_window_hits = length e.hits;
      best_left = s.left;
      best_sum = s.sum;
      best_window_damage = s.best;
    }

-- The resumed sweep: only the window that ends at the newest hit is new.
unfoldable pub resume_best_window : Hit → FightEntity → FightEntity
unfolding sweep_hit
resume_best_window h e =
    let s =
      sweep_hit e.trailing_window e.hits h
        (record { left = e.best_left; sum = e.best_sum; best = e.best_window_damage }) in
    record e {
      best_left = s.left;
      best_sum = s.sum;
      best_window_hits = length e.hits;
      best_window_damage = s.best;
    }

unfoldable pub update_best_window : FightEntity → FightEntity
unfolding rescan_best_window resume_best_window last_hit
update_best_window e =
    let count = length e.hits in
    let same = is_span e.best_window_span e.trailing_window in
    if count == e.best_window_hits && same
    then e
    else if not same || not (count == e.best_window_hits + 1)
    then rescan_best_window e
    else (elim (last_hit e.hits) [ none ↦ e | some h ↦ resume_best_window h e ])

-- `reversed(hits)`
unfoldable pub reversed : List Hit → List Hit
reversed [] = []
reversed (h ∷ hs) = reversed hs ++ h ∷ []

-- The sum of the hits, from the newest on, up to the first that is older than the cutoff.
unfoldable pub sum_recent : ℕ → ℕ → List Hit → ℕ
sum_recent window now [] = 0
sum_recent window now (h ∷ hs) =
    let rest = sum_recent window now hs in if ltb (h.time + window) now then 0 else h.damage + rest

-- `if window is not None: trailing_window = window`
abbrev pub adopt : Option ℕ → FightEntity → FightEntity
adopt none e = e
adopt (some window) e = record e { trailing_window = window }

-- The trailing sum and the best window of an entity that has hits.
unfoldable pub measure : ℕ → FightEntity → FightEntity
unfolding update_best_window sum_recent reversed
measure now e =
    update_best_window
      (record e { trailing_damage = sum_recent e.trailing_window now (reversed e.hits) })

-- A slain row is frozen.
abbrev pub unless_dead : Option ℕ → FightEntity → FightEntity → FightEntity
unless_dead none e e' = e'
unless_dead (some t) e e' = e

unfoldable pub update_trailing : ℕ → Option ℕ → FightEntity → FightEntity
unfolding measure
update_trailing now window e =
    let e' = adopt window e in
    unless_dead e.death_time e (if is_empty_list e.hits then e' else measure now e')

-- The hit is recorded.
abbrev pub with_hit : ℕ → ℕ → FightEntity → FightEntity
with_hit timestamp damage e = record e {
  hits = e.hits ++ record { time = timestamp; damage = damage } ∷ [];
  total_damage = e.total_damage + damage;
  highest_hit = if ltb e.highest_hit damage then damage else e.highest_hit;
}

unfoldable pub add_damage : ℕ → ℕ → FightEntity → FightEntity
unfolding update_trailing
add_damage timestamp damage e = update_trailing timestamp none (with_hit timestamp damage e)

-- A guess of the level only raises it.
abbrev pub raised : ℕ → Option ℕ → Option ℕ
raised guess none = some guess
raised guess (some level) = if ltb level guess then some guess else some level

unfoldable pub update_level : Option ℕ → FightEntity → FightEntity
update_level none e = e
update_level (some guess) e = record e { level = raised guess e.level }

abbrev pub last_damage_time : FightEntity → Option ℕ
last_damage_time e = elim (last_hit e.hits) [ none ↦ none | some h ↦ some h.time ]

-- `death_time if death_time is not None else now`
abbrev pub until : Option ℕ → ℕ → ℕ
until none now = now
until (some t) now = t

-- `end - start`, cut off to whole seconds; a time before the start counts back.
unfoldable pub total_seconds : ℕ → FightEntity → Number
total_seconds now e =
    let end = until e.death_time now in
    if ltb end e.start_time
    then record { negative = true; magnitude = (e.start_time - end) / 1000000 }
    else record { negative = false; magnitude = (end - e.start_time) / 1000000 }

-- `int(total_damage / seconds)`
unfoldable pub total_dps : ℕ → FightEntity → ℕ
unfolding total_seconds
total_dps now e =
    let seconds = total_seconds now e in
    if ltb 0 e.total_damage && (not seconds.negative && ltb 0 seconds.magnitude)
    then truncated (quotient e.total_damage seconds.magnitude)
    else 0

-- `int(trailing_damage / trailing_window.total_seconds())`
unfoldable pub trailing_dps : FightEntity → ℕ
trailing_dps e =
    if ltb 0 e.trailing_damage && ltb 0 e.trailing_window
    then truncated (divided_by e.trailing_damage (quotient e.trailing_window 1000000))
    else 0

-- Two hits within a window of 12 seconds, and a third that leaves only the second.
best_test :
    (add_damage 20000000 7 (
      add_damage 10000000 20
        (add_damage 1000000 30 (new_entity [] [] 0 12000000)))).best_window_damage
    ≡ 50
unfolding add_damage
best_test = refl
