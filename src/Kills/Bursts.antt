-- ===== src/Kills/Bursts.antt =====
-- Bursts of lines behind a slain line (core/handlers/spawn_timer.py).
use nparse_plus.Prelude.{
  ℕ, ◌+◌, ◌≡◌, refl, sym, ap, ◌∙◌, Bool, true, false, ◌||◌, not, some, List, [], ◌∷◌, ◌++◌,
  if◌then◌else◌, ◌==◌, length, is_empty_list, arith, append_assoc,
}
use nparse_plus.Text.{Text, text_eq}
use nparse_plus.Kills.Correlation.{
  LogEvent, Event, slain, faction, exp_gained, line_read, Death, Burst, reset, you, faction_slain,
  exp_slain, is_first, is_line, is_next, max_faction_messages, on_line, on_faction, on_exp_gained,
  on_slain, handle, handle_all, do_event,
}

-- The lines that follow a kill: a hit on a faction, or experience.
pub data Hint : Type 0 where
  faction_hint : ℕ → Text → Hint
  exp_hint : ℕ → Text → Hint

-- The line of a hint: the event of its parser, and then the line itself, with the same number.
abbrev pub events_of : ℕ → List Hint → List Event
events_of n [] = []
events_of n (faction_hint t l ∷ hs) =
    let e : LogEvent = record { timestamp = t; line = l; line_number = n } in
    faction e ∷ line_read e ∷ events_of (n + 1) hs
events_of n (exp_hint t l ∷ hs) =
    let e : LogEvent = record { timestamp = t; line = l; line_number = n } in
    exp_gained e ∷ line_read e ∷ events_of (n + 1) hs

-- The hints of one kill, behind the faction lines and the experience that it gave before: no faction
-- line repeats the first, there are six at most, and there is experience once.
abbrev pub IsOneKill : List Text → Bool → List Hint → Type 0
IsOneKill lines exp [] = Unit
IsOneKill lines exp (faction_hint t l ∷ hs) =
    (is_first l lines ≡ false)
    × ((length lines == max_faction_messages) ≡ false)
    × IsOneKill (lines ++ l ∷ []) exp hs
IsOneKill lines exp (exp_hint t l ∷ hs) = (exp ≡ false) × IsOneKill lines true hs

-- What the hints leave.
abbrev pub after_hints : ℕ → List Hint → Burst → Burst
after_hints n [] s = s
after_hints n (faction_hint t l ∷ hs) s = after_hints (n + 1) hs (record s {
  victim = faction_slain;
  killer = you;
  line_number = some n;
  faction_messages = s.faction_messages ++ l ∷ [];
})
after_hints n (exp_hint t l ∷ hs) s =
    after_hints (n + 1) hs
      (record s { victim = exp_slain; killer = you; line_number = some n; exp_message = true })

handle_all-append :
    (xs ys : List Event) (s : Burst)
    → handle_all (xs ++ ys) s ≡ (
      (handle_all ys (handle_all xs s).0).0,
      (handle_all xs s).1 ++ (handle_all ys (handle_all xs s).0).1,
    )
unfolding handle_all
handle_all-append [] ys s = refl
handle_all-append (x ∷ xs) ys s =
    let (s1, now) = handle x s in
    ap (λ (p : Burst × List Death). (p.0, now ++ p.1)) (handle_all-append xs ys s1)
    ∙ ap (λ l. ((handle_all ys (handle_all xs s1).0).0, l))
        (sym (append_assoc now (handle_all xs s1).1 (handle_all ys (handle_all xs s1).0).1))

-- The hints of one kill confirm nothing by themselves.
hints_lem :
    (n : ℕ) (hs : List Hint) (s : Burst)
    → IsOneKill s.faction_messages s.exp_message hs
    → handle_all (events_of n hs) s ≡ (after_hints n hs s, [])
unfolding handle_all handle on_line on_faction on_exp_gained
hints_lem n [] s k = refl
hints_lem n (faction_hint t l ∷ hs) s k =
    let same : (n == n) ≡ true = ground arith in rw (k.0, k.1, same) (hints_lem (n + 1) hs _ k.2)
hints_lem n (exp_hint t l ∷ hs) s k =
    let same : (n == n) ≡ true = ground arith in rw (k.0, same) (hints_lem (n + 1) hs _ k.1)

pub after_hints-line :
    (n m : ℕ) (hs : List Hint) (s : Burst)
    → s.line_number ≡ some m
    → n ≡ m + 1
    → (after_hints n hs s).line_number ≡ some (m + length hs)
after_hints-line n m [] s e h = e ∙ ap some (omega arith)
after_hints-line n m (faction_hint t l ∷ hs) s e h =
    after_hints-line (n + 1) n hs _ refl refl ∙ ap some (omega (arith, h))
after_hints-line n m (exp_hint t l ∷ hs) s e h =
    after_hints-line (n + 1) n hs _ refl refl ∙ ap some (omega (arith, h))

pub after_hints-emitted :
    (n : ℕ) (hs : List Hint) (s : Burst) → (after_hints n hs s).already_emitted ≡ s.already_emitted
after_hints-emitted n [] s = refl
after_hints-emitted n (faction_hint t l ∷ hs) s = after_hints-emitted (n + 1) hs _
after_hints-emitted n (exp_hint t l ∷ hs) s = after_hints-emitted (n + 1) hs _

-- There is something to guess from.
abbrev pub is_busy : Burst → Bool
is_busy s = s.exp_message || not (is_empty_list s.faction_messages)

some_lines : (lines : List Text) (l : Text) → not (is_empty_list (lines ++ l ∷ [])) ≡ true
some_lines [] l = refl
some_lines (x ∷ lines) l = refl

pub after_hints-busy :
    (n : ℕ) (hs : List Hint) (s : Burst) → is_busy s ≡ true → is_busy (after_hints n hs s) ≡ true
after_hints-busy n [] s h = h
after_hints-busy n (faction_hint t l ∷ hs) s h =
    after_hints-busy (n + 1) hs _ (ground (arith, some_lines s.faction_messages l))
after_hints-busy n (exp_hint t l ∷ hs) s h = after_hints-busy (n + 1) hs _ refl

abbrev pub guessed : LogEvent → Burst → Burst × List Death
guessed event s = if is_busy s then (reset, do_event event true s ∷ []) else (s, [])

abbrev pub closing : LogEvent → Burst → Burst × List Death
closing event s = if s.already_emitted then (reset, []) else guessed event s

closing_lem :
    (event : LogEvent) (m : ℕ) (s : Burst)
    → s.line_number ≡ some m
    → event.line_number ≡ m + 1
    → on_line event s ≡ closing event s
unfolding on_line
closing_lem event m s e h =
    let other : is_line event.line_number s.line_number ≡ false =
      ap (is_line event.line_number) e ∙ ground (arith, h) in
    let following : is_next event.line_number s.line_number ≡ true =
      ap (is_next event.line_number) e ∙ ground (arith, h) in
    rw (other, following) refl

-- The hints of one kill, and the line that closes them.
pub closed_lem :
    (n m : ℕ) (hs : List Hint) (close : LogEvent) (s : Burst)
    → (after_hints n hs s).line_number ≡ some m
    → close.line_number ≡ m + 1
    → IsOneKill s.faction_messages s.exp_message hs
    → handle_all (events_of n hs ++ line_read close ∷ []) s
      ≡ ((closing close (after_hints n hs s)).0, (closing close (after_hints n hs s)).1 ++ [])
unfolding handle_all handle
closed_lem n m hs close s e c k =
    handle_all-append (events_of n hs) (line_read close ∷ []) s
    ∙ ap
        (λ (p : Burst × List Death). (
          (handle_all (line_read close ∷ []) p.0).0,
          p.1 ++ (handle_all (line_read close ∷ []) p.0).1,
        ))
        (hints_lem n hs s k)
    ∙ ap (λ (p : Burst × List Death). (p.0, p.1 ++ []))
        (closing_lem close m (after_hints n hs s) e c)

-- A slain line, then the faction lines and the experience of the kill in the lines that follow it, and
-- then another line: one death is confirmed, that of the slain line, and the burst is over.
pub slain_burst :
    (event close : LogEvent) (victim killer : Text) (hs : List Hint)
    → text_eq victim you ≡ false
    → IsOneKill [] false hs
    → close.line_number ≡ event.line_number + length hs + 1
    → handle_all
        (slain event victim killer
          ∷ line_read event
          ∷ (events_of (event.line_number + 1) hs ++ line_read close ∷ []))
        reset
      ≡ (reset, record { event = event; victim = victim; killer = killer; guess = false } ∷ [])
unfolding handle_all handle on_slain on_line
slain_burst event close victim killer hs v k c =
    let n = event.line_number in
    let death : Death = record { event = event; victim = victim; killer = killer; guess = false } in
    let s : Burst = record reset {
      victim = victim;
      killer = killer;
      line_number = some n;
      already_emitted = true;
    } in
    let same : (n == n) ≡ true = ground arith in
    let over : closing close (after_hints (n + 1) hs s) ≡ (reset, []) =
      ap (λ b. if b then (reset, []) else guessed close (after_hints (n + 1) hs s))
        (after_hints-emitted (n + 1) hs s) in
    rw (v, same)
      (ap (λ (p : Burst × List Death). (p.0, death ∷ p.1))
        (closed_lem (n + 1) (n + length hs) hs close s (after_hints-line (n + 1) n hs s refl refl) c
            k
          ∙ ap (λ (p : Burst × List Death). (p.0, p.1 ++ [])) over))
