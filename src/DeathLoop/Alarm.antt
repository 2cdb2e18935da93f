-- ===== src/DeathLoop/Alarm.antt =====
-- The alarm against the history: it goes off exactly when enough deaths lie in the window.
use nparse_plus.Prelude.{
  append-nil, ℕ, ◌+◌, ◌≤◌, ◌≡◌, refl, sym, ap, ◌∙◌, Bool, true, false, ◌&&◌, List, [], ◌∷◌, ◌++◌,
  length, length-append, keep, arith, if◌then◌else◌, leb,
}
use nparse_plus.Text.{Text, text_eq}
use nparse_plus.DeathLoop.{
  DeathLoopService, roll_off, you, Event, slain, damage, begin_casting, comms, handle, after,
}
use nparse_plus.DeathLoop.History.{
  deaths, within, InOrder, roll_off_twice, roll_off-keep, deaths-IsGood,
}

-- The list that the service keeps is, from any later time on, as good as the deaths.
abbrev Agrees : ℕ → ℕ → List ℕ → List ℕ → Type 0
Agrees window now ts us =
    (later : ℕ) → now ≤ later → roll_off later window ts ≡ roll_off later window us

Agrees-prune :
    (window now t : ℕ) (ts us : List ℕ)
    → now ≤ t
    → Agrees window now ts us
    → Agrees window t (roll_off t window ts) us
Agrees-prune window now t ts us le a later h =
    ap (roll_off later window) (sym (append-nil _))
    ∙ roll_off_twice window t later h ts []
    ∙ ap (roll_off later window) (append-nil ts)
    ∙ a later (omega arith)

Agrees-append :
    (window t u : ℕ) (ts us : List ℕ)
    → Agrees window t ts us
    → Agrees window t (roll_off t window ts ++ u ∷ []) (us ++ u ∷ [])
Agrees-append window t u ts us a later h =
    ap (λ l. roll_off later window (l ++ u ∷ [])) (a t (omega arith))
    ∙ roll_off_twice window t later h us (u ∷ [])

Agrees-if :
    (window now : ℕ) (b : Bool) (ts us ts' us' : List ℕ)
    → Agrees window now ts us
    → Agrees window now ts' us'
    → Agrees window now (if b then ts else ts') (if b then us else us')
Agrees-if window now true ts us ts' us' a c = a
Agrees-if window now false ts us ts' us' a c = c

Agrees-mono :
    (window t now : ℕ) (ts us : List ℕ) → t ≤ now → Agrees window t ts us → Agrees window now ts us
Agrees-mono window t now ts us le a later h = a later (omega arith)

-- The settings of the service do not change.
module _ (s : DeathLoopService) where
  window-after : (history : List Event) → (after history s).window ≡ s.window
  unfolding after handle
  window-after [] = refl
  window-after (slain t victim ∷ earlier) = ground (arith, window-after earlier)
  window-after (damage t attacker ∷ earlier) = ground (arith, window-after earlier)
  window-after (begin_casting ∷ earlier) = window-after earlier
  window-after (comms t c sender ∷ earlier) = ground (arith, window-after earlier)

  threshold-after : (history : List Event) → (after history s).deaths_threshold ≡ s.deaths_threshold
  unfolding after handle
  threshold-after [] = refl
  threshold-after (slain t victim ∷ earlier) = ground (arith, threshold-after earlier)
  threshold-after (damage t attacker ∷ earlier) = ground (arith, threshold-after earlier)
  threshold-after (begin_casting ∷ earlier) = threshold-after earlier
  threshold-after (comms t c sender ∷ earlier) = ground (arith, threshold-after earlier)

-- The timestamps after an event, from those before it.
unfoldable timestamps : Event → ℕ → List ℕ → List ℕ
timestamps (slain t victim) window ts =
    if text_eq victim you
    then roll_off t window (roll_off t window ts) ++ t ∷ []
    else roll_off t window ts
timestamps (damage t attacker) window ts = if text_eq attacker you then [] else roll_off t window ts
timestamps begin_casting window ts = []
timestamps (comms t on_channel sender) window ts =
    if on_channel && text_eq sender you then [] else roll_off t window ts

handle-timestamps :
    (e : Event) (s : DeathLoopService)
    → (handle e s).0.death_timestamps ≡ timestamps e s.window s.death_timestamps
unfolding handle timestamps
handle-timestamps (slain t victim) s = ground arith
handle-timestamps (damage t attacker) s = ground arith
handle-timestamps begin_casting s = refl
handle-timestamps (comms t c sender) s = ground arith

module _ (s : DeathLoopService) (none_yet : s.death_timestamps ≡ []) where
  after-timestamps :
      (e : Event) (earlier : List Event)
      → (after (e ∷ earlier) s).death_timestamps
        ≡ timestamps e s.window (after earlier s).death_timestamps
  unfolding after
  after-timestamps e earlier =
      handle-timestamps e (after earlier s)
      ∙ ap (λ w. timestamps e w (after earlier s).death_timestamps) (window-after s earlier)

  after-Agrees :
      (now : ℕ) (history : List Event)
      → InOrder now history
      → Agrees s.window now (after history s).death_timestamps (deaths history)
  unfolding timestamps
  after-Agrees now [] o = unfold after in rw none_yet (λ later h. refl)
  after-Agrees now (slain t victim ∷ earlier) o = rw (after-timestamps (slain t victim) earlier) (
      Agrees-mono s.window t now _ _ o.0 (
        Agrees-if s.window t (text_eq victim you) _ (deaths earlier ++ t ∷ []) _ (deaths earlier)
          (Agrees-append s.window t t _ (deaths earlier) (
            Agrees-prune s.window t t _ (deaths earlier) (omega arith)
              (after-Agrees t earlier o.1)))
          (Agrees-prune s.window t t _ (deaths earlier) (omega arith)
            (after-Agrees t earlier o.1))))
  after-Agrees now (damage t attacker ∷ earlier) o =
      rw (after-timestamps (damage t attacker) earlier) (
        Agrees-mono s.window t now _ _ o.0 (
          Agrees-if s.window t (text_eq attacker you) [] [] _ (deaths earlier) (λ later h. refl)
            (Agrees-prune s.window t t _ (deaths earlier) (omega arith)
              (after-Agrees t earlier o.1))))
  after-Agrees now (begin_casting ∷ earlier) o =
      rw (after-timestamps begin_casting earlier) (λ later h. refl)
  after-Agrees now (comms t c sender ∷ earlier) o =
      rw (after-timestamps (comms t c sender) earlier) (
        Agrees-mono s.window t now _ _ o.0 (
          Agrees-if s.window t (c && text_eq sender you) [] [] _ (deaths earlier) (λ later h. refl)
            (Agrees-prune s.window t t _ (deaths earlier) (omega arith)
              (after-Agrees t earlier o.1))))

handle-alarm :
    (t : ℕ) (victim : Text) (s : DeathLoopService)
    → (handle (slain t victim) s).1 ≡ (
        text_eq victim you
        && leb s.deaths_threshold
            (length (roll_off t s.window (roll_off t s.window s.death_timestamps) ++ t ∷ [])))
unfolding handle
handle-alarm t victim s = ground arith

-- When the alarm should go off: at a death of one's own that makes enough of them, counting those
-- since the last sign of life that lie in the window.
abbrev pub alarm_due : DeathLoopService → Event → List Event → Bool
alarm_due s (slain t victim) history =
    text_eq victim you
    && leb s.deaths_threshold (length (keep (within s.window t) (deaths history)) + 1)
alarm_due s (damage t attacker) history = false
alarm_due s begin_casting history = false
alarm_due s (comms t on_channel sender) history = false

kept_deaths :
    (s : DeathLoopService) (t : ℕ) (history : List Event)
    → s.death_timestamps ≡ []
    → InOrder t history
    → roll_off t s.window (roll_off t s.window (after history s).death_timestamps)
      ≡ keep (within s.window t) (deaths history)
kept_deaths s t history n o =
    Agrees-prune s.window t t _ (deaths history) (omega arith) (after-Agrees s n t history o) t
      (omega arith)
    ∙ roll_off-keep s.window t (deaths history) (deaths-IsGood t history o).0

-- The alarm goes off exactly when it should, after any history of events whose times do not run
-- backwards: the service that forgets deaths as it goes answers as if it remembered them all.
pub handle-alarm_due :
    (s : DeathLoopService) (now : ℕ) (e : Event) (history : List Event)
    → s.death_timestamps ≡ []
    → InOrder now (e ∷ history)
    → (handle e (after history s)).1 ≡ alarm_due s e history
handle-alarm_due s now (slain t victim) history n o =
    handle-alarm t victim (after history s)
    ∙ rw (window-after s history, threshold-after s history, kept_deaths s t history n o.1)
        (ap (λ k. text_eq victim you && leb s.deaths_threshold k)
          (length-append (keep (within s.window t) (deaths history)) (t ∷ []) ∙ omega arith))
handle-alarm_due s now (damage t attacker) history n o = unfold handle in refl
handle-alarm_due s now (begin_casting) history n o = unfold handle in refl
handle-alarm_due s now (comms t c sender) history n o = unfold handle in refl
