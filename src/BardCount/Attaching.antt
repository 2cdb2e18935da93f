-- ===== src/BardCount/Attaching.antt =====
-- What a count adds to the sessions (core/handlers/bard_count.py).
use nparse_plus.Prelude.{
  ℕ, ◌+◌, ◌≡◌, refl, ap, ◌∙◌, Bool, true, false, ◌&&◌, not, Bool-cases, inl, inr, Option, none,
  some, List, [], ◌∷◌, ◌++◌, if◌then◌else◌, arith, keep, one_if,
}
use nparse_plus.Text.{Text, is_empty, name_eq}
use nparse_plus.BardCount.Lines.{normalize_spell_name}
use nparse_plus.BardCount.Sessions.{
  Session, CounterLists, BardCount, Count, hit, resist, in_window, bumped_session, bump_first,
  bump_latest, is_latest, latest, rename, attach_named, attach_any, attach, bumped_or, open_session,
}

-- The hits, or the resists, of a session, and of all sessions.
abbrev pub counted : Count → Session → ℕ
counted hit s = s.hits
counted resist s = s.resists

abbrev pub total : Count → List Session → ℕ
total c [] = 0
total c (s ∷ ss) = counted c s + total c ss

abbrev pub same_count : Count → Count → Bool
same_count hit hit = true
same_count hit resist = false
same_count resist hit = false
same_count resist resist = true

pub total-append : (c : Count) (xs ys : List Session) → total c (xs ++ ys) ≡ total c xs + total c ys
total-append c [] ys = omega arith
total-append c (x ∷ xs) ys = omega (arith, total-append c xs ys)

pub total-keep :
    (c : Count) (p : Session → Bool) (ss : List Session)
    → total c (keep p ss) + total c (keep (λ s. not (p s)) ss) ≡ total c ss
total-keep c p [] = omega arith
total-keep c p (s ∷ ss) = ground (arith, total-keep c p ss)

none_before :
    (c : Count) (name : Text) (t : ℕ)
    → counted c
        (record { spell_name = name; start_time = t; last_event_time = t; hits = 0; resists = 0 })
      ≡ 0
none_before hit name t = refl
none_before resist name t = refl

bumped_session-counted :
    (c k : Count) (t : ℕ) (s : Session)
    → counted c (bumped_session t k s) ≡ counted c s + one_if (same_count c k)
bumped_session-counted hit hit t s = refl
bumped_session-counted hit resist t s = omega arith
bumped_session-counted resist hit t s = omega arith
bumped_session-counted resist resist t s = refl

renamed-counted :
    (c k : Count) (t : ℕ) (name : Text) (s : Session)
    → counted c (bumped_session t k (rename name s)) ≡ counted c s + one_if (same_count c k)
renamed-counted hit hit t name s = refl
renamed-counted hit resist t name s = omega arith
renamed-counted resist hit t name s = omega arith
renamed-counted resist resist t name s = refl

-- Where a session was bumped, so much more is counted.
abbrev Grows : Count → ℕ → List Session → Option (List Session × Session) → Type 0
Grows c n ss none = Unit
Grows c n ss (some (out, s)) = total c out ≡ total c ss + n

behind-Grows :
    (c : Count) (n : ℕ) (t : Session) (ss : List Session) (r : Option (List Session × Session))
    → Grows c n ss r
    → Grows c n
        (t ∷ ss)
        (elim r [ none ↦ none | some (later, changed) ↦ some (t ∷ later, changed) ])
behind-Grows c n t ss none g = tt
behind-Grows c n t ss (some (out, s)) g = omega (arith, g)

bump_first-Grows :
    (c : Count) (n : ℕ) (p : Session → Bool) (f : Session → Session)
    → ((s : Session) → counted c (f s) ≡ counted c s + n)
    → (ss : List Session) → Grows c n ss (bump_first p f ss)
unfolding bump_first
bump_first-Grows c n p f g [] = tt
bump_first-Grows c n p f g (t ∷ ss) = elim (Bool-cases (p t)) [
  | inl e ↦ rw e (omega (arith, g t))
  | inr e ↦ rw e (behind-Grows c n t ss (bump_first p f ss) (bump_first-Grows c n p f g ss))
]

if-holds {ℓ κ} :
    {A : Type ℓ} (P : A → Type κ) (b : Bool) (x y : A) → P x → P y → P (if b then x else y)
if-holds P true x y h k = h
if-holds P false x y h k = k

module _ (c k : Count) (timestamp : ℕ) (h : BardCount) where
  abbrev Counts : List Session → Type 0
  Counts ss = total c ss ≡ total c h.sessions + one_if (same_count c k)

  open_session-total : (name : Text) → Counts (open_session timestamp name k h).sessions
  open_session-total name =
      total-append c h.sessions _
      ∙ ap (λ n. total c h.sessions + n)
          (omega (
            arith,
            bumped_session-counted c k timestamp (record {
              spell_name = name;
              start_time = timestamp;
              last_event_time = timestamp;
              hits = 0;
              resists = 0;
            }),
            none_before c name timestamp,
          ))

  bumped_or-total :
      (r : Option (List Session × Session)) (other : BardCount)
      → Grows c (one_if (same_count c k)) h.sessions r
      → Counts other.sessions
      → Counts (bumped_or timestamp k h other r).sessions
  bumped_or-total none other g o = o
  bumped_or-total (some (out, s)) other g o = g

  pub attach-total :
      (lists : CounterLists) (name : Text) (force : Bool)
      → Counts (attach lists timestamp name k force h).sessions
  unfolding attach attach_named attach_any bump_latest
  attach-total lists name force =
      let one = one_if (same_count c k) in
      let p : Session → Bool =
        λ s. name_eq s.spell_name (normalize_spell_name name) && in_window timestamp s in
      let q : Session → Bool = λ s. is_empty s.spell_name && in_window timestamp s in
      let r : Session → Bool = in_window timestamp in
      if-holds (λ (x : BardCount). Counts x.sessions) _ _ _
        (bumped_or-total _ _
          (bump_first-Grows c one (is_latest p (latest p h.sessions)) _
            (bumped_session-counted c k timestamp) h.sessions)
          (bumped_or-total _ _
            (bump_first-Grows c one (is_latest q (latest q h.sessions)) _
              (renamed-counted c k timestamp (normalize_spell_name name)) h.sessions)
            (open_session-total (normalize_spell_name name))))
        (bumped_or-total _ _
          (bump_first-Grows c one (is_latest r (latest r h.sessions)) _
            (bumped_session-counted c k timestamp) h.sessions)
          (open_session-total []))
