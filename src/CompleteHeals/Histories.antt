-- ===== src/CompleteHeals/Histories.antt =====
-- The chains of the service against the history of each target alone.
use nparse_plus.Prelude.{
  ℕ, ◌≤◌, ◌≡◌, refl, sym, ap, ◌∙◌, Option, none, some, List, [], ◌∷◌, arith, if◌then◌else◌,
  Bool-cases, inl, inr,
}
use nparse_plus.Text.{Text, text_eq, text_eq_iff}
use nparse_plus.CompleteHeals.{
  CompleteHealEvent, should_warn_of_chain, Entry, ChChainService, live, chain_of, observe,
}

-- The service after a history of calls, the last one first.
unfoldable pub after : List CompleteHealEvent → ChChainService
after [] = λ target. none
after (e ∷ earlier) = (observe e (after earlier)).0

-- What the calls for one target alone leave of its chain: a call that comes too late after the last
-- one for that target starts a new chain.
abbrev pub own : Text → List CompleteHealEvent → Option Entry
own target [] = none
own target (e ∷ earlier) =
    let before = own target earlier in
    if text_eq target e.recipient
    then some (record {
      chain = (should_warn_of_chain (chain_of (live e.timestamp before)) e).0;
      updated_at = e.timestamp;
    })
    else before

-- The times of a history do not run backwards, and end by a time.
abbrev pub InOrder : ℕ → List CompleteHealEvent → Type 0
InOrder now [] = Unit
InOrder now (e ∷ earlier) = (e.timestamp ≤ now) × InOrder e.timestamp earlier

live_twice : (t now : ℕ) (o : Option Entry) → t ≤ now → live now (live t o) ≡ live now o
live_twice t now none h = refl
live_twice t now (some entry) h = ground arith

-- From any later time on, the entry of a target is as good as its own history.
after-own :
    (target : Text) (history : List CompleteHealEvent) (t now : ℕ)
    → InOrder t history
    → t ≤ now
    → live now (after history target) ≡ live now (own target history)
unfolding after observe
after-own target [] t now o h = refl
after-own target (e ∷ earlier) t now o h =
    let ih = after-own target earlier e.timestamp e.timestamp o.1 (omega arith) in
    let later = after-own target earlier e.timestamp now o.1 (omega (arith, o.0, h)) in
    elim (Bool-cases (text_eq target e.recipient)) [
      | inl s ↦
          let same : target ≡ e.recipient = (text_eq_iff target e.recipient).0 s in
          rw s (
            ap
              (λ x. live now (
                some (record {
                  chain = (should_warn_of_chain (chain_of x) e).0;
                  updated_at = e.timestamp;
                })))
              (ap (λ k. live e.timestamp (after earlier k)) (sym same) ∙ ih))
      | inr s ↦
          rw s (live_twice e.timestamp now (after earlier target) (omega (arith, o.0, h)) ∙ later)
    ]

-- Whether a call warns depends on the calls for its target alone: the service, which forgets every
-- target that is idle at any call, answers as the chain would that only a late call for the target
-- itself starts anew. The times of the calls do not run backwards.
pub observe-own :
    (e : CompleteHealEvent) (history : List CompleteHealEvent)
    → InOrder e.timestamp history
    → (observe e (after history)).1
      ≡ (should_warn_of_chain (chain_of (live e.timestamp (own e.recipient history))) e).1
observe-own e history o =
    unfold observe in
    ap (λ x. (should_warn_of_chain (chain_of x) e).1)
      (after-own e.recipient history e.timestamp e.timestamp o (omega arith))
