-- ===== src/Pipeline/Chain.antt =====
-- The chain of parsers (core/pipeline.py): `LogPipeline`.
--
-- The world is what the parsers and the subscribers of the bus act on. A change of the chain is the
-- function that the pipeline submits to the driver, or runs at once where it has no driver.
use nparse_plus.Prelude.{
  ℕ, ◌+◌, ◌≡◌, refl, ap, Bool, true, false, ◌&&◌, Option, none, some, List, [], ◌∷◌, ◌++◌,
  if◌then◌else◌, ◌==◌, Bool-cases, inl, inr,
}
use nparse_plus.Text.{Text, codes, is_space, is_empty}
use nparse_plus.Logs.Stamps.{DateTime, is_date}
use nparse_plus.Logs.LineInfo.{LineInfo, parse_line, format_line}
use nparse_plus.Logs.LineTrip.{parse-format_line}
use nparse_plus.Logs.Brackets.{starts_with, ends_with}

-- What a call of `handle` comes to: it consumed the line, it did not, or it raised.
pub data Outcome : Type 0 where
  consumed passed raised : Outcome

abbrev pub is_consumed : Outcome → Bool
is_consumed consumed = true
is_consumed _ = false

-- A `LineParser`, known by its identity.
pub record Parser {ℓ} (W : Type ℓ) : Type ℓ where
  pub key : ℕ
  pub handle : LineInfo → W → W × Outcome

pub record LogPipeline {ℓ} (W : Type ℓ) : Type ℓ where
  pub parsers : List (Parser W)
  pub line_counter : ℕ
  pub last_you_activity : Option DateTime
  pub last_entry_time : Option DateTime

-- `LineEvent`
pub record LineEvent : Type 0 where
  pub timestamp : DateTime
  pub line : Text
  pub line_number : ℕ

-- `s.startswith(prefix)`
unfoldable pub starts : Text → Text → Bool
starts [] s = true
starts (c ∷ p) [] = false
starts (c ∷ p) (d ∷ s) = c == d && starts p s

-- `prefix.rstrip()[: prefix.index(".") + 1]`, of a prefix that has a dot before its white space.
unfoldable pub up_to_dot : Text → Text
up_to_dot [] = []
up_to_dot (c ∷ s) = let rest = up_to_dot s in if c == 46 then c ∷ [] else c ∷ rest

-- `_REWRITES`
abbrev pub rewrites : List Text
rewrites =
    codes "Your body begins to rot.  You have taken "
    ∷ codes "Your eardrums rupture.  You have taken "
    ∷ []

unfoldable pub rewritten : List Text → Text → Text
unfolding starts up_to_dot
rewritten [] message = message
rewritten (prefix ∷ prefixes) message =
    let rest = rewritten prefixes message in
    if starts prefix message then up_to_dot prefix else rest

unfoldable pub rewrite_line : LineInfo → LineInfo
unfolding rewritten
rewrite_line info = record info { message = rewritten rewrites info.message }

module _ {ℓ} {W : Type ℓ} where
  -- `append_parser` and `_remove_now`, when they are applied.
  unfoldable pub append_parser : Parser W → LogPipeline W → LogPipeline W
  append_parser p s = record s { parsers = s.parsers ++ p ∷ [] }

  unfoldable pub without : ℕ → List (Parser W) → List (Parser W)
  without key [] = []
  without key (p ∷ ps) = if p.key == key then ps else p ∷ without key ps

  unfoldable pub remove_parser : Parser W → LogPipeline W → LogPipeline W
  unfolding without
  remove_parser p s = record s { parsers = without p.key s.parsers }

  -- The loop over the parsers: the first that consumes the line ends it, and one that raises does not.
  unfoldable pub run_chain : List (Parser W) → LineInfo → W → W × Bool
  run_chain [] info w = (w, false)
  run_chain (p ∷ ps) info w =
      let (w', outcome) = p.handle info w in
      let rest = run_chain ps info w' in if is_consumed outcome then (w', true) else rest

  -- First match wins: what stands behind in the chain sees exactly the lines that no parser before it
  -- consumed, after all of those have seen it.
  pub run_chain-append :
      (ps qs : List (Parser W)) (info : LineInfo) (w : W)
      → run_chain (ps ++ qs) info w ≡ (
          if (run_chain ps info w).1
          then run_chain ps info w
          else run_chain qs info (run_chain ps info w).0)
  unfolding run_chain
  run_chain-append [] qs info w = refl
  run_chain-append (p ∷ ps) qs info w = elim (Bool-cases (is_consumed (p.handle info w).1)) [
    | inl e ↦ rw e refl
    | inr e ↦ rw e (run_chain-append ps qs info (p.handle info w).0)
  ]

  module _ (publish : LineEvent → W → W) where
    -- `process` of a line that was parsed, after the prefixes.
    unfoldable pub feed_chain : DateTime → LineInfo → LogPipeline W → W → LogPipeline W × W
    unfolding run_chain starts
    feed_chain now info s w =
        let active = if starts (codes "You") info.message then some now else s.last_you_activity in
        (
          record s { last_you_activity = active; last_entry_time = some info.timestamp },
          publish
              (record {
                timestamp = info.timestamp;
                line = info.message;
                line_number = info.line_number;
              })
              (run_chain s.parsers info w).0,
        )

    abbrev pub process_parsed : DateTime → Option LineInfo → LogPipeline W → W → LogPipeline W × W
    process_parsed now none s w = (s, w)
    process_parsed now (some info) s w = feed_chain now (rewrite_line info) s w

    unfoldable pub process : Text → DateTime → LogPipeline W → W → LogPipeline W × W
    unfolding parse_line rewrite_line feed_chain
    process raw now s w =
        process_parsed now (parse_line raw (s.line_counter + 1) now)
          (record s { line_counter = s.line_counter + 1 }) w

    -- A formatted line goes through the chain and to the bus once, with its time, the next number,
    -- and its message, in which a prefix of a rewrite stands for the whole message.
    pub process-format_line :
        (message : Text) (when now : DateTime) (s : LogPipeline W) (w : W)
        → is_date when ≡ true
        → is_empty message ≡ false
        → starts_with is_space message ≡ false
        → ends_with is_space message ≡ false
        → let info : LineInfo = record {
          raw = format_line message when;
          message = rewritten rewrites message;
          timestamp = record when { microsecond = 0 };
          line_number = s.line_counter + 1;
        } in
          (process (format_line message when) now s w).1
          ≡ publish
              (record {
                timestamp = record when { microsecond = 0 };
                line = rewritten rewrites message;
                line_number = s.line_counter + 1;
              })
              (run_chain s.parsers info w).0
    unfolding process feed_chain rewrite_line
    process-format_line message when now s w d e b k =
        ap (λ o. (process_parsed now o (record s { line_counter = s.line_counter + 1 }) w).1)
          (parse-format_line message when (s.line_counter + 1) now d e b k)
