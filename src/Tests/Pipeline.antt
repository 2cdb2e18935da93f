-- ===== src/Tests/Pipeline.antt =====
-- A chain of three parsers, and a bus whose handlers change it.
use nparse_plus.Prelude.{ℕ, ◌+◌, ◌≡◌, refl, true, none, List, [], ◌∷◌, ◌++◌, if◌then◌else◌, length}
use nparse_plus.Text.{Text, codes, is_space}
use nparse_plus.Logs.Stamps.{DateTime, is_date, days_in_month, is_leap}
use nparse_plus.Logs.LineInfo.{LineInfo, format_line}
use nparse_plus.Pipeline.Chain.{
  Parser, consumed, passed, raised, LogPipeline, LineEvent, rewritten, rewrites, starts, run_chain,
  process, run_chain-append, process-format_line,
}
use nparse_plus.Pipeline.Bus.{
  EventBus, Event, State, subscribed, subscribe, unsubscribe, subscribe_all, new_bus, call_each,
  publish,
}
use nparse_plus.Pipeline.Dispatch.{publish-called}

-- The world is the numbers of what was called.
abbrev noting : ℕ → Parser (List ℕ)
noting n = record {
  key = n;
  handle = λ info w. (w ++ n ∷ [], if starts (codes "You") info.message then consumed else passed);
}

abbrev raising : Parser (List ℕ)
raising = record { key = 9; handle = λ info w. (w ++ 9 ∷ [], raised) }

abbrev when : DateTime
when = record {
  year = 2026;
  month = 7;
  day = 8;
  hour = 21;
  minute = 59;
  second = 36;
  microsecond = 0;
}

abbrev message : Text
message = codes "You begin casting Clarity."

abbrev line : LineInfo
line = record { raw = []; message = message; timestamp = when; line_number = 4 }

-- A parser that raises does not end the line, one that consumes it does.
run_chain_test : run_chain (raising ∷ noting 1 ∷ noting 2 ∷ []) line [] ≡ (9 ∷ 1 ∷ [], true)
unfolding run_chain starts
run_chain_test = refl

run_chain-append_test : run_chain (raising ∷ noting 1 ∷ noting 2 ∷ []) line [] ≡ (
    if (run_chain (raising ∷ noting 1 ∷ []) line []).1
    then run_chain (raising ∷ noting 1 ∷ []) line []
    else run_chain (noting 2 ∷ []) line (run_chain (raising ∷ noting 1 ∷ []) line []).0)
run_chain-append_test = run_chain-append (raising ∷ noting 1 ∷ []) (noting 2 ∷ []) line []

abbrev chain : LogPipeline (List ℕ)
chain = record {
  parsers = raising ∷ noting 1 ∷ [];
  line_counter = 3;
  last_you_activity = none;
  last_entry_time = none;
}

abbrev count_event : LineEvent → List ℕ → List ℕ
count_event event w = w ++ length event.line ∷ []

process-format_line_example :
    let info : LineInfo = record {
      raw = format_line message when;
      message = rewritten rewrites message;
      timestamp = when;
      line_number = 4;
    } in
    (process count_event (format_line message when) when chain []).1
    ≡ count_event
        (record { timestamp = when; line = rewritten rewrites message; line_number = 4 })
        (run_chain chain.parsers info []).0
unfolding is_date days_in_month is_space is_leap
process-format_line_example =
    process-format_line count_event message when when chain [] refl refl refl refl

-- The first handler leaves its list and joins the firehose.
abbrev leaving : ℕ → Event ℕ → EventBus → ℕ → EventBus × ℕ
leaving fn event b w =
    (if starts (fn ∷ []) (1 ∷ []) then subscribe_all 1 (unsubscribe 7 1 b) else b, w + 1)

abbrev two_subscribed : State ℕ
two_subscribed = record {
  bus = subscribe 7 2 (subscribe 7 1 (subscribe_all 3 new_bus));
  world = 0;
  called = [];
}

abbrev event : Event ℕ
event = record { type = 7; payload = 0 }

publish_test : (publish leaving event two_subscribed).called ≡ 1 ∷ 2 ∷ 3 ∷ 1 ∷ []
unfolding publish subscribed call_each subscribe unsubscribe subscribe_all starts
publish_test = refl

publish-called_example :
    let fns = subscribed 7 two_subscribed.bus.subscribers in
    (publish leaving event two_subscribed).called
    ≡ [] ++ (fns ++ (call_each leaving fns event two_subscribed).bus.firehose)
publish-called_example = publish-called leaving event two_subscribed
