-- ===== src/Tests/Logs.antt =====
-- A log that grows by pieces of lines, and one that was emptied and filled again.
use nparse_plus.Prelude.{
  ◌≡◌, refl, some, List, [], ◌-◌, ◌≤◌, length, ◌∷◌, ◌++◌, if◌then◌else◌, arith,
}
use nparse_plus.Text.{codes, text_eq}
use nparse_plus.Logs.Bytes.{Bytes, drop, take, splitlines, ends_with_newline, rpartition}
use nparse_plus.Logs.Tail.{LogTail, restart, consume, poll, resume, resume_from, deliver, lines_of}
use nparse_plus.Logs.Polls.{file, is_other, poll_lem}
use nparse_plus.Logs.Lines.{Delivered, Follows, polls, concat, polls-lines}
use nparse_plus.Logs.Attach.{attach, attach_backtrack_bytes}
use nparse_plus.Logs.Attached.{attach-Follows, poll-attach}

abbrev log : Bytes
log = codes "You" ++ 13 ∷ 10 ∷ []

abbrev tail : LogTail
tail = record { position = 5; partial = []; signature = log }

abbrev pieces : List Bytes
pieces = codes "a r" ∷ (codes "at" ++ 13 ∷ []) ∷ (10 ∷ codes "b") ∷ []

polls_test : (polls tail log pieces).1 ≡ codes "a rat" ∷ []
unfolding polls poll resume resume_from consume deliver lines_of splitlines text_eq drop take
    ends_with_newline rpartition
polls_test = refl

polls-lines_example : Delivered (concat pieces) (polls tail log pieces)
polls-lines_example = polls-lines tail log pieces ([], refl, refl, refl)

poll_lem_example :
    let other = codes "Another log" in
    poll tail (some (file other))
    ≡ (if is_other tail other then consume (restart tail) other else consume tail (drop 5 other))
poll_lem_example = poll_lem tail (codes "Another log") (omega arith)

-- A session that began in the middle of the log.
abbrev session_log : Bytes
session_log = codes "x] Welcome to EverQuest!" ++ 10 ∷ codes "You"

attach_test : (attach 28 session_log).position ≡ 25
unfolding attach
attach_test = refl

attach-Follows_example :
    (28 - attach_backtrack_bytes ≤ (attach 28 session_log).position)
    × ((attach 28 session_log).position ≤ length session_log)
    × Follows (take (attach 28 session_log).position session_log) (attach 28 session_log)
attach-Follows_example = attach-Follows 28 session_log (omega arith)

poll-attach_example :
    let t = attach 28 session_log in
    poll t (some (file (session_log ++ 10 ∷ [])))
    ≡ consume t (drop t.position session_log ++ 10 ∷ [])
poll-attach_example = poll-attach 28 session_log (10 ∷ []) (omega arith)
