-- ===== src/Driver/Inbox.antt =====
-- The command inbox of the log driver (core/driver.py): `submit_to_driver`, `start`, `stop`,
-- `_drain_commands` and `_close_command_gate`, as pieces that nothing interrupts. What the lock is
-- released before, and what follows a read of the queue, is a piece of its own.
--
-- A command is its label. One that submits another is a step of the thread that runs it with a step
-- that submits in between. `start` and `stop` are called by the owner of the driver, one at a time.
use nparse_plus.Prelude.{
  ℕ, Bool, true, false, List, [], ◌∷◌, ◌++◌, if◌then◌else◌, ◌==◌, none, some, remove,
}

-- Where the driver's thread is. `testing` looks at the stop; `draining` is in `_drain_commands` of an
-- iteration, `working` is in the rest of it or waits; `closing` is in `_drain_commands` of
-- `_close_command_gate`, and `looking` is before the look under its lock. A command that was taken
-- off the queue and is not over is in hand.
pub data Thread : Type 0 where
  unstarted testing draining working closing looking ended : Thread
  running closing_running : ℕ → Thread

-- Where the owner is: outside of `start` and `stop`; in `start`, behind the lock; in `stop` of a driver
-- that was never started, behind the lock.
pub data Owner : Type 0 where
  idle opened clearing : Owner
  clearing_running : ℕ → Owner

pub record Inbox : Type 0 where
  pub accepting_commands : Bool
  pub stop_set : Bool
  pub queue : List ℕ
  pub thread : Thread
  pub owner : Owner
  -- What callers of `submit_to_driver` are to run, behind the lock.
  pub pending : List ℕ
  -- What was submitted; what of it was queued, in order; and what was run from the queue, and by
  -- callers, in the order of its end.
  pub submitted : List ℕ
  pub accepted : List ℕ
  pub ran : List ℕ
  pub called : List ℕ

-- `LogDriver(…)`
unfoldable pub new_inbox : Inbox
new_inbox = record {
  accepting_commands = false;
  stop_set = false;
  queue = [];
  thread = unstarted;
  owner = idle;
  pending = [];
  submitted = [];
  accepted = [];
  ran = [];
  called = [];
}

-- `_thread.is_alive()`
abbrev pub is_alive : Thread → Bool
is_alive unstarted = false
is_alive ended = false
is_alive _ = true

abbrev pub is_unstarted : Thread → Bool
is_unstarted unstarted = true
is_unstarted _ = false

-- The part of `submit_to_driver` under the lock.
unfoldable pub submit_to_driver : ℕ → Inbox → Inbox
submit_to_driver command s =
    let s' = record s { submitted = s.submitted ++ command ∷ [] } in
    if s.accepting_commands
    then record s' { queue = s.queue ++ command ∷ []; accepted = s.accepted ++ command ∷ [] }
    else record s' { pending = s.pending ++ command ∷ [] }

-- `self._invoke(fn, label)` of a caller, where it has one to run.
unfoldable pub run_inline : ℕ → Inbox → Inbox
run_inline command s = elim (remove ◌==◌ command s.pending) [
  | none ↦ s
  | some rest ↦ record s { pending = rest; called = s.called ++ command ∷ [] }
]

-- `start` up to the release of the lock; the stop is read by no thread before the next is begun.
abbrev pub start_by : Owner → Inbox → Inbox
start_by idle s =
    if is_alive s.thread
    then s
    else record s { stop_set = false; accepting_commands = true; owner = opened }
start_by owner s = s

unfoldable pub start : Inbox → Inbox
start s = start_by s.owner s

-- `_thread = Thread(…)` and `_thread.start()`
abbrev pub begin_by : Owner → Inbox → Inbox
begin_by opened s = record s { thread = testing; owner = idle }
begin_by owner s = s

unfoldable pub begin : Inbox → Inbox
begin s = begin_by s.owner s

-- `stop` up to the release of the lock, or up to the join.
abbrev pub stop_by : Owner → Inbox → Inbox
stop_by idle s =
    if is_unstarted s.thread
    then record s { stop_set = true; accepting_commands = false; owner = clearing }
    else record s { stop_set = true }
stop_by owner s = s

unfoldable pub stop : Inbox → Inbox
stop s = stop_by s.owner s

-- `_drain_commands` of that `stop`: one read of the queue, or one command.
abbrev pub clear_by : Owner → List ℕ → Inbox → Inbox
clear_by clearing [] s = record s { owner = idle }
clear_by clearing (command ∷ rest) s = record s { queue = rest; owner = clearing_running command }
clear_by (clearing_running command) queue s = record s {
  owner = clearing;
  ran = s.ran ++ command ∷ [];
}
clear_by idle queue s = s
clear_by opened queue s = s

unfoldable pub clear_commands : Inbox → Inbox
clear_commands s = clear_by s.owner s.queue s

-- One piece of the driver's thread: a look at the stop, a read of the queue, a command, the rest of an
-- iteration, or the look under the lock, with which the thread ends.
abbrev pub turn : Thread → List ℕ → Inbox → Inbox
turn unstarted queue s = s
turn ended queue s = s
turn testing queue s = record s { thread = if s.stop_set then closing else draining }
turn draining [] s = record s { thread = working }
turn draining (command ∷ rest) s = record s { queue = rest; thread = running command }
turn (running command) queue s = record s { thread = draining; ran = s.ran ++ command ∷ [] }
turn working queue s = record s { thread = testing }
turn closing [] s = record s { thread = looking }
turn closing (command ∷ rest) s = record s { queue = rest; thread = closing_running command }
turn (closing_running command) queue s = record s { thread = closing; ran = s.ran ++ command ∷ [] }
turn looking [] s = record s { accepting_commands = false; thread = ended }
turn looking (command ∷ rest) s = record s { thread = closing }

unfoldable pub take_turn : Inbox → Inbox
take_turn s = turn s.thread s.queue s

-- An iteration that raises before it drains.
abbrev pub skip : Thread → Inbox → Inbox
skip testing s = if s.stop_set then s else record s { thread = working }
skip thread s = s

unfoldable pub skip_drain : Inbox → Inbox
skip_drain s = skip s.thread s
