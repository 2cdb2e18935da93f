-- ===== src/Lib.antt =====
-- Verification of the core of nParse+ (src/nparseplus): the log reader, the timers of the spell
-- window, what of them outlives a session, the alarm for death loops, the chains of heals, and the
-- damage meter, with the pipeline and the driver that feed them.
--
-- The program tails the log file of a game client. core/logfile.py gives complete lines, parsers make
-- events of them on a bus, and handlers turn the events into operations on services. The service
-- with the most state is `TimersService` (core/timers.py): it owns the rows of the spell window,
-- which the window groups and shows, a clock ticks, and `TimerPersistenceHandler`
-- (core/handlers/timer_persistence.py) saves to the profile of the active character and brings back.
--
-- Files and code; the paths are below src/nparseplus
--   Text          Python strings as code points: casefold, lower, equality, order, isspace, and
--                 (Decimal) the digits of a number.
--   Spells        `Spell` and its classes (core/spells/models.py, core/enums.py); Spells.Book is
--                 `SpellBook.spell_by_name` (core/spells/spells_us.py); Spells.Durations is
--                 core/spells/durations.py, with its theorem in Levels.
--   Timers        core/timers.py. Rows: the row classes and their validators. Service: the state
--                 `Timers` (the `_rows` of the service, and the calls of its observers as a list of
--                 notices), adding and correcting rows. Tick: `tick`. Removals: what removes rows or
--                 puts them back. Persistence and Restore: the `export_…` and `restore_…` methods.
--                 Display: `group_rows_for_display`. The modules below each hold its theorems, as do
--                 Adds, Counters and Respell for Service.
--   DeathLoop     `DeathLoopService` (core/death_loop.py) and `DeathLoopHandler`
--                 (core/handlers/death_loop.py); `handle` is the handler's four `_on_…` methods.
--   Sessions      Profiles: `find_player` and `get_player` (config/settings.py). TimerPersistence:
--                 the handler, one function per `_on_…` method, over the state `Session`. Camp, Swap
--                 and Others hold its theorems; the other modules are the lemmas for them.
--   Logs          Bytes: the operations of Python's `bytes`. Tail and Attach: `LogTail` and the names
--                 of log files (core/logfile.py). Polls, Lines and Attached hold their theorems.
--                 Stamps and LineInfo: the time stamps and the lines of core/lineinfo.py, read with
--                 Integers, which is Python's `int`; StampTrip and LineTrip are their round trips.
--   Driver        Inbox: the command inbox of `LogDriver` (core/driver.py), each function one
--                 uninterrupted piece of a thread. Steps: all interleavings of these pieces, with
--                 Turns and Soundness about them. Drains: the end of the driver's thread. Ticks: the supervised ticks and their budget, with
--                 Watches and Budget about them.
--   Pipeline      Chain: `LogPipeline` (core/pipeline.py). Bus: `EventBus` (core/bus.py). Parsers and
--                 handlers are parameters, the world that they act on is any type. Dispatch holds the
--                 theorems of the bus.
--   CompleteHeals `should_warn_of_chain` and `CHChainService` (core/ch_chain.py). Histories and Turns
--                 hold its theorems.
--   Damage        core/dps.py. Entity: `FightEntity`, one attacker's hits with the windows over them.
--                 Fight: `Fight`. Tracker and Operations: `PlayerDamage` and `FightTracker`. Rows: the
--                 snapshot and the text of a parse. Runs: sequences of calls of a tracker. Floats:
--                 the quotients that Python rounds to 53 bits. Numbers, Conservation, Readings and
--                 Session hold its theorems; Windows, Sweeps and Carried are about the best window,
--                 Measured, Labels, Kept and Invariant about what the operations keep.
--   Kills         core/handlers/spawn_timer.py and core/zones.py. Correlation: which lines of the log
--                 make a kill. SpawnTimers: the rows that a death adds. Zones: the queries of the zone
--                 database. Bursts, Guesses, Names and OneEach hold its theorems.
--   BardCount     core/handlers/bard_count.py. Lines: the patterns of the lines that count, written out,
--                 and the normal form of a name. Sessions and Handlers: `BardCountHandler`. Names,
--                 Attaching and Conservation hold its theorems.
--   Tests         runs of the code at concrete inputs, and the theorems applied there.
--
-- How state and values are modelled
--   A method is a function from the state before to the state after with what it returns. Where
--   Python raises, the result is `none`, or a Boolean beside the state that was reached.
--   A time is a whole number of microseconds since an origin, as `datetime` counts, and a duration a
--   whole number of microseconds. Durations are floats in the program; those that occur are whole
--   seconds or milliseconds, which floats of that size hold exactly.
--   Python finds a row by `==` in `list.remove` and `list.index` and by identity in `reinstate` and
--   in the raid mode of the display: a row has an identity, `row_id`, that `==` does not read. An
--   operation that makes row objects is given the first of the new identities.
--   The log of the game is ASCII or Latin-1, and casefold and isspace are written out for the code
--   points below 256.
--   Each recursion is structural, on a list or a number, but three, which take fuel: the scaling of a
--   float runs at most as often as the exponents of `float` reach, the digits of a number are at most
--   as many as its units, and the loop that joins spaces runs at most as often as the text is long. The
--   scan for a free name counts up to 999, as the program does.
--
-- What is not modelled: threads other than at the driver's inbox (the services run on the driver's
-- thread, and an operation here is one uninterrupted call), the decoding of bytes, the files of the spell book and of the zones, the expressions by which
-- the parsers turn lines into events, and the windows, the network and the plugins. The callbacks of the timers other
-- than `_on_timers_changed` are notices only.
mod Prelude
pub mod Text
pub mod Spells
pub mod Timers
pub mod DeathLoop
pub mod Sessions
pub mod Logs
pub mod CompleteHeals
pub mod Damage
pub mod Kills
pub mod BardCount
pub mod Driver
pub mod Pipeline
mod Tests
