-- ===== src/Logs.antt =====
-- From the bytes of a log file to its lines.
pub mod Bytes
pub mod Split
pub mod Integers
pub mod Stamps
pub mod StampTrip
pub mod Tail
pub mod Polls
pub mod Lines
pub mod LineInfo
pub mod Brackets
pub mod LineTrip
pub mod Attach
pub mod Attached
