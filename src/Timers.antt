-- ===== src/Timers.antt =====
-- core/timers.py
pub mod Rows
pub mod Service
pub mod Removals
pub mod Tick
pub mod Adds
pub mod Counters
pub mod Respell
pub mod Persistence
pub mod Restore
pub mod Display
