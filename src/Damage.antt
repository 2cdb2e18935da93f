-- ===== src/Damage.antt =====
-- The damage meter (core/dps.py).
pub mod Entity
pub mod Windows
pub mod Sweeps
pub mod Floats
pub mod Fight
pub mod Tracker
pub mod Operations
pub mod Rows
pub mod Carried
pub mod Measured
pub mod Labels
pub mod Runs
pub mod Kept
pub mod Invariant
pub mod Numbers
pub mod Conservation
pub mod Readings
pub mod Session
