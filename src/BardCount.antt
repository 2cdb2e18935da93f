-- ===== src/BardCount.antt =====
-- The tallies of a bard's songs (core/handlers/bard_count.py).
pub mod Lines
pub mod Names
pub mod Sessions
pub mod Handlers
pub mod Attaching
pub mod Conservation
