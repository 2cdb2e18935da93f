-- ===== src/Kills.antt =====
-- Respawn timers from the confirmations of a kill (core/handlers/spawn_timer.py, core/zones.py).
pub mod Zones
pub mod Correlation
pub mod SpawnTimers
pub mod Names
pub mod OneEach
pub mod Bursts
pub mod Guesses
