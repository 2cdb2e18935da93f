-- ===== src/Tests.antt =====
-- The theorems at concrete inputs, and runs of the code.
mod Data
mod Timers
mod Removals
mod Restore
mod Display
mod DeathLoop
mod Sessions
mod Logs
mod CompleteHeals
mod Stamps
mod Spells
mod Damage
mod Driver
mod Pipeline
mod Kills
mod BardCount
