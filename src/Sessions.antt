-- ===== src/Sessions.antt =====
-- What outlives a session of a character.
pub mod Profiles
pub mod TimerPersistence
pub mod Quiet
pub mod Alone
pub mod Restored
pub mod Camp
pub mod RespawnRows
pub mod Respawns
pub mod Trying
pub mod Swap
pub mod Others
