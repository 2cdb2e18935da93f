-- ===== src/Driver.antt =====
-- The log driver (core/driver.py).
pub mod Inbox
pub mod Steps
pub mod Turns
pub mod Soundness
pub mod Drains
pub mod Ticks
pub mod Watches
pub mod Budget
