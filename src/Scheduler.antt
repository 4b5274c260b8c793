-- ===== src/Scheduler.antt =====
-- The task scheduler (src/thumbelina/scheduler).
pub mod Models
pub mod Cron
pub mod Store
pub mod Codec
pub mod State
pub mod Crud
pub mod Fire
pub mod Recover
pub mod Heartbeat
pub mod Synced
pub mod Keyed
pub mod Restart
pub mod Remaining
pub mod Hydrated
pub mod Writes
pub mod RoundWrites
pub mod PassWrites
pub mod Steps
pub mod Skipped
pub mod Slots
pub mod Paused
pub mod Verdicts
pub mod Recovered
pub mod RecoveredLoop
mod Examples
