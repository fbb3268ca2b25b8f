-- ===== src/Signals.antt =====
-- Signals and presence: packages/server/src/signals.ts.
pub mod Types
pub mod Broadcast
pub mod Counts
pub mod Departures
pub mod Presence
pub mod Flush
pub mod Lines
pub mod Telling
mod Tests
