-- ===== src/Runtime.antt =====
-- The agent loop: packages/server/src/runtime.ts.
pub mod Types
pub mod Actions
pub mod Handles
pub mod Windows
pub mod Freshness
pub mod Notices
pub mod Tools
pub mod Invoke
pub mod Loop
pub mod Start
pub mod Click
pub mod Wake
pub mod Update
pub mod Queue
pub mod Queued
pub mod Promised
pub mod Waking
pub mod Notify
pub mod Notified
pub mod Keeps
pub mod Frame
pub mod Settled
pub mod History
pub mod Batches
pub mod Complete
pub mod Unread
pub mod Undo
pub mod Beginnings
pub mod Until
pub mod Woken
pub mod Limits
pub mod Revisions
pub mod Announced
pub mod Updates
pub mod Waits
pub mod Requests
pub mod Starts
pub mod Messages
pub mod Openings
pub mod Fixtures
mod Tests
mod UpdateTests
mod QueueTests
mod NotifyTests
