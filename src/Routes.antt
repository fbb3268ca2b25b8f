-- ===== src/Routes.antt =====
-- The POST routes: packages/server/src/routes.ts.
pub mod Body
pub mod Types
pub mod Respond
pub mod Reading
pub mod Closing
pub mod Answered
pub mod Strangers
mod Tests
