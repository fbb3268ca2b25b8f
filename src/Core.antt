-- ===== src/Core.antt =====
-- The contracts that the packages share: packages/core/src/index.ts.
pub mod Json
pub mod Types
pub mod Cap
mod Tests
