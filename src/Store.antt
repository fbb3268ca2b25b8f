-- ===== src/Store.antt =====
-- The in-memory store: packages/server/src/store.ts. Its operations are in `Memory`; the others
-- prove what a store promises.
pub mod Storable
pub mod Copy
pub mod Memory
pub mod Trace
pub mod Writes
pub mod Fencing
pub mod Exclusion
pub mod Notices
pub mod Payloads
mod Tests
