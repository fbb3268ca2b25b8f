-- ===== src/Mcp.antt =====
-- Credentials for MCP servers: packages/mcp/src.
pub mod Credentials
pub mod Trace
pub mod Registers
pub mod Flows
pub mod Leases
pub mod Text
pub mod Sizes
mod Tests
