-- ===== src/Mcp.antt =====
-- The MCP gateway: src/mcp, by its files.
pub mod Types
pub mod Client
pub mod Registry
pub mod Metrics
pub mod Policies
pub mod Arbitration
pub mod Gateway
pub mod Streaming
mod Verdicts
mod Selection
mod Ownership
mod Denial
mod Retries
mod Calls
mod Tests
