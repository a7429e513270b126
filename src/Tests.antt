-- ===== src/Tests.antt =====
-- Runs of the theorems at concrete inputs, and the concrete crates that they use.
pub mod Data
pub mod Sink
pub mod Middleware
pub mod Persistence
pub mod Protocol
pub mod Entity
pub mod Access
pub mod Snowflake
pub mod WsQueue
pub mod Server
pub mod Stream
pub mod SyncControl
pub mod Snapshot
pub mod RtServer
pub mod Storage
