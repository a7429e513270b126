-- ===== src/RtServer.antt =====
-- lib/realtime/src/server: the realtime server, which keeps the connections of the clients and a group
-- of subscribers for each document that is edited.
pub mod Group
pub mod State
pub mod Commands
pub mod Handlers
pub mod Invariant
pub mod Presence
pub mod Subscribing
pub mod Channel
