-- ===== src/Protocol.antt =====
-- lib/realtime-protocol/src: the messages of the sync protocol, their encoding and their handlers.
pub mod Codec
pub mod Message
pub mod RoundTrip
pub mod Replica
pub mod Handlers
