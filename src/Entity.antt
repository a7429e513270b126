-- ===== src/Entity.antt =====
-- lib/realtime-entity/src: the messages between client and server.
pub mod Payload
pub mod Collab
pub mod Client
pub mod Server
pub mod Convert
pub mod Order
pub mod Realtime
