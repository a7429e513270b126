-- ===== src/Entity/Server.antt =====
-- lib/realtime-entity/src/collab_msg.rs: `ServerCollabMessage`.
use flow_cloud.Base.{ℕ, Option, none, some, Text, length}
use flow_cloud.Protocol.Codec.{Bytes}
use flow_cloud.Entity.Payload.{
  CollabApi, MsgId, CollabAck, ServerInit, AwarenessSync, BroadcastSync,
}

pub data ServerCollabMessage (c : CollabApi) : Type 0 where
  client_ack : CollabAck c → ServerCollabMessage c
  server_init_sync : ServerInit c → ServerCollabMessage c
  awareness_sync : AwarenessSync c → ServerCollabMessage c
  server_broadcast : BroadcastSync c → ServerCollabMessage c

module _ {c : CollabApi} where
  unfoldable pub object_id : ServerCollabMessage c → Text
  object_id (client_ack value) = value.object_id
  object_id (server_init_sync value) = value.object_id
  object_id (awareness_sync value) = value.object_id
  object_id (server_broadcast value) = value.object_id

  unfoldable pub msg_id : ServerCollabMessage c → Option MsgId
  msg_id (client_ack value) = some value.source.msg_id
  msg_id (server_init_sync value) = some value.msg_id
  msg_id (awareness_sync value) = none
  msg_id (server_broadcast value) = none

  unfoldable pub payload : ServerCollabMessage c → Bytes
  payload (client_ack value) = value.payload
  payload (server_init_sync value) = value.payload
  payload (awareness_sync value) = value.payload
  payload (server_broadcast value) = value.payload

  unfoldable pub size : ServerCollabMessage c → ℕ
  size (client_ack msg) = length msg.payload
  size (server_init_sync msg) = length msg.payload
  size (awareness_sync msg) = length msg.payload
  size (server_broadcast msg) = length msg.payload

  unfoldable pub origin : ServerCollabMessage c → c.Origin
  origin (client_ack value) = value.origin
  origin (server_init_sync value) = value.origin
  origin (awareness_sync value) = value.origin
  origin (server_broadcast value) = value.origin
