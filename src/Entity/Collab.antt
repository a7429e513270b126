-- ===== src/Entity/Collab.antt =====
-- lib/realtime-entity/src/collab_msg.rs: `CollabMessage`, with its `CollabSinkMessage`.
use flow_cloud.Base.{
  ℕ, Bool, true, false, ◌&&◌, Option, none, some, Text, Result, ok, ◌>>=◌, length, ltb,
  if◌then◌else◌, ◌==◌, nat_eq, list_eq, option_eq,
}
use flow_cloud.Base.Int.{ℤ}
use flow_cloud.Base.Heap.{Ordering, less, equal, greater, reversed, option_cmp}
use flow_cloud.Protocol.Codec.{Bytes, Codec}
use flow_cloud.Entity.Payload.{
  CollabApi, MsgId, InitSync, UpdateSync, CollabAck, ServerInit, AwarenessSync, BroadcastSync,
  merge_payload,
}

pub data CollabMessage (c : CollabApi) : Type 0 where
  client_init_sync : InitSync c → CollabMessage c
  client_update_sync : UpdateSync c → CollabMessage c
  client_ack : CollabAck c → CollabMessage c
  server_init_sync : ServerInit c → CollabMessage c
  awareness_sync : AwarenessSync c → CollabMessage c
  server_broadcast : BroadcastSync c → CollabMessage c

module _ {c : CollabApi} where
  unfoldable pub msg_id : CollabMessage c → Option MsgId
  msg_id (client_init_sync value) = some value.msg_id
  msg_id (client_update_sync value) = some value.msg_id
  msg_id (client_ack value) = some value.source.msg_id
  msg_id (server_init_sync value) = some value.msg_id
  msg_id (server_broadcast value) = none
  msg_id (awareness_sync value) = none

  -- `payload` is some payload for each of the kinds.
  unfoldable pub payload : CollabMessage c → Bytes
  payload (client_init_sync value) = value.payload
  payload (client_update_sync value) = value.payload
  payload (client_ack value) = value.payload
  payload (server_init_sync value) = value.payload
  payload (server_broadcast value) = value.payload
  payload (awareness_sync value) = value.payload

  unfoldable pub len : CollabMessage c → ℕ
  unfolding payload
  len msg = length (payload msg)

  unfoldable pub is_empty : CollabMessage c → Bool
  unfolding len
  is_empty msg = len msg == 0

  unfoldable pub origin : CollabMessage c → c.Origin
  origin (client_init_sync value) = value.origin
  origin (client_update_sync value) = value.origin
  origin (client_ack value) = value.origin
  origin (server_init_sync value) = value.origin
  origin (server_broadcast value) = value.origin
  origin (awareness_sync value) = value.origin

  unfoldable pub uid : CollabMessage c → Option ℤ
  unfolding origin
  uid msg = c.client_user_id (origin msg)

  unfoldable pub object_id : CollabMessage c → Text
  object_id (client_init_sync value) = value.object_id
  object_id (client_update_sync value) = value.object_id
  object_id (client_ack value) = value.object_id
  object_id (server_init_sync value) = value.object_id
  object_id (server_broadcast value) = value.object_id
  object_id (awareness_sync value) = value.object_id

  unfoldable pub device_id : CollabMessage c → Option Text
  unfolding origin
  device_id msg = c.client_device_id (origin msg)

  unfoldable pub is_client_init_sync : CollabMessage c → Bool
  is_client_init_sync (client_init_sync value) = true
  is_client_init_sync _ = false

  unfoldable pub is_server_init_sync : CollabMessage c → Bool
  is_server_init_sync (server_init_sync value) = true
  is_server_init_sync _ = false

  -- Also `mergeable`.
  unfoldable pub is_update_sync : CollabMessage c → Bool
  is_update_sync (client_update_sync value) = true
  is_update_sync _ = false

  unfoldable pub set_msg_id : CollabMessage c → MsgId → CollabMessage c
  set_msg_id (client_init_sync value) id = client_init_sync (record value { msg_id = id })
  set_msg_id (client_update_sync value) id = client_update_sync (record value { msg_id = id })
  set_msg_id (client_ack value) id =
      client_ack (record value { source = record (value.source) { msg_id = id } })
  set_msg_id (server_init_sync value) id = server_init_sync (record value { msg_id = id })
  set_msg_id (server_broadcast value) id = server_broadcast value
  set_msg_id (awareness_sync value) id = awareness_sync value

  -- `PartialEq`: by id, origin and object, whatever the kind and the payload.
  unfoldable pub eq : CollabMessage c → CollabMessage c → Bool
  unfolding msg_id origin object_id
  eq a b =
      msg_id a == msg_id b && (c.origin_eq.beq (origin a) (origin b) && object_id a == object_id b)

  -- `Ord`: client init first, then server init, then by falling id. A later clause is read only
  -- where no clause above it fits.
  unfoldable pub cmp : CollabMessage c → CollabMessage c → Ordering
  unfolding msg_id
  cmp (client_init_sync a) (client_init_sync b) = equal
  cmp (client_init_sync a) _ = greater
  cmp _ (client_init_sync b) = less
  cmp (server_init_sync a) (server_init_sync b) = equal
  cmp (server_init_sync a) _ = greater
  cmp _ (server_init_sync b) = less
  cmp a b = reversed (option_cmp (msg_id a) (msg_id b))

module _ (y : Codec) {c : CollabApi} where
  unfoldable pub merge :
      CollabMessage c → CollabMessage c → ℕ → Result (CollabMessage c × Bool) y.MergeError
  merge (client_update_sync value) (client_update_sync other) max =
      if ltb max (length value.payload)
      then ok (client_update_sync value, false)
      else (do (merged, done) ← merge_payload y value other; ok (client_update_sync merged, done))
  merge self other max = ok (self, false)
