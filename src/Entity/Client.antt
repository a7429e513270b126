-- ===== src/Entity/Client.antt =====
-- lib/realtime-entity/src/collab_msg.rs: `ClientCollabMessage`, with its `CollabSinkMessage`.
use flow_cloud.Base.{
  ℕ, Bool, true, false, ◌&&◌, Option, some, Text, Result, ok, ◌>>=◌, length, ltb, if◌then◌else◌,
  ◌==◌, nat_eq, list_eq,
}
use flow_cloud.Base.Heap.{Ordering, less, equal, greater, reversed, nat_cmp}
use flow_cloud.Protocol.Codec.{Bytes, Codec}
use flow_cloud.Entity.Payload.{CollabApi, MsgId, InitSync, UpdateSync, ServerInit, merge_payload}

pub data ClientCollabMessage (c : CollabApi) : Type 0 where
  client_init_sync : InitSync c → ClientCollabMessage c
  client_update_sync : UpdateSync c → ClientCollabMessage c
  server_init_sync : ServerInit c → ClientCollabMessage c
  client_awareness_sync : UpdateSync c → ClientCollabMessage c

module _ {c : CollabApi} where
  unfoldable pub payload : ClientCollabMessage c → Bytes
  payload (client_init_sync message) = message.payload
  payload (client_update_sync message) = message.payload
  payload (server_init_sync message) = message.payload
  payload (client_awareness_sync message) = message.payload

  -- Also `payload_size`.
  unfoldable pub size : ClientCollabMessage c → ℕ
  size (client_init_sync message) = length message.payload
  size (client_update_sync message) = length message.payload
  size (server_init_sync message) = length message.payload
  size (client_awareness_sync message) = length message.payload

  unfoldable pub object_id : ClientCollabMessage c → Text
  object_id (client_init_sync message) = message.object_id
  object_id (client_update_sync message) = message.object_id
  object_id (server_init_sync message) = message.object_id
  object_id (client_awareness_sync message) = message.object_id

  unfoldable pub origin : ClientCollabMessage c → c.Origin
  origin (client_init_sync message) = message.origin
  origin (client_update_sync message) = message.origin
  origin (server_init_sync message) = message.origin
  origin (client_awareness_sync message) = message.origin

  unfoldable pub device_id : ClientCollabMessage c → Option Text
  unfolding origin
  device_id message = c.client_device_id (origin message)

  unfoldable pub msg_id : ClientCollabMessage c → MsgId
  msg_id (client_init_sync message) = message.msg_id
  msg_id (client_update_sync message) = message.msg_id
  msg_id (server_init_sync message) = message.msg_id
  msg_id (client_awareness_sync message) = message.msg_id

  -- Also `is_client_init_sync`.
  unfoldable pub is_init_sync : ClientCollabMessage c → Bool
  is_init_sync (client_init_sync message) = true
  is_init_sync _ = false

  unfoldable pub is_server_init_sync : ClientCollabMessage c → Bool
  is_server_init_sync (server_init_sync message) = true
  is_server_init_sync _ = false

  -- Also `mergeable`.
  unfoldable pub is_update_sync : ClientCollabMessage c → Bool
  is_update_sync (client_update_sync message) = true
  is_update_sync _ = false

  unfoldable pub set_msg_id : ClientCollabMessage c → MsgId → ClientCollabMessage c
  set_msg_id (client_init_sync message) id = client_init_sync (record message { msg_id = id })
  set_msg_id (client_update_sync message) id = client_update_sync (record message { msg_id = id })
  set_msg_id (server_init_sync message) id = server_init_sync (record message { msg_id = id })
  set_msg_id (client_awareness_sync message) id =
      client_awareness_sync (record message { msg_id = id })

  unfoldable pub get_msg_id : ClientCollabMessage c → Option MsgId
  unfolding msg_id
  get_msg_id message = some (msg_id message)

  -- `PartialEq`: by id, object and origin, whatever the kind and the payload.
  unfoldable pub eq : ClientCollabMessage c → ClientCollabMessage c → Bool
  unfolding msg_id origin object_id
  eq a b =
      msg_id a == msg_id b && (object_id a == object_id b && c.origin_eq.beq (origin a) (origin b))

  -- `Ord`: client init first, then server init, then by falling id. A later clause is read only
  -- where no clause above it fits.
  unfoldable pub cmp : ClientCollabMessage c → ClientCollabMessage c → Ordering
  unfolding msg_id
  cmp (client_init_sync a) (client_init_sync b) = equal
  cmp (client_init_sync a) _ = greater
  cmp _ (client_init_sync b) = less
  cmp (server_init_sync a) (server_init_sync b) = equal
  cmp (server_init_sync a) _ = greater
  cmp _ (server_init_sync b) = less
  cmp a b = reversed (nat_cmp (msg_id a) (msg_id b))

module _ (y : Codec) {c : CollabApi} where
  unfoldable pub merge :
      ClientCollabMessage c
      → ClientCollabMessage c
      → ℕ
      → Result (ClientCollabMessage c × Bool) y.MergeError
  merge (client_update_sync message) (client_update_sync other) max =
      if ltb max (length message.payload)
      then ok (client_update_sync message, false)
      else (do (merged, done) ← merge_payload y message other; ok (client_update_sync merged, done))
  merge self other max = ok (self, false)
