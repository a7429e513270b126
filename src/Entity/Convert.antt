-- ===== src/Entity/Convert.antt =====
-- lib/realtime-entity/src/collab_msg.rs: the conversions between the kinds of messages.
use flow_cloud.Base.{◌≡◌, refl, Bool, true, false, some, Result, ok, err, arith, ◌||◌, ◌&&◌}
use flow_cloud.Entity.Payload.{CollabApi}
use flow_cloud.Entity.Collab
use flow_cloud.Entity.Collab.{CollabMessage}
use flow_cloud.Entity.Client
use flow_cloud.Entity.Client.{ClientCollabMessage}
use flow_cloud.Entity.Server
use flow_cloud.Entity.Server.{ServerCollabMessage}

-- The text of an `anyhow` error is not modelled.
pub data ConvertError : Type 0 where
  cannot_convert invalid_type : ConvertError

abbrev pub converts : {A : Type 0} → Result A ConvertError → Bool
converts (ok a) = true
converts (err e) = false

module _ {c : CollabApi} where
  -- impl TryFrom<CollabMessage> for ClientCollabMessage
  unfoldable pub to_client : CollabMessage c → Result (ClientCollabMessage c) ConvertError
  to_client (CollabMessage.client_init_sync msg) = ok (ClientCollabMessage.client_init_sync msg)
  to_client (CollabMessage.client_update_sync msg) = ok (ClientCollabMessage.client_update_sync msg)
  to_client (CollabMessage.server_init_sync msg) = ok (ClientCollabMessage.server_init_sync msg)
  to_client _ = err cannot_convert

  -- impl From<ClientCollabMessage> for CollabMessage
  unfoldable pub from_client : ClientCollabMessage c → CollabMessage c
  from_client (ClientCollabMessage.client_init_sync msg) = CollabMessage.client_init_sync msg
  from_client (ClientCollabMessage.client_update_sync msg) = CollabMessage.client_update_sync msg
  from_client (ClientCollabMessage.server_init_sync msg) = CollabMessage.server_init_sync msg
  from_client (ClientCollabMessage.client_awareness_sync msg) = CollabMessage.client_update_sync msg

  -- impl TryFrom<CollabMessage> for ServerCollabMessage
  unfoldable pub to_server : CollabMessage c → Result (ServerCollabMessage c) ConvertError
  to_server (CollabMessage.client_ack msg) = ok (ServerCollabMessage.client_ack msg)
  to_server (CollabMessage.server_init_sync msg) = ok (ServerCollabMessage.server_init_sync msg)
  to_server (CollabMessage.awareness_sync msg) = ok (ServerCollabMessage.awareness_sync msg)
  to_server (CollabMessage.server_broadcast msg) = ok (ServerCollabMessage.server_broadcast msg)
  to_server _ = err invalid_type

  -- An awareness message of a client as the update message of the same contents.
  abbrev pub awareness_as_update : ClientCollabMessage c → ClientCollabMessage c
  awareness_as_update (ClientCollabMessage.client_awareness_sync msg) =
      ClientCollabMessage.client_update_sync msg
  awareness_as_update m = m

  -- A client message that is turned into a `CollabMessage` and back is itself, but for an awareness
  -- message, which comes back as an update message of the same contents.
  pub to_client-from_client :
      (m : ClientCollabMessage c) → to_client (from_client m) ≡ ok (awareness_as_update m)
  unfolding to_client from_client
  to_client-from_client (ClientCollabMessage.client_init_sync msg) = refl
  to_client-from_client (ClientCollabMessage.client_update_sync msg) = refl
  to_client-from_client (ClientCollabMessage.server_init_sync msg) = refl
  to_client-from_client (ClientCollabMessage.client_awareness_sync msg) = refl

  -- A message that converts to a client message keeps its id, object, origin and payload.
  pub to_client-keeps :
      (m : CollabMessage c) (u : ClientCollabMessage c)
      → to_client m ≡ ok u
      → (Collab.msg_id m ≡ some (Client.msg_id u))
        × (Collab.object_id m ≡ Client.object_id u)
        × (Collab.origin m ≡ Client.origin u)
        × (Collab.payload m ≡ Client.payload u)
  unfolding to_client Collab.msg_id Collab.object_id Collab.origin Collab.payload Client.msg_id
      Client.object_id Client.origin Client.payload
  to_client-keeps (CollabMessage.client_init_sync msg) u h = ground arith
  to_client-keeps m u h = ground arith

  -- A message that converts to a server message keeps its id, object, origin and payload.
  pub to_server-keeps :
      (m : CollabMessage c) (u : ServerCollabMessage c)
      → to_server m ≡ ok u
      → (Collab.msg_id m ≡ Server.msg_id u)
        × (Collab.object_id m ≡ Server.object_id u)
        × (Collab.origin m ≡ Server.origin u)
        × (Collab.payload m ≡ Server.payload u)
  unfolding to_server Collab.msg_id Collab.object_id Collab.origin Collab.payload Server.msg_id
      Server.object_id Server.origin Server.payload
  to_server-keeps (CollabMessage.client_init_sync msg) u h = ground arith
  to_server-keeps m u h = ground arith

  -- Every message converts to a client or to a server message, and to both exactly if it is the
  -- server's init message.
  pub converts_somewhere :
      (m : CollabMessage c)
      → ((converts (to_client m) || converts (to_server m)) ≡ true)
        × ((converts (to_client m) && converts (to_server m)) ≡ Collab.is_server_init_sync m)
  unfolding to_client to_server Collab.is_server_init_sync
  converts_somewhere (CollabMessage.client_init_sync msg) = (refl, refl)
  converts_somewhere (CollabMessage.client_update_sync msg) = (refl, refl)
  converts_somewhere (CollabMessage.client_ack msg) = (refl, refl)
  converts_somewhere (CollabMessage.server_init_sync msg) = (refl, refl)
  converts_somewhere (CollabMessage.awareness_sync msg) = (refl, refl)
  converts_somewhere (CollabMessage.server_broadcast msg) = (refl, refl)
