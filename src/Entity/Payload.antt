-- ===== src/Entity/Payload.antt =====
-- lib/realtime-entity/src/collab_msg.rs: the contents of the messages.
use flow_cloud.Base.{ℕ, Bool, true, false, Option, none, some, [], Text, Result, ok, err, Eq, codes}
use flow_cloud.Base.Int.{ℤ}
use flow_cloud.Protocol.Codec.{Bytes, Codec}
use flow_cloud.Protocol.Message.{Message, sync, update, encode, next}

-- What the messages take from the crate collab.
pub record CollabApi : Type 1 where
  pub Origin : Type 0
  pub origin_eq : Eq Origin
  pub server : Origin
  pub client_user_id : Origin → Option ℤ
  -- the device of `CollabOrigin::Client`
  pub client_device_id : Origin → Option Text
  pub CollabType : Type 0

abbrev pub MsgId : Type 0
MsgId = ℕ

pub record AwarenessSync (c : CollabApi) : Type 0 where
  pub object_id : Text
  pub payload : Bytes
  pub origin : c.Origin

pub record InitSync (c : CollabApi) : Type 0 where
  pub origin : c.Origin
  pub object_id : Text
  pub collab_type : c.CollabType
  pub workspace_id : Text
  pub msg_id : MsgId
  pub payload : Bytes

pub record ServerInit (c : CollabApi) : Type 0 where
  pub origin : c.Origin
  pub object_id : Text
  pub msg_id : MsgId
  pub payload : Bytes

pub record UpdateSync (c : CollabApi) : Type 0 where
  pub origin : c.Origin
  pub object_id : Text
  pub msg_id : MsgId
  pub payload : Bytes

pub data AckCode : Type 0 where
  success cannot_apply_update retry internal : AckCode

pub record AckSource : Type 0 where
  pub verbose : Text
  pub msg_id : MsgId

pub record CollabAck (c : CollabApi) : Type 0 where
  pub origin : c.Origin
  pub object_id : Text
  pub source : AckSource
  pub payload : Bytes
  pub code : AckCode

pub record BroadcastSync (c : CollabApi) : Type 0 where
  pub origin : c.Origin
  pub object_id : Text
  pub payload : Bytes
  pub seq_num : ℕ

module _ (c : CollabApi) where
  unfoldable pub awareness_sync_new : Text → Bytes → AwarenessSync c
  awareness_sync_new object_id payload = record {
    object_id = object_id;
    payload = payload;
    origin = c.server;
  }

  unfoldable pub collab_ack_new : c.Origin → Text → MsgId → CollabAck c
  collab_ack_new origin object_id msg_id = record {
    origin = origin;
    object_id = object_id;
    source = record { verbose = codes ""; msg_id = msg_id };
    payload = [];
    code = success;
  }

  unfoldable pub with_payload : CollabAck c → Bytes → CollabAck c
  with_payload ack payload = record ack { payload = payload }

  unfoldable pub with_code : CollabAck c → AckCode → CollabAck c
  with_code ack code = record ack { code = code }

  unfoldable pub broadcast_sync_new : c.Origin → Text → Bytes → ℕ → BroadcastSync c
  broadcast_sync_new origin object_id payload seq_num = record {
    origin = origin;
    object_id = object_id;
    payload = payload;
    seq_num = seq_num;
  }

-- The bytes of an update message, and nothing for other messages.
abbrev pub update_bytes : {y : Codec} → Option (Message y) → Option Bytes
update_bytes (some (sync (update u))) = some u
update_bytes _ = none

module _ (y : Codec) {c : CollabApi} where
  -- The first message of the payload, if it can be read.
  unfoldable pub as_update : UpdateSync c → Option (Message y)
  as_update u = elim (next y u.payload) [
    | none ↦ none
    | some (ok (msg, rest)) ↦ some msg
    | some (err e) ↦ none
  ]

  merge_bytes :
      UpdateSync c → Option Bytes → Option Bytes → Result (UpdateSync c × Bool) y.MergeError
  merge_bytes u (some left) (some right) = elim (y.merge_updates_v1 left right) [
    | ok merged ↦ ok (record u { payload = encode y (sync (update merged)) }, true)
    | err e ↦ err e
  ]
  merge_bytes u _ _ = ok (u, false)

  -- `self` afterwards, and whether it was merged; an error leaves `self` as it was.
  unfoldable pub merge_payload :
      UpdateSync c → UpdateSync c → Result (UpdateSync c × Bool) y.MergeError
  unfolding merge_bytes
  merge_payload u other =
      merge_bytes u (update_bytes (as_update u)) (update_bytes (as_update other))
