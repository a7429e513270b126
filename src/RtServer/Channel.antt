-- ===== src/RtServer/Channel.antt =====
-- lib/realtime/src/server/rt_server.rs, `CollabClientStream::client_channel`: the two tasks between a
-- client's connection and the group of a document, which ask the access control about each message.
pub mod Permitted
use flow_cloud.Base.{
  Bool, true, false, not, ◌&&◌, ◌||◌, List, [], ◌∷◌, ◌++◌, Text, Result, ok, err, list_eq, nat_eq,
  if◌then◌else◌, ◌==◌,
}
use flow_cloud.Entity.Payload.{CollabApi}
use flow_cloud.Entity.Client
use flow_cloud.Entity.Client.{ClientCollabMessage}
use flow_cloud.Entity.Collab.{CollabMessage}
use flow_cloud.Entity.Realtime.{RealtimeMessage, MessageByObjectId, try_into_message_by_object_id}
use flow_cloud.RtServer.Group.{is_empty}

-- What the access control answers about the user and the document while a message is handled, and
-- whether the group still reads the channel.
pub record Answers (E : Type 0) : Type 0 where
  pub can_write_collab : Result Bool E
  pub can_read_collab : Result Bool E
  pub is_open : Bool

-- What the receiver of a broadcast channel yields.
pub data Received (c : CollabApi) : Type 0 where
  message : RealtimeMessage c → Received c
  lagged : Received c

module _ {E : Type 0} where
  unfoldable pub unwrap_or_false : Result Bool E → Bool
  unwrap_or_false (ok b) = b
  unwrap_or_false (err e) = false

  -- The task that sends the changes of the document to the client, if the client may read it.
  unfoldable pub send_changes :
      {c : CollabApi} → List (CollabMessage c × Answers E) → List (CollabMessage c)
  unfolding unwrap_or_false
  send_changes [] = []
  send_changes ((msg, a) ∷ more) =
      let rest = send_changes more in if unwrap_or_false a.can_read_collab then msg ∷ rest else rest

module _ {c : CollabApi} where
  -- The valid messages and the invalid ones, in their order.
  unfoldable pub split_messages :
      Bool
      → Bool
      → List (ClientCollabMessage c)
      → List (ClientCollabMessage c) × List (ClientCollabMessage c)
  split_messages can_write can_read [] = ([], [])
  split_messages can_write can_read (msg ∷ msgs) =
      let (valid, invalid) = split_messages can_write can_read msgs in
      if Client.is_init_sync msg && can_read
      then (msg ∷ valid, invalid)
      else if can_write
      then (msg ∷ valid, invalid)
      else (valid, msg ∷ invalid)

  module _ {E : Type 0} where
    unfoldable pub access_control :
        Answers E
        → List (ClientCollabMessage c)
        → List (ClientCollabMessage c) × List (ClientCollabMessage c)
    unfolding unwrap_or_false
    access_control a =
        split_messages (unwrap_or_false a.can_write_collab) (unwrap_or_false a.can_read_collab)

    -- The messages of one realtime message that go on to the group. A send that fails ends the loop.
    unfoldable pub forward_entries : Text → Answers E → MessageByObjectId c → MessageByObjectId c
    forward_entries object_id a [] = []
    forward_entries object_id a ((msg_oid, msgs) ∷ m) =
        let rest = forward_entries object_id a m in
        let valid = (access_control a msgs).0 in
        if not (object_id == msg_oid)
        then rest
        else if is_empty valid
        then rest
        else if a.is_open
        then (msg_oid, valid) ∷ rest
        else []

    unfoldable pub receive : Text → Answers E → RealtimeMessage c → MessageByObjectId c
    receive object_id a msg = elim (try_into_message_by_object_id msg) [
      | ok m ↦ forward_entries object_id a m
      | err e ↦ []
    ]

    -- The task that hands the client's messages on. It ends when it has lagged behind.
    unfoldable pub receive_messages : Text → List (Received c × Answers E) → MessageByObjectId c
    receive_messages object_id [] = []
    receive_messages object_id ((message msg, a) ∷ more) =
        receive object_id a msg ++ receive_messages object_id more
    receive_messages object_id ((lagged, a) ∷ more) = []
