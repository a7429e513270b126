-- ===== src/Broadcast.antt =====
-- lib/realtime/src/server/collaborate/group_broadcast.rs: how the server handles a client's message and
-- acknowledges it, and what it forwards to the other subscribers of a document.
pub mod Acks
use flow_cloud.Base.{
  ℕ, zero, suc, ◌+◌, Bool, true, false, Option, none, some, List, [], ◌∷◌, ◌++◌, Text, Result, ok,
  err, length, Eq, ◌==◌, if◌then◌else◌,
}
use flow_cloud.Protocol.Codec.{Bytes, Codec}
use flow_cloud.Protocol.Message.{Message, msg_sync, msg_sync_update, next}
use flow_cloud.Protocol.Replica.{Replica}
use flow_cloud.Protocol.Handlers.{
  Error, yrs_transaction, yrs_apply_update, server_sync_protocol, handle_collab_message,
}
use flow_cloud.Entity.Payload.{
  CollabApi, CollabAck, AckCode, retry, cannot_apply_update, internal, collab_ack_new, with_payload,
  with_code,
}
use flow_cloud.Entity.Client
use flow_cloud.Entity.Client.{ClientCollabMessage}
use flow_cloud.Entity.Collab
use flow_cloud.Entity.Collab.{CollabMessage}

unfoldable pub ack_code_from_error : {y : Codec} → Error y → AckCode
ack_code_from_error yrs_transaction = retry
ack_code_from_error yrs_apply_update = cannot_apply_update
ack_code_from_error _ = internal

-- The update of a document as a message, written tag by tag.
unfoldable pub gen_update_message : Codec → Bytes → Bytes
gen_update_message y u = y.write_var msg_sync ++ (y.write_var msg_sync_update ++ y.write_buf u)

-- `for msg in reader`, up to the end of the buffer or the first message that cannot be read, at which
-- the loop is left.
unfoldable pub read_messages : {y : Codec} → ℕ → Bytes → List (Message y)
read_messages zero decoder = []
read_messages {y} (suc fuel) decoder = elim (next y decoder) [
  | none ↦ []
  | some (ok (m, rest)) ↦ m ∷ read_messages fuel rest
  | some (err e) ↦ []
]

-- What a subscriber's receiver yields: a message, or an error when it lags behind or the sender is gone.
pub data Received (c : CollabApi) : Type 0 where
  message : CollabMessage c → Received c
  lagged closed : Received c

module _ {c : CollabApi} where
  -- The task that forwards to a subscriber: messages of its own origin are left out, and any error
  -- ends it.
  unfoldable pub forward : c.Origin → List (Received c) → List (CollabMessage c)
  forward subscriber [] = []
  forward subscriber (message m ∷ more) =
      let rest = forward subscriber more in
      if c.origin_eq.beq (Collab.origin m) subscriber then rest else m ∷ rest
  forward subscriber (lagged ∷ more) = []
  forward subscriber (closed ∷ more) = []

module _ {y : Codec} (r : Replica y) {c : CollabApi} (object_id : Text)
    (msg : ClientCollabMessage c) where
  unfoldable pub new_ack : CollabAck c
  new_ack = collab_ack_new c (Client.origin msg) object_id (Client.msg_id msg)

  -- What the result of one message adds to the responses.
  unfoldable pub add_ack : List (CollabAck c) → Result (Option Bytes) (Error y) → List (CollabAck c)
  add_ack [] (ok none) = with_payload c new_ack [] ∷ []
  add_ack [] (ok (some payload)) = with_payload c new_ack payload ∷ []
  add_ack (ack ∷ acks) (ok payload) = ack ∷ acks
  add_ack acks (err e) = acks ++ with_code c new_ack (ack_code_from_error e) ∷ []

  -- `lock_free` says of each message in turn whether `try_lock` gets the document.
  unfoldable pub handle_messages :
      (ℕ → Bool)
      → ℕ
      → r.Awareness
      → List (CollabAck c)
      → List (Message y)
      → r.Awareness × List (CollabAck c)
  handle_messages lock_free i a acks [] = (a, acks)
  handle_messages lock_free i a acks (m ∷ ms) =
      let (a', result) = handle_collab_message r (server_sync_protocol r) a m in
      let handled = handle_messages lock_free (i + 1) a' (add_ack acks result) ms in
      let skipped = handle_messages lock_free (i + 1) a acks ms in
      if lock_free i then handled else skipped

  -- The document afterwards, and the acknowledgements that are sent to the client.
  unfoldable pub handle_client_collab_message :
      (ℕ → Bool) → r.Awareness → r.Awareness × List (CollabAck c)
  handle_client_collab_message lock_free a =
      handle_messages lock_free 0 a []
        (read_messages (suc (length (Client.payload msg))) (Client.payload msg))
