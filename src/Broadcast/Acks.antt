-- ===== src/Broadcast/Acks.antt =====
-- The acknowledgements of lib/realtime/src/server/collaborate/group_broadcast.rs.
use flow_cloud.Base.{
  ℕ, suc, ◌+◌, ◌≡◌, ◌≢◌, refl, Bool, Option, none, some, List, [], ◌∷◌, ◌++◌, Text, Result, ok, err,
  All, All-append, if_split, arith, length,
}
use flow_cloud.Protocol.Codec.{Bytes, Codec, IsLawful}
use flow_cloud.Protocol.Message.{Message, sync, update, encode, encode_sync, decode}
use flow_cloud.Protocol.RoundTrip.{decode-encode}
use flow_cloud.Protocol.Replica.{Replica}
use flow_cloud.Protocol.Handlers.{Error}
use flow_cloud.Entity.Payload.{
  CollabApi, CollabAck, success, collab_ack_new, with_payload, with_code,
}
use flow_cloud.Entity.Client
use flow_cloud.Entity.Client.{ClientCollabMessage}
use flow_cloud.Broadcast.{
  gen_update_message, ack_code_from_error, new_ack, add_ack, handle_messages,
  handle_client_collab_message, read_messages,
}

-- With a lawful codec, the update that the server writes by hand is read as the message of this update,
-- and what follows it is left unread.
pub decode-gen_update_message :
    (y : Codec)
    → IsLawful y
    → (u rest : Bytes) → decode y (gen_update_message y u ++ rest) ≡ ok (sync (update u), rest)
unfolding gen_update_message encode encode_sync
decode-gen_update_message y laws u rest = decode-encode y laws (sync (update u)) rest

error_is_no_success : {y : Codec} (e : Error y) → ack_code_from_error e ≢ success
unfolding ack_code_from_error
error_is_no_success e h = ground (arith, h)

module _ {y : Codec} (r : Replica y) {c : CollabApi} (object_id : Text)
    (msg : ClientCollabMessage c) where
  -- An acknowledgement goes to the sender of the message and names its object and its id.
  abbrev pub IsFor : CollabAck c → Type 0
  IsFor ack =
      (ack.origin ≡ Client.origin msg)
      × (ack.object_id ≡ object_id)
      × (ack.source.msg_id ≡ Client.msg_id msg)

  -- All acknowledgements but the first report an error.
  abbrev pub FailLater : List (CollabAck c) → Type 0
  FailLater [] = Unit
  FailLater (ack ∷ acks) = All (λ later. later.code ≢ success) acks

  abbrev pub AreAcks : List (CollabAck c) → Type 0
  AreAcks acks = All IsFor acks × FailLater acks

  add_ack-AreAcks :
      (acks : List (CollabAck c)) (result : Result (Option Bytes) (Error y))
      → AreAcks acks
      → AreAcks (add_ack r object_id msg acks result)
  unfolding add_ack new_ack collab_ack_new with_payload with_code
  add_ack-AreAcks [] (ok none) h = (((refl, refl, refl), tt), tt)
  add_ack-AreAcks [] (ok (some payload)) h = (((refl, refl, refl), tt), tt)
  add_ack-AreAcks (ack ∷ acks) (ok payload) h = h
  add_ack-AreAcks [] (err e) h = (((refl, refl, refl), tt), tt)
  add_ack-AreAcks (ack ∷ acks) (err e) h = (
    (h.0.0, All-append IsFor acks _ h.0.1 ((refl, refl, refl), tt)),
    All-append _ acks _ h.1 (error_is_no_success e, tt),
  )

  handle_messages-AreAcks :
      (lock_free : ℕ → Bool) (i : ℕ) (a : r.Awareness) (acks : List (CollabAck c))
      (ms : List (Message y))
      → AreAcks acks
      → AreAcks (handle_messages r object_id msg lock_free i a acks ms).1
  unfolding handle_messages
  handle_messages-AreAcks lock_free i a acks [] h = h
  handle_messages-AreAcks lock_free i a acks (m ∷ ms) h =
      if_split {A = r.Awareness × List (CollabAck c)} (λ p. AreAcks p.1) (lock_free i) _ _
        (λ got. handle_messages-AreAcks lock_free (i + 1) _ _ ms (add_ack-AreAcks acks _ h))
        (λ busy. handle_messages-AreAcks lock_free (i + 1) a acks ms h)

  -- Whatever a client's message holds and whichever locks are taken: every acknowledgement goes to the
  -- sender and names the object and the message, and at most the first of them reports a success.
  pub handle_client_collab_message-AreAcks :
      (lock_free : ℕ → Bool) (a : r.Awareness)
      → AreAcks (handle_client_collab_message r object_id msg lock_free a).1
  unfolding handle_client_collab_message
  handle_client_collab_message-AreAcks lock_free a =
      handle_messages-AreAcks lock_free 0 a []
        (read_messages (suc (length (Client.payload msg))) (Client.payload msg)) (tt, tt)
