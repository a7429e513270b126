-- ===== src/Protocol/Handlers.antt =====
-- lib/realtime-protocol/src/protocol.rs, and the server's protocol of
-- lib/realtime/src/server/collaborate/sync_protocol.rs. A handler returns the replica afterwards, and
-- the reply or an error.
pub mod Converge
use flow_cloud.Base.{
  Bool, true, false, Option, none, some, [], ◌++◌, Text, Result, ok, err, if◌then◌else◌,
}
use flow_cloud.Base.Int.{ℤ}
use flow_cloud.Protocol.Codec.{Bytes, Codec}
use flow_cloud.Protocol.Message.{
  Message, CustomMessage, SyncMessage, sync, auth, awareness, custom, sync_step1, sync_step2,
  update, sync_check, encode,
}
use flow_cloud.Protocol.Replica.{Replica}

-- The errors that the handlers raise; texts other than the reason are left out.
pub data Error (y : Codec) : Type 0 where
  decoding_error : y.ReadError → Error y
  awareness_encoding yrs_transaction yrs_apply_update : Error y
  permission_denied : Text → Error y

module _ {y : Codec} (r : Replica y) where
  abbrev pub Reply : Type 0
  Reply = r.Awareness × Result (Option Bytes) (Error y)

  -- The trait `CollabSyncProtocol`: what its two implementations do differently.
  pub record SyncProtocol : Type 0 where
    pub check : ℤ → Bytes
    pub handle_sync_step1 : r.Awareness → y.StateVector → Result (Option Bytes) (Error y)

  unfoldable pub start : r.Awareness → Result Bytes (Error y)
  start a =
      if r.is_free a
      then elim (r.awareness_update a) [
        | none ↦ err awareness_encoding
        | some u ↦ ok (encode y (sync (sync_step1 (r.state_vector a))) ++ encode y (awareness u))
      ]
      else err yrs_transaction

  -- The trait's own `handle_sync_step1`.
  unfoldable pub answer_sync_step1 : r.Awareness → y.StateVector → Result (Option Bytes) (Error y)
  answer_sync_step1 a sv =
      if r.is_free a
      then ok (some (encode y (sync (sync_step2 (r.encode_state_as_update a sv)))))
      else err yrs_transaction

  -- The server's; it takes its transaction by `transact`, which does not fail but panics.
  unfoldable pub answer_and_ask : r.Awareness → y.StateVector → Result (Option Bytes) (Error y)
  answer_and_ask a sv = ok (
      some (
        encode y (sync (sync_step2 (r.encode_state_as_update a sv)))
        ++ encode y (sync (sync_step1 (r.state_vector a)))))

  unfoldable pub client_sync_protocol : SyncProtocol
  client_sync_protocol = record {
    check = λ last_sync_at. encode y (custom (sync_check (record { last_sync_at = last_sync_at })));
    handle_sync_step1 = answer_sync_step1;
  }

  unfoldable pub server_sync_protocol : SyncProtocol
  server_sync_protocol = record { check = λ last_sync_at. []; handle_sync_step1 = answer_and_ask }

  unfoldable pub handle_sync_step2 : r.Awareness → r.Update → Reply
  handle_sync_step2 a u =
      if r.is_free a
      then elim (r.apply_update a u) [ none ↦ (a, err yrs_apply_update) | some a' ↦ (a', ok none) ]
      else (a, err yrs_transaction)

  unfoldable pub handle_update : r.Awareness → r.Update → Reply
  handle_update a u = handle_sync_step2 a u

  unfoldable pub handle_auth : Option Text → Result (Option Bytes) (Error y)
  handle_auth (some reason) = err (permission_denied reason)
  handle_auth none = ok none

  unfoldable pub handle_awareness_update : r.Awareness → y.AwarenessUpdate → Reply
  handle_awareness_update a u = elim (r.apply_awareness a u) [
    | none ↦ (a, err awareness_encoding)
    | some a' ↦ (a', ok none)
  ]

  -- `Update::decode_v1(&update)?`, and then the handler.
  unfoldable pub decode_and : r.Awareness → Bytes → (r.Awareness → r.Update → Reply) → Reply
  decode_and a bytes handle = elim (r.decode_update bytes) [
    | ok u ↦ handle a u
    | err e ↦ (a, err (decoding_error e))
  ]

  unfoldable pub handle_collab_message : SyncProtocol → r.Awareness → Message y → Reply
  handle_collab_message protocol a (sync (sync_step1 sv)) = (a, protocol.handle_sync_step1 a sv)
  handle_collab_message protocol a (sync (sync_step2 u)) = decode_and a u handle_sync_step2
  handle_collab_message protocol a (sync (update u)) = decode_and a u handle_update
  handle_collab_message protocol a (auth reason) = (a, handle_auth reason)
  handle_collab_message protocol a (awareness u) = handle_awareness_update a u
  handle_collab_message protocol a (custom msg) = (a, ok none)
