-- ===== src/SyncControl.antt =====
-- lib/client-api/src/collab_sync/sync_control.rs: what a client does with the messages of the server.
-- A call finds the clock at `now`, in milliseconds, and the document's lock free or not; it returns the
-- state, the replica of the document and the result.
pub mod Recovery
pub mod CatchUp
use flow_cloud.Base.{
  ℕ, zero, suc, ◌+◌, ◌-◌, ◌%◌, ◌^◌, Bool, true, false, not, ◌&&◌, Option, none, some, List, [], ◌∷◌,
  Text, Result, ok, err, length, ltb, if◌then◌else◌,
}
use flow_cloud.Protocol.Codec.{Bytes, Codec}
use flow_cloud.Protocol.Message.{Message, sync, sync_step1, next}
use flow_cloud.Protocol.Replica.{Replica}
use flow_cloud.Protocol.Handlers.{Error, start, client_sync_protocol, handle_collab_message}
use flow_cloud.Entity.Payload.{CollabApi, MsgId, BroadcastSync, AckCode, cannot_apply_update}
use flow_cloud.Entity.Client.{
  ClientCollabMessage, client_init_sync, client_update_sync, server_init_sync,
}
use flow_cloud.Entity.Server
use flow_cloud.Entity.Server.{ServerCollabMessage, client_ack, server_broadcast}
use flow_cloud.Sink.Queue.{SinkMessage, client_sink_message}
use flow_cloud.Sink.{
  CollabSink, Locks, queue_msg, queue_init_sync, can_queue_init_sync, notify, validate_response,
}

-- Of the errors, those that the code tells apart.
pub data SyncError (y : Codec) : Type 0 where
  sync_error : Error y → SyncError y
  decoding_error : y.ReadError → SyncError y
  cannot_apply : SyncError y

abbrev pub number_of_update_trigger_init_sync : ℕ
number_of_update_trigger_init_sync = 1

pub record SyncObject (c : CollabApi) : Type 0 where
  pub object_id : Text
  pub workspace_id : Text
  pub collab_type : c.CollabType
  pub device_id : Text

-- `try_lock` on the document, the clock, and the sink's locks.
pub record Moment : Type 0 where
  pub collab_free : Bool
  pub now : ℕ
  pub locks : Locks

-- The sink, the number of the last broadcast, and the time of the last init sync.
pub record Observer (c : CollabApi) : Type 0 where
  pub sink : CollabSink (ClientCollabMessage c)
  pub broadcast_seq_num : ℕ
  pub last_sync : ℕ

-- What the reader yields: messages, and perhaps an error, after which it is not asked again.
unfoldable pub read_results : {y : Codec} → ℕ → Bytes → List (Result (Message y) y.ReadError)
read_results zero decoder = []
read_results {y} (suc fuel) decoder = elim (next y decoder) [
  | none ↦ []
  | some (ok (m, rest)) ↦ ok m ∷ read_results fuel rest
  | some (err e) ↦ err e ∷ []
]

-- Whether the number of a broadcast follows the one before, in 32 bits.
unfoldable pub validate_broadcast : ℕ → ℕ → Bool
validate_broadcast seq_num prev_seq_num =
    not (ltb ((prev_seq_num + number_of_update_trigger_init_sync) % 2 ^ 32) seq_num)

unfoldable pub should_sync : ℕ → ℕ → ℕ → Bool
should_sync now debounce last_sync = ltb debounce (now - last_sync)

abbrev pub is_sync_step1 : {y : Codec} → Message y → Bool
is_sync_step1 (sync (sync_step1 sv)) = true
is_sync_step1 _ = false

module _ {y : Codec} (r : Replica y) {c : CollabApi} (origin : c.Origin)
    (object : SyncObject c) where
  abbrev pub message : SinkMessage (ClientCollabMessage c) y.MergeError
  message = client_sink_message y c

  unfoldable pub doc_init_state : r.Awareness → Option Bytes
  doc_init_state a = elim (start r a) [
    | ok [] ↦ none
    | ok (b ∷ payload) ↦ some (b ∷ payload)
    | err e ↦ none
  ]

  unfoldable pub init_message : Bytes → MsgId → ClientCollabMessage c
  init_message payload msg_id = client_init_sync (record {
    origin = origin;
    object_id = object.object_id;
    collab_type = object.collab_type;
    workspace_id = object.workspace_id;
    msg_id = msg_id;
    payload = payload;
  })

  -- `_init_sync`
  unfoldable pub init_sync :
      Locks → r.Awareness → CollabSink (ClientCollabMessage c) → CollabSink (ClientCollabMessage c)
  init_sync locks a sink = elim (doc_init_state a) [
    | some payload ↦ queue_init_sync message locks sink (init_message payload)
    | none ↦ notify message sink
  ]

  unfoldable pub try_init_sync : ℕ → Moment → r.Awareness → Observer c → Observer c
  try_init_sync debounce t a o =
      if can_queue_init_sync message o.sink && should_sync t.now debounce o.last_sync
      then (if t.collab_free
          then record o { sink = init_sync t.locks a o.sink; last_sync = t.now }
          else record o { last_sync = t.now })
      else o

  -- The reply to a message of the server, as it is queued; it has the origin of the server's message.
  unfoldable pub reply_message : c.Origin → Bool → Bytes → MsgId → ClientCollabMessage c
  reply_message msg_origin true payload msg_id = server_init_sync (record {
    origin = msg_origin;
    object_id = object.object_id;
    payload = payload;
    msg_id = msg_id;
  })
  reply_message msg_origin false payload msg_id = client_update_sync (record {
    origin = msg_origin;
    object_id = object.object_id;
    payload = payload;
    msg_id = msg_id;
  })

  abbrev pub Processed : Type 0
  Processed = CollabSink (ClientCollabMessage c) × r.Awareness × Result (Unit {0}) (SyncError y)

  -- The sink after a message's result, in which a reply is queued.
  unfoldable pub queue_reply :
      Locks
      → c.Origin
      → Bool
      → CollabSink (ClientCollabMessage c)
      → Result (Option Bytes) (Error y)
      → Result (CollabSink (ClientCollabMessage c)) (Error y)
  queue_reply locks msg_origin step1 sink (ok (some payload)) =
      ok (queue_msg message locks sink (reply_message msg_origin step1 payload))
  queue_reply locks msg_origin step1 sink (ok none) = ok sink
  queue_reply locks msg_origin step1 sink (err e) = err e

  -- The loop over the messages of a payload.
  unfoldable pub process_results :
      Locks
      → c.Origin
      → CollabSink (ClientCollabMessage c)
      → r.Awareness
      → List (Result (Message y) y.ReadError)
      → Processed
  process_results locks msg_origin sink a [] = (sink, a, ok tt)
  process_results locks msg_origin sink a (err e ∷ more) = (sink, a, err (decoding_error e))
  process_results locks msg_origin sink a (ok m ∷ more) =
      let (a', result) = handle_collab_message r (client_sync_protocol r) a m in
      elim (queue_reply locks msg_origin (is_sync_step1 m) sink result) [
        | ok replied ↦ process_results locks msg_origin replied a' more
        | err e ↦ (sink, a', err (sync_error e))
      ]

  unfoldable pub process_payload :
      Moment → c.Origin → Bytes → CollabSink (ClientCollabMessage c) → r.Awareness → Processed
  process_payload t msg_origin payload sink a =
      if t.collab_free
      then process_results t.locks msg_origin sink a (read_results (suc (length payload)) payload)
      else (sink, a, ok tt)

  -- The first two tests of `process_message`: an acknowledgement that says that the update cannot be
  -- applied, and a broadcast, whose number is stored.
  abbrev pub rejects : ServerCollabMessage c → Bool
  rejects (client_ack ack) = elim ack.code [ cannot_apply_update ↦ true | _ ↦ false ]
  rejects _ = false

  unfoldable pub observe_broadcast :
      ℕ → Moment → r.Awareness → Observer c → ServerCollabMessage c → Observer c
  observe_broadcast debounce t a o (server_broadcast broadcast) =
      let stored = record o { broadcast_seq_num = broadcast.seq_num } in
      if validate_broadcast broadcast.seq_num o.broadcast_seq_num
      then stored
      else try_init_sync debounce t a stored
  observe_broadcast debounce t a o _ = o

  unfoldable pub finish : Bool → Processed → Processed
  finish is_valid (sink, a, ok x) = (if is_valid then notify message sink else sink, a, ok x)
  finish is_valid (sink, a, err e) = (sink, a, err e)

  unfoldable pub is_empty : Bytes → Bool
  is_empty [] = true
  is_empty (b ∷ bytes) = false

  unfoldable pub accept_message :
      Moment → r.Awareness → CollabSink (ClientCollabMessage c) → ServerCollabMessage c → Processed
  accept_message t a sink msg =
      let (after, is_valid) = validate_response message sink msg in
      finish is_valid (
        if is_valid && not (is_empty (Server.payload msg))
        then process_payload t (Server.origin msg) (Server.payload msg) after a
        else (after, a, ok tt))

  unfoldable pub process_message :
      ℕ
      → Moment
      → Observer c
      → r.Awareness
      → ServerCollabMessage c
      → Observer c × r.Awareness × Result (Unit {0}) (SyncError y)
  process_message debounce t o a msg =
      if rejects msg
      then (o, a, err cannot_apply)
      else (let seen = observe_broadcast debounce t a o msg in
          let (sink, a', result) = accept_message t a seen.sink msg in
          (record seen { sink = sink }, a', result))
