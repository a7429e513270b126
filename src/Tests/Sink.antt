-- ===== src/Tests/Sink.antt =====
-- Runs of the theorems on the sink.
use flow_cloud.Base.{◌≡◌, refl, inr, true, false, none, some, List, [], ◌∷◌, arith, nat_eq, codes}
use flow_cloud.Base.Heap.{pop}
use flow_cloud.Entity.Payload.{UpdateSync, MsgId, success, update_bytes, as_update}
use flow_cloud.Entity.Client
use flow_cloud.Entity.Client.{ClientCollabMessage, client_update_sync}
use flow_cloud.Entity.Server
use flow_cloud.Entity.Server.{ServerCollabMessage, client_ack}
use flow_cloud.Protocol.Message.{next, decode}
use flow_cloud.Sink.Queue.{SinkMessage, QueueItem, client_sink_message, item_cmp}
use flow_cloud.Sink.Batch.{get_next_batch_item}
use flow_cloud.Sink.Batch.Conserve.{IsBatch, get_next_batch_item-IsBatch}
use flow_cloud.Sink.Batch.Priority.{
  IsPrioritised, get_next_batch_item-IsPrioritised, get_next_batch_item-Progresses,
}
use flow_cloud.Sink.Merge.Flying.{KeepsFlying, merge_items-KeepsFlying}
use flow_cloud.Sink.Merge.Loss.{item_of}
use flow_cloud.Sink.Responses.{Outcome, validate_response-Outcome}
use flow_cloud.Sink.Sending.{SameWork, process_next_msg-SameWork}
use flow_cloud.Sink.{
  new, is_syncing, CollabSink, Locks, delivered, failed, init, proceed, validate_response,
  process_next_msg, queue_msg, start_syncing, push_msg, next_id, merge,
}
use flow_cloud.Sink.Steps.{Event, queues, validates, processes, step, run}
use flow_cloud.Sink.Invariant.{IsSound}
use flow_cloud.Sink.Invariant.Run.{AllAllowed, run-IsSound}
use flow_cloud.Tests.Data.{tiny_api, tiny_codec}

abbrev message : SinkMessage (ClientCollabMessage tiny_api) Unit
message = client_sink_message tiny_codec tiny_api

-- An update, which decodes as the message of a document update.
abbrev some_update : MsgId → UpdateSync tiny_api
some_update id = record {
  origin = 1;
  object_id = codes "doc";
  msg_id = id;
  payload = 0 ∷ 2 ∷ 1 ∷ 7 ∷ [];
}

-- An awareness update, queued as an update.
abbrev some_awareness : MsgId → UpdateSync tiny_api
some_awareness id = record {
  origin = 1;
  object_id = codes "doc";
  msg_id = id;
  payload = 1 ∷ 1 ∷ 7 ∷ [];
}

abbrev pub all_free : Locks
all_free = record { message_queue_free = true; flying_messages_free = true; sender_free = true }

abbrev pub empty_sink : CollabSink (ClientCollabMessage tiny_api)
empty_sink = record {
  message_queue = [];
  msg_id_counter = 0;
  notifier = proceed;
  config = record { send_timeout = 6; maximum_payload_size = 64; disable_merge_message = true };
  state_notifier = init;
  pause = false;
  flying_messages = [];
}

-- Two updates are queued, and the first is in flight.
abbrev pub busy_sink : CollabSink (ClientCollabMessage tiny_api)
busy_sink = record empty_sink {
  message_queue = item_of tiny_codec (some_update 0) ∷ item_of tiny_codec (some_update 1) ∷ [];
  msg_id_counter = 2;
  flying_messages = 0 ∷ [];
}

abbrev first_ack : ServerCollabMessage tiny_api
first_ack = client_ack (record {
  origin = 1;
  object_id = codes "doc";
  source = record { verbose = []; msg_id = 0 };
  payload = [];
  code = success;
})

abbrev some_events : List (Event (ClientCollabMessage tiny_api) tiny_api)
some_events =
    queues all_free (λ id. client_update_sync (some_update id))
    ∷ queues all_free (λ id. client_update_sync (some_update id))
    ∷ processes all_free delivered
    ∷ validates first_ack
    ∷ []

abbrev new_sink : CollabSink (ClientCollabMessage tiny_api)
new_sink = new message proceed init empty_sink.config false

some_events-AllAllowed : AllAllowed message new_sink some_events
unfolding new step queue_msg start_syncing push_msg next_id merge is_syncing
some_events-AllAllowed = (ground arith, (ground arith, (tt, (tt, tt))))

run-IsSound_example : IsSound (run message new_sink some_events)
run-IsSound_example =
    run-IsSound message proceed init empty_sink.config false some_events some_events-AllAllowed

validate_response-Outcome_example :
    let r = validate_response message busy_sink first_ack in Outcome message busy_sink r.0 r.1 0
validate_response-Outcome_example =
    validate_response-Outcome message busy_sink first_ack 0 (unfold Server.msg_id in refl)

first_ack-IsValid : (validate_response message busy_sink first_ack).1 ≡ true
unfolding validate_response Server.msg_id Client.cmp Client.msg_id pop
first_ack-IsValid = refl

get_next_batch_item-IsBatch_example : IsBatch message (0 ∷ []) busy_sink.message_queue
get_next_batch_item-IsBatch_example =
    get_next_batch_item-IsBatch message (0 ∷ []) busy_sink.message_queue

get_next_batch_item-IsPrioritised_example :
    IsPrioritised message (7 ∷ []) (get_next_batch_item message (7 ∷ []) busy_sink.message_queue).0
get_next_batch_item-IsPrioritised_example =
    get_next_batch_item-IsPrioritised message (7 ∷ []) busy_sink.message_queue

first_popped :
    pop (item_cmp message) busy_sink.message_queue
    ≡ some (item_of tiny_codec (some_update 0), item_of tiny_codec (some_update 1) ∷ [])
unfolding pop Client.cmp Client.msg_id
first_popped = refl

get_next_batch_item-Progresses_example :
    (ys : List (QueueItem (ClientCollabMessage tiny_api))) × ((get_next_batch_item message []
        busy_sink.message_queue).0
      ≡ item_of tiny_codec (some_update 0) ∷ ys)
get_next_batch_item-Progresses_example =
    get_next_batch_item-Progresses message [] busy_sink.message_queue
      (item_of tiny_codec (some_update 0)) (item_of tiny_codec (some_update 1) ∷ []) first_popped
      refl

process_next_msg-SameWork_example :
    SameWork message busy_sink (process_next_msg message all_free failed busy_sink).0
process_next_msg-SameWork_example =
    process_next_msg-SameWork message all_free failed busy_sink (inr (inr (inr refl)))

merge_items-KeepsFlying_example : KeepsFlying message 64 (0 ∷ []) busy_sink.message_queue
merge_items-KeepsFlying_example =
    merge_items-KeepsFlying message 64 (0 ∷ []) busy_sink.message_queue

no_update : update_bytes (as_update tiny_codec (some_awareness 1)) ≡ none
unfolding as_update next decode
no_update = refl
