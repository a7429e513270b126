-- ===== src/Tests/SyncControl.antt =====
-- Runs of the theorems on the client's sync control.
use flow_cloud.Base.{ℕ, ◌≡◌, refl, true, some, List, [], ◌∷◌, codes}
use flow_cloud.Base.Heap.{peek, pop}
use flow_cloud.Protocol.Handlers.{start}
use flow_cloud.Protocol.Message.{encode, encode_sync}
use flow_cloud.Entity.Payload.{BroadcastSync, success}
use flow_cloud.Entity.Client
use flow_cloud.Entity.Client.{ClientCollabMessage}
use flow_cloud.Entity.Server
use flow_cloud.Entity.Server.{ServerCollabMessage, client_ack, server_broadcast}
use flow_cloud.Sink.Queue.{QueueItem}
use flow_cloud.Sink.{can_queue_init_sync, validate_response}
use flow_cloud.Sink.Batch.{get_next_batch_item}
use flow_cloud.SyncControl.{
  SyncObject, Moment, Observer, message, doc_init_state, init_message, should_sync,
  validate_broadcast, observe_broadcast, process_message,
}
use flow_cloud.SyncControl.CatchUp.{server_answer, CatchesUp, process_message-CatchesUp}
use flow_cloud.SyncControl.Recovery.{observe_broadcast-Recovers}
use flow_cloud.Tests.Data.{tiny_api, tiny_codec-IsLawful}
use flow_cloud.Tests.Sink.{all_free, empty_sink, busy_sink}
use flow_cloud.Tests.Server.{tiny_replica, tiny_replica-IsLawful}

abbrev some_object : SyncObject tiny_api
some_object = record {
  object_id = codes "doc";
  workspace_id = codes "w";
  collab_type = tt;
  device_id = codes "d";
}

abbrev some_moment : Moment
some_moment = record { collab_free = true; now = 60000; locks = all_free }

abbrev some_observer : Observer tiny_api
some_observer = record { sink = empty_sink; broadcast_seq_num = 4; last_sync = 10000 }

abbrev late_broadcast : BroadcastSync tiny_api
late_broadcast = record { origin = 2; object_id = codes "doc"; payload = []; seq_num = 7 }

abbrev init_state : List ℕ
init_state = 0 ∷ 0 ∷ 2 ∷ 1 ∷ 2 ∷ 1 ∷ 0 ∷ []

has_init_state : doc_init_state tiny_replica 1 some_object (1 ∷ 2 ∷ []) ≡ some init_state
unfolding doc_init_state start encode encode_sync
has_init_state = refl

observe_broadcast-Recovers_example :
    let o' =
      observe_broadcast tiny_replica 1 some_object 10000 some_moment
        (1 ∷ 2 ∷ [])
        some_observer
        (server_broadcast late_broadcast) in
    let item : QueueItem (ClientCollabMessage tiny_api) = record {
      inner = init_message tiny_replica 1 some_object init_state 0;
      msg_id = 0;
    } in
    ((o'.sink.message_queue ≡ item ∷ [])
      × ((get_next_batch_item
            (message tiny_replica 1 some_object)
            o'.sink.flying_messages
            o'.sink.message_queue).0
          ≡ item ∷ []))
    × (o'.broadcast_seq_num ≡ 7)
    × (o'.last_sync ≡ 60000)
observe_broadcast-Recovers_example =
    observe_broadcast-Recovers tiny_replica 1 some_object 10000 some_moment (1 ∷ 2 ∷ [])
      some_observer late_broadcast init_state (unfold validate_broadcast in refl)
      (unfold can_queue_init_sync peek in refl) (unfold should_sync in refl) refl refl refl
      has_init_state

-- The client has the edits 1 and 2, the server 2 and 3.
abbrev answering_ack : ServerCollabMessage tiny_api
answering_ack = client_ack (record {
  origin = 1;
  object_id = codes "doc";
  source = record { verbose = []; msg_id = 0 };
  payload =
      server_answer tiny_codec-IsLawful tiny_replica tiny_replica-IsLawful 1 some_object
        (2 ∷ 3 ∷ []) (1 ∷ 2 ∷ []);
  code = success;
})

abbrev busy_observer : Observer tiny_api
busy_observer = record some_observer { sink = busy_sink }

answering_ack-IsAccepted :
    (validate_response (message tiny_replica 1 some_object) busy_sink answering_ack).1 ≡ true
unfolding validate_response Server.msg_id Client.cmp Client.msg_id pop
answering_ack-IsAccepted = refl

process_message-CatchesUp_example :
    let seen =
      observe_broadcast tiny_replica 1 some_object 10000 some_moment
        (1 ∷ 2 ∷ [])
        busy_observer
        answering_ack in
    CatchesUp tiny_codec-IsLawful tiny_replica tiny_replica-IsLawful 1 some_object some_moment seen
      (1 ∷ 2 ∷ [])
      (2 ∷ 3 ∷ [])
      answering_ack
      (validate_response (message tiny_replica 1 some_object) seen.sink answering_ack)
      (process_message tiny_replica 1 some_object 10000 some_moment busy_observer
        (1 ∷ 2 ∷ [])
        answering_ack)
process_message-CatchesUp_example =
    process_message-CatchesUp tiny_codec-IsLawful tiny_replica tiny_replica-IsLawful 1 some_object
      10000 some_moment busy_observer (1 ∷ 2 ∷ []) (2 ∷ 3 ∷ []) answering_ack refl
      (unfold Server.payload in refl) refl refl
