-- ===== src/SyncControl/Recovery.antt =====
-- What sync_control.rs does after a broadcast that it has missed.
use flow_cloud.Base.{ℕ, ◌≡◌, refl, ap, Bool-cases, inl, inr, true, false, not, none, some, [], ◌∷◌}
use flow_cloud.Base.Heap.{pop}
use flow_cloud.Protocol.Codec.{Bytes, Codec}
use flow_cloud.Protocol.Replica.{Replica}
use flow_cloud.Entity.Payload.{CollabApi, BroadcastSync, MsgId}
use flow_cloud.Entity.Client
use flow_cloud.Entity.Client.{ClientCollabMessage}
use flow_cloud.Sink.Queue.{SinkMessage, QueueItem}
use flow_cloud.Entity.Server.{server_broadcast}
use flow_cloud.Sink.{
  CollabSink, Locks, notify, is_syncing, queue_init_sync, can_queue_init_sync, start_syncing,
  push_msg, next_id, clear,
}
use flow_cloud.Sink.Batch.{get_next_batch_item, batch_loop, take_item}
use flow_cloud.SyncControl.{
  SyncObject, Moment, Observer, message, doc_init_state, init_message, init_sync, try_init_sync,
  should_sync, validate_broadcast, observe_broadcast,
}

-- An init message that is queued while the locks are free is alone in the queue, and the next batch.
restarted :
    {M E : Type 0} (msg : SinkMessage M E) (locks : Locks) (s : CollabSink M) (f : MsgId → M)
    → locks.message_queue_free ≡ true
    → locks.flying_messages_free ≡ true
    → msg.is_client_init_sync (f s.msg_id_counter) ≡ true
    → let s' = queue_init_sync msg locks s f in
      let item : QueueItem M = record { inner = f s.msg_id_counter; msg_id = s.msg_id_counter } in
      (s'.message_queue ≡ item ∷ [])
      × ((get_next_batch_item msg s'.flying_messages s'.message_queue).0 ≡ item ∷ [])
unfolding queue_init_sync push_msg next_id clear start_syncing get_next_batch_item batch_loop
    take_item pop
restarted msg locks s f q_free f_free is_init =
    elim (Bool-cases (not (is_syncing s.state_notifier))) [
      | inl start ↦ rw (start, q_free, f_free, is_init) (refl, refl)
      | inr going ↦ rw (going, q_free, f_free, is_init) (refl, refl)
    ]

module _ {y : Codec} (r : Replica y) {c : CollabApi} (origin : c.Origin)
    (object : SyncObject c) where
  init_sync-some :
      (locks : Locks) (a : r.Awareness) (s : CollabSink (ClientCollabMessage c)) (payload : Bytes)
      → doc_init_state r origin object a ≡ some payload
      → init_sync r origin object locks a s
        ≡ queue_init_sync (message r origin object) locks s (init_message r origin object payload)
  unfolding init_sync
  init_sync-some locks a s payload h =
      ap
        (λ o. elim o as (λ _. CollabSink (ClientCollabMessage c)) [
          | some p ↦
              queue_init_sync (message r origin object) locks s (init_message r origin object p)
          | none ↦ notify (message r origin object) s
        ])
        h

  -- When a broadcast has been missed, no init sync is queued yet, the last one is long enough ago, and
  -- the locks and the document, with a state to send, are at hand, then the queue is cleared for an
  -- init sync: this message is all that is queued, and the next batch; its time and the number of the
  -- broadcast are remembered.
  pub observe_broadcast-Recovers :
      (debounce : ℕ) (t : Moment) (a : r.Awareness) (o : Observer c) (broadcast : BroadcastSync c)
      (payload : Bytes)
      → validate_broadcast broadcast.seq_num o.broadcast_seq_num ≡ false
      → can_queue_init_sync (message r origin object) o.sink ≡ true
      → should_sync t.now debounce o.last_sync ≡ true
      → t.collab_free ≡ true
      → t.locks.message_queue_free ≡ true
      → t.locks.flying_messages_free ≡ true
      → doc_init_state r origin object a ≡ some payload
      → let o' = observe_broadcast r origin object debounce t a o (server_broadcast broadcast) in
        let item : QueueItem (ClientCollabMessage c) = record {
          inner = init_message r origin object payload o.sink.msg_id_counter;
          msg_id = o.sink.msg_id_counter;
        } in
        ((o'.sink.message_queue ≡ item ∷ [])
          × ((get_next_batch_item
                (message r origin object)
                o'.sink.flying_messages
                o'.sink.message_queue).0
              ≡ item ∷ []))
        × (o'.broadcast_seq_num ≡ broadcast.seq_num)
        × (o'.last_sync ≡ t.now)
  unfolding observe_broadcast try_init_sync
  observe_broadcast-Recovers debounce t a o broadcast payload missed due late got q_free f_free
        state =
      rw (missed, due, late, got, init_sync-some t.locks a o.sink payload state)
        (
          restarted (message r origin object) t.locks o.sink (init_message r origin object payload)
              q_free f_free (unfold init_message Client.is_init_sync in refl),
          refl,
          refl,
        )
