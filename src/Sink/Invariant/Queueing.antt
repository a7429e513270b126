-- ===== src/Sink/Invariant/Queueing.antt =====
-- The calls of sink.rs that queue, merge and clear keep the invariant.
use flow_cloud.Base.{
  ◌+◌, ◌^◌, ◌<◌, ◌≡◌, refl, true, List, [], ◌∷◌, arith, nat_eq, if◌then◌else◌, nat_beq_iff, not,
  ◌&&◌, if_split,
}
use flow_cloud.Base.Heap.Total.{total-append}
use flow_cloud.Entity.Payload.{MsgId}
use flow_cloud.Sink.Queue.{SinkMessage, QueueItem}
use flow_cloud.Sink.Merge.{merge_items}
use flow_cloud.Sink.Merge.Flying.{with_id, with_id-merge_items, merge_items-KeepsFlying}
use flow_cloud.Sink.{
  CollabSink, Locks, queue_msg, queue_init_sync, clear, push_msg, start_syncing, merge, is_syncing,
}
use flow_cloud.Sink.Invariant.{IsSound}

module _ {M E : Type 0} (msg : SinkMessage M E) where
  push_msg-IsSound :
      (s : CollabSink M) (f : MsgId → M)
      → s.msg_id_counter + 1 < 2 ^ 64
      → IsSound s
      → IsSound (push_msg msg s f)
  unfolding push_msg
  push_msg-IsSound s f room v =
      let item : QueueItem M = record { inner = f s.msg_id_counter; msg_id = s.msg_id_counter } in
      record {
        flying_queued = λ id h.
            omega
              (arith, total-append (with_id id) s.message_queue (item ∷ []), v.flying_queued id h);
        used_once = λ id. ground (
          arith,
          total-append (with_id id) s.message_queue (item ∷ []),
          v.used_once id,
          v.fresh s.msg_id_counter,
          nat_beq_iff s.msg_id_counter id,
        );
        fresh = λ id h.
            ground (arith, total-append (with_id id) s.message_queue (item ∷ []), v.fresh id);
      }

  merge-IsSound : (locks : Locks) (s : CollabSink M) → IsSound s → IsSound (merge msg locks s)
  unfolding merge
  merge-IsSound locks s v =
      if_split IsSound s.config.disable_merge_message _ _ (λ _. v)
        (λ _.
          if_split IsSound (locks.flying_messages_free && locks.message_queue_free) _ _
            (λ _. merged) (λ _. v))
    where
      q : List (QueueItem M)
      q = merge_items msg s.config.maximum_payload_size s.flying_messages s.message_queue

      merged : IsSound (record s { message_queue = q })
      merged = record {
        flying_queued = λ id h. omega (
          arith,
          with_id-merge_items msg s.config.maximum_payload_size s.flying_messages s.message_queue id
              h,
          v.flying_queued id h,
        );
        used_once = λ id. omega (
          arith,
          (merge_items-KeepsFlying msg s.config.maximum_payload_size s.flying_messages
                s.message_queue).ids_kept
              id,
          v.used_once id,
        );
        fresh = λ id h. omega (
          arith,
          (merge_items-KeepsFlying msg s.config.maximum_payload_size s.flying_messages
                s.message_queue).ids_kept
              id,
          v.fresh id h,
        );
      }

  start_syncing-IsSound : (s : CollabSink M) → IsSound s → IsSound (start_syncing msg s)
  unfolding start_syncing
  start_syncing-IsSound s v =
      if_split IsSound (not (is_syncing s.state_notifier)) _ _
        (λ _. record { flying_queued = v.flying_queued; used_once = v.used_once; fresh = v.fresh })
        (λ _. v)

  counter-start_syncing :
      (s : CollabSink M) → (start_syncing msg s).msg_id_counter ≡ s.msg_id_counter
  unfolding start_syncing
  counter-start_syncing s = ground arith

  pub queue_msg-IsSound :
      (locks : Locks) (s : CollabSink M) (f : MsgId → M)
      → s.msg_id_counter + 1 < 2 ^ 64
      → IsSound s
      → IsSound (queue_msg msg locks s f)
  unfolding queue_msg
  queue_msg-IsSound locks s f room v = merge-IsSound locks _ (record {
    flying_queued = pushed.flying_queued;
    used_once = pushed.used_once;
    fresh = pushed.fresh;
  })
    where
      pushed : IsSound (push_msg msg (start_syncing msg s) f)
      pushed =
          push_msg-IsSound (start_syncing msg s) f (rw (counter-start_syncing s) room)
            (start_syncing-IsSound s v)

  pub clear-IsSound :
      (locks : Locks) (s : CollabSink M)
      → locks.flying_messages_free ≡ true
      → IsSound s
      → IsSound (clear msg locks s)
  unfolding clear
  clear-IsSound locks s free v =
      if_split {A = CollabSink M}
        (λ t. IsSound (if locks.flying_messages_free then record t { flying_messages = [] } else t))
        locks.message_queue_free _ _
        (λ _. rw free (record {
          flying_queued = λ id h. cc;
          used_once = λ id. omega arith;
          fresh = λ id h. refl;
        }))
        (λ _.
          rw free (record { flying_queued = λ id h. cc; used_once = v.used_once; fresh = v.fresh }))

  counter-clear :
      (locks : Locks) (s : CollabSink M) → (clear msg locks s).msg_id_counter ≡ s.msg_id_counter
  unfolding clear
  counter-clear locks s = ground arith

  pub queue_init_sync-IsSound :
      (locks : Locks) (s : CollabSink M) (f : MsgId → M)
      → s.msg_id_counter + 1 < 2 ^ 64
      → locks.flying_messages_free ≡ true
      → IsSound s
      → IsSound (queue_init_sync msg locks s f)
  unfolding queue_init_sync
  queue_init_sync-IsSound locks s f room free v = record {
    flying_queued = pushed.flying_queued;
    used_once = pushed.used_once;
    fresh = pushed.fresh;
  }
    where
      pushed : IsSound (push_msg msg (clear msg locks (start_syncing msg s)) f)
      pushed =
          push_msg-IsSound _ f
            (rw (counter-clear locks (start_syncing msg s), counter-start_syncing s) room)
            (clear-IsSound locks _ free (start_syncing-IsSound s v))
