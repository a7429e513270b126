-- ===== src/Sink/Invariant/Sending.antt =====
-- `process_next_msg` of sink.rs keeps the invariant.
use flow_cloud.Base.{List, [], ◌∷◌, arith, contains, nat_eq, not, ◌&&◌, if_split}
use flow_cloud.Base.Heap.Total.{contains-hits, contains-retain}
use flow_cloud.Entity.Payload.{MsgId}
use flow_cloud.Sink.Queue.{SinkMessage, QueueItem}
use flow_cloud.Sink.Batch.{get_next_batch_item}
use flow_cloud.Sink.Batch.Conserve.{get_next_batch_item-IsBatch, total-get_next_batch_item}
use flow_cloud.Sink.Merge.Flying.{with_id}
use flow_cloud.Sink.{
  CollabSink, Locks, Sent, delivered, failed, process_next_msg, retry_later, forget,
  send_immediately, send_batch,
}
use flow_cloud.Sink.Invariant.{IsSound}

module _ {M E : Type 0} (msg : SinkMessage M E) where
  forget-IsSound : (s : CollabSink M) (ids : List MsgId) → IsSound s → IsSound (forget msg s ids)
  unfolding forget
  forget-IsSound s ids v = record {
    flying_queued = λ id h. ground (
      arith,
      contains-retain (λ i. not (contains ids i)) s.flying_messages id,
      v.flying_queued id,
    );
    used_once = v.used_once;
    fresh = v.fresh;
  }

  retry_later-IsSound : (s : CollabSink M) → IsSound s → IsSound (retry_later msg s)
  unfolding retry_later
  retry_later-IsSound s v = record {
    flying_queued = v.flying_queued;
    used_once = v.used_once;
    fresh = v.fresh;
  }

  send_immediately-IsSound :
      (locks : Locks) (sent : Sent) (s : CollabSink M) (items : List (QueueItem M))
      → IsSound s
      → IsSound (send_immediately msg locks sent s items)
  unfolding send_immediately
  send_immediately-IsSound locks delivered s items v =
      if_split IsSound locks.sender_free _ _ (λ _. v)
        (λ _. retry_later-IsSound _ (forget-IsSound s _ v))
  send_immediately-IsSound locks failed s items v =
      if_split IsSound locks.sender_free _ _ (λ _. forget-IsSound s _ v)
        (λ _. retry_later-IsSound _ (forget-IsSound s _ v))

  send_batch-IsSound :
      (locks : Locks) (sent : Sent) (s : CollabSink M) (items : List (QueueItem M))
      → IsSound s
      → IsSound (send_batch msg locks sent s items).0
  unfolding send_batch
  send_batch-IsSound locks sent s [] v = v
  send_batch-IsSound locks sent s (item ∷ items) v =
      send_immediately-IsSound locks sent s (item ∷ items) v

  gathered-IsSound :
      (s : CollabSink M)
      → IsSound s
      → let b = get_next_batch_item msg s.flying_messages s.message_queue in
        IsSound (record s { message_queue = b.1; flying_messages = b.2 })
  gathered-IsSound s v =
      let same = λ (id : MsgId).
        total-get_next_batch_item msg s.flying_messages s.message_queue (with_id id) in
      let batch = get_next_batch_item-IsBatch msg s.flying_messages s.message_queue in
      let items : List (QueueItem M) =
        (get_next_batch_item msg s.flying_messages s.message_queue).0 in
      record {
        flying_queued = λ id h. ground (
          arith,
          same id,
          batch.flying_after id,
          batch.queued (with_id id),
          v.flying_queued id,
          contains-hits (λ (i : QueueItem M). i.msg_id) id items,
        );
        used_once = λ id. omega (arith, same id, v.used_once id);
        fresh = λ id h. omega (arith, same id, v.fresh id h);
      }

  pub process_next_msg-IsSound :
      (locks : Locks) (sent : Sent) (s : CollabSink M)
      → IsSound s
      → IsSound (process_next_msg msg locks sent s).0
  unfolding process_next_msg
  process_next_msg-IsSound locks sent s v =
      if_split {A = CollabSink M × List (QueueItem M)} (λ p. IsSound p.0) s.pause _ _ (λ _. v)
        (λ _.
          if_split {A = CollabSink M × List (QueueItem M)} (λ p. IsSound p.0)
            (not (locks.message_queue_free && locks.flying_messages_free)) _ _
            (λ _. retry_later-IsSound s v)
            (λ _. send_batch-IsSound locks sent _ _ (gathered-IsSound s v)))
