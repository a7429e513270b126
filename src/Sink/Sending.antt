-- ===== src/Sink/Sending.antt =====
-- `process_next_msg`: a batch that was not delivered is as if it had not been gathered.
use mathlib.Core.List.{Perm}
use mathlib.Core.List.Perm
use flow_cloud.Base.{
  ◌≡◌, refl, inl, inr, true, false, List, [], ◌∷◌, arith, contains, nat_eq, nat_beq_iff, not, ◌&&◌,
  ◌⊎◌, if_split, All, map,
}
use flow_cloud.Base.Heap.Total.{contains-retain}
use flow_cloud.Entity.Payload.{MsgId}
use flow_cloud.Sink.Queue.{SinkMessage, QueueItem}
use flow_cloud.Sink.Batch.{get_next_batch_item}
use flow_cloud.Sink.Batch.Conserve.{IsSendable, get_next_batch_item-IsBatch}
use flow_cloud.Sink.{
  CollabSink, Locks, Sent, delivered, failed, process_next_msg, send_immediately, send_batch,
  forget, retry_later,
}

module _ {M E : Type 0} (msg : SinkMessage M E) where
  -- An id of the batch was not in flight.
  sendable_ids :
      (flying : List MsgId) (items : List (QueueItem M)) (id : MsgId)
      → All (IsSendable msg flying) items
      → contains (map (λ item. item.msg_id) items) id ≡ true
      → contains flying id ≡ false
  sendable_ids flying [] id h k = cc
  sendable_ids flying (item ∷ items) id h k =
      ground (arith, nat_beq_iff item.msg_id id, sendable_ids flying items id h.1)

  -- The same messages are queued, and the same ids are in flight.
  pub record SameWork (s t : CollabSink M) : Type 0 where
    pub queue : Perm t.message_queue s.message_queue
    pub flying : (id : MsgId) → contains t.flying_messages id ≡ contains s.flying_messages id

  abbrev pub Undelivered : Locks → Sent → Type 0
  Undelivered locks sent = (locks.sender_free ≡ false) ⊎ (sent ≡ failed)

  Undelivered-batch :
      (locks : Locks) (sent : Sent) (s : CollabSink M) (items : List (QueueItem M))
      → Undelivered locks sent
      → let t = (send_batch msg locks sent s items).0 in
        (t.message_queue ≡ s.message_queue)
        × ((id : MsgId)
            → contains t.flying_messages id
              ≡ contains s.flying_messages id
                && not (contains (map (λ item. item.msg_id) items) id))
  unfolding send_batch send_immediately forget retry_later
  Undelivered-batch locks sent s [] h = (refl, λ id. ground arith)
  Undelivered-batch locks sent s (item ∷ items) (inl busy) =
      rw busy (refl, λ id. contains-retain (λ i. not (contains ids i)) s.flying_messages id)
    where
      ids : List MsgId
      ids = map (λ item. item.msg_id) (item ∷ items)
  Undelivered-batch locks delivered s (item ∷ items) (inr lost) = cc
  Undelivered-batch locks failed s (item ∷ items) (inr lost) =
      if_split
        (λ (t : CollabSink M).
          (t.message_queue ≡ s.message_queue)
          × ((id : MsgId)
              → contains t.flying_messages id
                ≡ contains s.flying_messages id && not (contains ids id)))
        locks.sender_free _ _ (λ _. forgotten) (λ _. forgotten)
    where
      ids : List MsgId
      ids = map (λ item. item.msg_id) (item ∷ items)

      forgotten :
          (s.message_queue ≡ s.message_queue)
          × ((id : MsgId)
              → contains (forget msg s ids).flying_messages id
                ≡ contains s.flying_messages id && not (contains ids id))
      forgotten = (refl, λ id. contains-retain (λ i. not (contains ids i)) s.flying_messages id)

  gathered-Undelivered :
      (locks : Locks) (sent : Sent) (s : CollabSink M)
      → Undelivered locks sent
      → let (items, queue, flying) = get_next_batch_item msg s.flying_messages s.message_queue in
        SameWork s
          (send_batch msg locks sent
            (record s { message_queue = queue; flying_messages = flying })
            items).0
  gathered-Undelivered locks sent s h =
      let b = get_next_batch_item msg s.flying_messages s.message_queue in
      let batch = get_next_batch_item-IsBatch msg s.flying_messages s.message_queue in
      let (same, flying) =
        Undelivered-batch locks sent (record s { message_queue = b.1; flying_messages = b.2 }) b.0
          h in
      record {
        queue = rw same (batch.queue_perm);
        flying = λ id. ground (
          arith,
          flying id,
          batch.flying_after id,
          sendable_ids s.flying_messages b.0 id batch.sendable,
        );
      }

  -- Where the sink is paused, a lock is held, or the send fails, `process_next_msg` leaves the same
  -- messages queued and the same ids in flight, so that nothing is lost and all can be sent again.
  pub process_next_msg-SameWork :
      (locks : Locks) (sent : Sent) (s : CollabSink M)
      → (s.pause ≡ true)
        ⊎ (locks.message_queue_free && locks.flying_messages_free ≡ false)
        ⊎ Undelivered locks sent
      → SameWork s (process_next_msg msg locks sent s).0
  unfolding process_next_msg
  process_next_msg-SameWork locks sent s (inl paused) =
      rw paused (record { queue = Perm.refl _; flying = λ id. refl })
  process_next_msg-SameWork locks sent s (inr (inl held)) =
      if_split {A = CollabSink M × List (QueueItem M)} (λ p. SameWork s p.0) s.pause _ _
        (λ _. record { queue = Perm.refl _; flying = λ id. refl })
        (λ _. rw held (unfold retry_later in record { queue = Perm.refl _; flying = λ id. refl }))
  process_next_msg-SameWork locks sent s (inr (inr lost)) =
      if_split {A = CollabSink M × List (QueueItem M)} (λ p. SameWork s p.0) s.pause _ _
        (λ _. record { queue = Perm.refl _; flying = λ id. refl })
        (λ _.
          if_split {A = CollabSink M × List (QueueItem M)} (λ p. SameWork s p.0)
            (not (locks.message_queue_free && locks.flying_messages_free)) _ _
            (λ _. unfold retry_later in record { queue = Perm.refl _; flying = λ id. refl })
            (λ _. gathered-Undelivered locks sent s lost))
