-- ===== src/Sink/Batch.antt =====
-- lib/client-api/src/collab_sync/sink.rs: `get_next_batch_item`.
pub mod Conserve
pub mod Priority
use flow_cloud.Base.{
  ℕ, zero, suc, Bool, true, false, none, some, List, [], ◌∷◌, ◌++◌, map, length, ltb, if◌then◌else◌,
  contains, nat_eq,
}
use flow_cloud.Base.Heap.{pop, push, extend}
use flow_cloud.Entity.Payload.{MsgId}
use flow_cloud.Sink.Queue.{SinkMessage, QueueItem, item_cmp}

-- The loop's variables.
pub record Gathered (M : Type 0) : Type 0 where
  pub items : List (QueueItem M)
  pub requeue_items : List (QueueItem M)
  pub msg_queue : List (QueueItem M)

-- The `HashSet` gains an id once.
abbrev pub insert_id : List MsgId → MsgId → List MsgId
insert_id flying id = if contains flying id then flying else flying ++ id ∷ []

abbrev pub insert_ids : List MsgId → List MsgId → List MsgId
insert_ids flying [] = flying
insert_ids flying (id ∷ ids) = insert_ids (insert_id flying id) ids

module _ {M E : Type 0} (msg : SinkMessage M E) where
  -- What the loop does with a popped item: whether it goes on, and its variables.
  unfoldable pub take_item : List MsgId → Gathered M → QueueItem M → Bool × Gathered M
  take_item flying g item =
      let kept = record g { requeue_items = push g.requeue_items item } in
      let taken = record kept { items = push g.items item } in
      if ltb 20 (length g.items)
      then (false, kept)
      else if contains flying item.msg_id
      then (false, kept)
      else if msg.is_client_init_sync item.inner
      then (false, taken)
      else (true, taken)

  -- `while let Some(item) = msg_queue.pop()`; each round makes the heap smaller, so its size at the
  -- start is fuel enough.
  unfoldable pub batch_loop : ℕ → List MsgId → Gathered M → Gathered M
  unfolding take_item
  batch_loop zero flying g = g
  batch_loop (suc fuel) flying g = elim (pop (item_cmp msg) g.msg_queue) [
    | none ↦ g
    | some (item, rest) ↦
        let (more, h) = take_item flying (record g { msg_queue = rest }) item in
        let next = batch_loop fuel flying h in if more then next else h
  ]

  -- The batch, the queue and the messages in flight afterwards.
  unfoldable pub get_next_batch_item :
      List MsgId → List (QueueItem M) → List (QueueItem M) × List (QueueItem M) × List MsgId
  get_next_batch_item flying queue =
      let g =
        batch_loop (length queue) flying
          (record { items = []; requeue_items = []; msg_queue = queue }) in
      (
        g.items,
        extend g.msg_queue g.requeue_items,
        insert_ids flying (map (λ item. item.msg_id) g.items),
      )
