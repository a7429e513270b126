-- ===== src/Sink/Merge.antt =====
-- lib/client-api/src/collab_sync/sink.rs: the loop of `merge`.
pub mod Flying
pub mod Loss
use flow_cloud.Base.{
  ℕ, zero, suc, not, ◌&&◌, Option, none, some, List, [], ◌∷◌, reverse, length, ltb, ok, err,
  if◌then◌else◌, contains, nat_eq,
}
use flow_cloud.Base.Heap.{pop}
use flow_cloud.Entity.Payload.{MsgId}
use flow_cloud.Sink.Queue.{SinkMessage, QueueItem, item_cmp}

module _ {M E : Type 0} (msg : SinkMessage M E) where
  -- `last.merge(&next, max).is_ok()`, as the last item afterwards; `Ok(false)` is a success too.
  pub merge_into : ℕ → QueueItem M → QueueItem M → Option (QueueItem M)
  merge_into max last next = elim (msg.merge last.inner next.inner max) [
    | ok (inner, merged) ↦ some (record last { inner = inner })
    | err e ↦ none
  ]

  -- One round of the loop, over the items collected so far, the last one first.
  unfoldable pub merge_step : ℕ → List MsgId → List (QueueItem M) → QueueItem M → List (QueueItem M)
  unfolding merge_into
  merge_step max flying [] next = next ∷ []
  merge_step max flying (last ∷ items) next =
      if contains flying next.msg_id
      then next ∷ last ∷ items
      else if not (contains flying last.msg_id)
          && (ltb (msg.payload_size last.inner) max && msg.mergeable last.inner)
      then elim (merge_into max last next) [
        | some merged ↦ merged ∷ items
        | none ↦ next ∷ last ∷ items
      ]
      else next ∷ last ∷ items

  -- `while let Some(next) = msg_queue.pop()`; each round makes the heap smaller, so its size at the
  -- start is fuel enough.
  pub merge_loop : ℕ → ℕ → List MsgId → List (QueueItem M) → List (QueueItem M) → List (QueueItem M)
  merge_loop zero max flying queue items = items
  merge_loop (suc fuel) max flying queue items = elim (pop (item_cmp msg) queue) [
    | none ↦ items
    | some (next, rest) ↦ merge_loop fuel max flying rest (merge_step max flying items next)
  ]

  -- The queue afterwards: it was emptied, and is extended by the items.
  unfoldable pub merge_items : ℕ → List MsgId → List (QueueItem M) → List (QueueItem M)
  merge_items max flying queue = reverse (merge_loop (length queue) max flying queue [])
