-- ===== src/Sink/Merge/Loss.antt =====
-- A message that cannot be merged into the one before it is dropped, since `Ok(false)` counts as a
-- success of the merge.
use flow_cloud.Base.{ℕ, ◌<◌, ◌≡◌, false, none, [], ◌∷◌, arith, length, nat_eq, ok}
use flow_cloud.Base.Heap.{pop}
use flow_cloud.Protocol.Codec.{Codec}
use flow_cloud.Entity.Payload.{CollabApi, UpdateSync, update_bytes, as_update, merge_payload}
use flow_cloud.Entity.Client
use flow_cloud.Entity.Client.{ClientCollabMessage, client_update_sync}
use flow_cloud.Sink.Queue.{QueueItem, client_sink_message}
use flow_cloud.Sink.Merge.{merge_step, merge_loop, merge_items}

module _ (y : Codec) {c : CollabApi} where
  abbrev pub item_of : UpdateSync c → QueueItem (ClientCollabMessage c)
  item_of u = record { inner = client_update_sync u; msg_id = u.msg_id }

  merge_payload-none :
      (a b : UpdateSync c)
      → update_bytes (as_update y b) ≡ none
      → merge_payload y a b ≡ ok (a, false)
  unfolding merge_payload
  merge_payload-none a b h = ground arith

  -- Of two update messages in the queue, neither in flight, the first below the size limit, a merge
  -- keeps the first as it was and drops the second, whenever the payload of the second is no
  -- document update (an awareness update or a sync step, for instance).
  pub merge_drops :
      (max : ℕ) (a b : UpdateSync c)
      → length a.payload < max
      → a.msg_id < b.msg_id
      → update_bytes (as_update y b) ≡ none
      → merge_items (client_sink_message y c) max [] (item_of a ∷ item_of b ∷ []) ≡ item_of a ∷ []
  unfolding merge_items merge_loop merge_step pop Client.cmp Client.msg_id Client.size Client.merge
      Client.is_update_sync
  merge_drops max a b small older other = ground (arith, merge_payload-none a b other)
