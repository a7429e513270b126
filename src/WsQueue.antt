-- ===== src/WsQueue.antt =====
-- lib/client-api/src/ws/msg_queue.rs: the queue in front of the client's WebSocket, which sends what
-- the sinks of all objects hand over, grouped by object.
pub mod Batches
use flow_cloud.Base.{
  ℕ, zero, suc, ◌+◌, Bool, true, false, ◌||◌, none, some, List, [], ◌∷◌, ◌++◌, Text, length, ltb,
  list_eq, nat_eq, ◌==◌, if◌then◌else◌,
}
use flow_cloud.Base.Heap.{pop, push}
use flow_cloud.Entity.Payload.{CollabApi}
use flow_cloud.Entity.Client
use flow_cloud.Entity.Client.{ClientCollabMessage}
use flow_cloud.Entity.Realtime.{MessageByObjectId}

abbrev pub maximum_init_sync : ℕ
maximum_init_sync = 10

-- The task that `set_sender` starts is the ticks below; a new sender stops the task of the old one.
pub record AggregateMessageQueue (c : CollabApi) : Type 0 where
  pub maximum_payload_size : ℕ
  pub queue : List (ClientCollabMessage c)

-- The variables of the loop.
pub record Batch (c : CollabApi) : Type 0 where
  pub messages_map : MessageByObjectId c
  pub size : ℕ
  pub init_sync_count : ℕ
  pub queue : List (ClientCollabMessage c)

module _ {c : CollabApi} where
  unfoldable pub new : ℕ → AggregateMessageQueue c
  new maximum_payload_size = record { maximum_payload_size = maximum_payload_size; queue = [] }

  unfoldable pub push_all :
      AggregateMessageQueue c → List (ClientCollabMessage c) → AggregateMessageQueue c
  push_all q [] = q
  push_all q (msg ∷ msgs) = push_all (record q { queue = push q.queue msg }) msgs

  unfoldable pub clear : AggregateMessageQueue c → AggregateMessageQueue c
  clear q = record q { queue = [] }

  -- `entry(id).or_insert(vec![]).push(msg)`
  pub push_entry : MessageByObjectId c → Text → ClientCollabMessage c → MessageByObjectId c
  push_entry [] id msg = (id, msg ∷ []) ∷ []
  push_entry ((key, msgs) ∷ m) id msg =
      let rest = push_entry m id msg in
      if key == id then (key, msgs ++ msg ∷ []) ∷ m else (key, msgs) ∷ rest

  -- One round of the loop, with the message that it has popped.
  unfoldable pub add_message :
      Batch c → ClientCollabMessage c → List (ClientCollabMessage c) → Batch c
  add_message b msg rest = record {
    messages_map = push_entry b.messages_map (Client.object_id msg) msg;
    size = b.size + Client.size msg;
    init_sync_count = if Client.is_init_sync msg then b.init_sync_count + 1 else b.init_sync_count;
    queue = rest;
  }

  unfoldable pub is_full : ℕ → Batch c → Bool
  is_full maximum b = ltb maximum_init_sync b.init_sync_count || ltb maximum b.size

  -- `while let Some(msg) = lock_guard.pop()`; each round makes the heap smaller, so its size at the
  -- start is fuel enough.
  unfoldable pub message_loop : ℕ → ℕ → Batch c → Batch c
  message_loop zero maximum b = b
  message_loop (suc fuel) maximum b = elim (pop Client.cmp b.queue) [
    | none ↦ b
    | some (msg, rest) ↦
        let more = add_message b msg rest in
        let next = message_loop fuel maximum more in if is_full maximum more then more else next
  ]

  unfoldable pub next_batch_message : ℕ → List (ClientCollabMessage c) → Batch c
  next_batch_message maximum queue =
      message_loop (length queue) maximum
        (record { messages_map = []; size = 0; init_sync_count = 0; queue = queue })

  -- One tick: the queue afterwards, and the map that is handed to the sender, if it is not empty.
  unfoldable pub tick : AggregateMessageQueue c → AggregateMessageQueue c × MessageByObjectId c
  tick q =
      let b = next_batch_message q.maximum_payload_size q.queue in
      (record q { queue = b.queue }, b.messages_map)
