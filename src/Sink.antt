-- ===== src/Sink.antt =====
-- lib/client-api/src/collab_sync/sink.rs: the client's queue of messages to the server. One call or
-- task runs at a time; `Locks` says which locks another task holds when a `try_lock` is made.
-- The receivers of the two notifiers are alive, so that a send stores its value.
pub mod Queue
pub mod Batch
pub mod Merge
pub mod Steps
pub mod Invariant
pub mod Responses
pub mod Sending
use flow_cloud.Base.{
  ℕ, ◌+◌, ◌%◌, ◌^◌, Bool, true, false, not, ◌&&◌, Option, none, some, List, [], ◌∷◌, ◌++◌, map,
  Text, Result, ok, err, if◌then◌else◌, contains, retain, nat_eq, ◌==◌, length,
}
use flow_cloud.Base.Heap.{pop, peek, push, extend}
use flow_cloud.Entity.Payload.{CollabApi, MsgId}
use flow_cloud.Entity.Server
use flow_cloud.Entity.Server.{ServerCollabMessage}
use Queue.{SinkMessage, QueueItem, item_cmp}
use Batch.{get_next_batch_item}
use Merge.{merge_items}

pub data SinkState : Type 0 where
  init syncing finished paused : SinkState

unfoldable pub is_syncing : SinkState → Bool
is_syncing syncing = true
is_syncing _ = false

pub data SinkSignal : Type 0 where
  stop proceed : SinkSignal
  process_after_millis : ℕ → SinkSignal

abbrev pub collab_sink_delay_millis : ℕ
collab_sink_delay_millis = 500

pub record SinkConfig : Type 0 where
  pub send_timeout : ℕ
  pub maximum_payload_size : ℕ
  pub disable_merge_message : Bool

pub record CollabSink (M : Type 0) : Type 0 where
  pub message_queue : List (QueueItem M)
  pub msg_id_counter : ℕ
  pub notifier : SinkSignal
  pub config : SinkConfig
  pub state_notifier : SinkState
  pub pause : Bool
  pub flying_messages : List MsgId

-- Whether `try_lock` finds each lock free.
pub record Locks : Type 0 where
  pub message_queue_free : Bool
  pub flying_messages_free : Bool
  pub sender_free : Bool

-- What became of the `send` of a batch.
pub data Sent : Type 0 where
  delivered failed : Sent

module _ {M E : Type 0} (msg : SinkMessage M E) where
  -- The two notifiers are the caller's, with the values that they hold.
  unfoldable pub new : SinkSignal → SinkState → SinkConfig → Bool → CollabSink M
  new notifier sync_state config pause = record {
    message_queue = [];
    msg_id_counter = 0;
    notifier = notifier;
    config = config;
    state_notifier = sync_state;
    pause = pause;
    flying_messages = [];
  }

  -- The task of `new`, each 8 seconds: the messages in flight may be sent again.
  unfoldable pub send_interval_tick : CollabSink M → CollabSink M
  send_interval_tick s = record s { flying_messages = []; notifier = proceed }

  -- `fetch_add` on an `AtomicU64` wraps.
  unfoldable pub next_id : CollabSink M → MsgId × CollabSink M
  next_id s = (s.msg_id_counter, record s { msg_id_counter = (s.msg_id_counter + 1) % 2 ^ 64 })

  unfoldable pub start_syncing : CollabSink M → CollabSink M
  start_syncing s =
      if not (is_syncing s.state_notifier) then record s { state_notifier = syncing } else s

  unfoldable pub push_msg : CollabSink M → (MsgId → M) → CollabSink M
  unfolding next_id
  push_msg s f =
      let (id, t) = next_id s in
      record t { message_queue = push t.message_queue (record { inner = f id; msg_id = id }) }

  unfoldable pub merge : Locks → CollabSink M → CollabSink M
  merge locks s =
      if s.config.disable_merge_message
      then s
      else if locks.flying_messages_free && locks.message_queue_free
      then record s {
        message_queue =
            merge_items msg s.config.maximum_payload_size s.flying_messages s.message_queue;
      }
      else s

  unfoldable pub queue_msg : Locks → CollabSink M → (MsgId → M) → CollabSink M
  unfolding start_syncing push_msg
  queue_msg locks s f =
      let t = push_msg (start_syncing s) f in
      merge locks (record t { notifier = process_after_millis collab_sink_delay_millis })

  unfoldable pub clear : Locks → CollabSink M → CollabSink M
  clear locks s =
      let t = if locks.message_queue_free then record s { message_queue = [] } else s in
      if locks.flying_messages_free then record t { flying_messages = [] } else t

  unfoldable pub queue_init_sync : Locks → CollabSink M → (MsgId → M) → CollabSink M
  unfolding start_syncing push_msg
  queue_init_sync locks s f =
      let t = push_msg (clear locks (start_syncing s)) f in record t { notifier = proceed }

  unfoldable pub can_queue_init_sync : CollabSink M → Bool
  can_queue_init_sync s = elim (peek (item_cmp msg) s.message_queue) [
    | none ↦ true
    | some item ↦ if msg.is_client_init_sync item.inner then false else true
  ]

  unfoldable pub pause_sink : CollabSink M → CollabSink M
  pause_sink s = record s { pause = true; state_notifier = paused }

  unfoldable pub notify : CollabSink M → CollabSink M
  notify s = record s { notifier = proceed }

  unfoldable pub resume : CollabSink M → CollabSink M
  unfolding notify
  resume s = notify (record s { pause = false })

  retry_later : CollabSink M → CollabSink M
  retry_later s = record s { notifier = process_after_millis 200 }

  -- The end of `validate_response`: an empty queue is reported.
  finish : CollabSink M → CollabSink M
  finish s = elim s.message_queue [ [] ↦ record s { state_notifier = finished } | item ∷ items ↦ s ]

  accept : CollabSink M → MsgId → Option (QueueItem M × List (QueueItem M)) → CollabSink M × Bool
  accept s income none = (s, false)
  accept s income (some (current, rest)) =
      if not (current.msg_id == income)
      then (record s { message_queue = push rest current }, false)
      else (
        record s {
          message_queue = rest;
          flying_messages = retain (λ id. not (id == income)) s.flying_messages;
        },
        true,
      )

  validate_id : CollabSink M → MsgId → CollabSink M × Bool
  unfolding accept finish
  validate_id s income =
      if not (contains s.flying_messages income)
      then (s, false)
      else (let (t, is_valid) = accept s income (pop (item_cmp msg) s.message_queue) in
          (finish t, is_valid))

  unfoldable pub validate_response :
      {c : CollabApi} → CollabSink M → ServerCollabMessage c → CollabSink M × Bool
  unfolding validate_id
  validate_response s server_message = elim (Server.msg_id server_message) [
    | none ↦ (s, true)
    | some income ↦ validate_id s income
  ]

  forget : CollabSink M → List MsgId → CollabSink M
  forget s message_ids = record s {
    flying_messages = retain (λ id. not (contains message_ids id)) s.flying_messages;
  }

  unfoldable pub send_immediately : Locks → Sent → CollabSink M → List (QueueItem M) → CollabSink M
  unfolding forget retry_later
  send_immediately locks sent s items =
      let message_ids = map (λ item. item.msg_id) items in
      if locks.sender_free
      then elim sent [ delivered ↦ s | failed ↦ forget s message_ids ]
      else retry_later (forget s message_ids)

  -- The sink afterwards, and the batch that was handed to the sender, if one was.
  send_batch : Locks → Sent → CollabSink M → List (QueueItem M) → CollabSink M × List (QueueItem M)
  send_batch locks sent s [] = (s, [])
  send_batch locks sent s (item ∷ items) =
      (send_immediately locks sent s (item ∷ items), if locks.sender_free then item ∷ items else [])

  unfoldable pub process_next_msg : Locks → Sent → CollabSink M → CollabSink M × List (QueueItem M)
  unfolding send_batch retry_later
  process_next_msg locks sent s =
      if s.pause
      then (s, [])
      else if not (locks.message_queue_free && locks.flying_messages_free)
      then (retry_later s, [])
      else (let (items, queue, flying) =
            get_next_batch_item msg s.flying_messages s.message_queue in
          send_batch locks sent (record s { message_queue = queue; flying_messages = flying })
            items)
