-- ===== src/Sink/Invariant.antt =====
-- The invariant of the sink of lib/client-api/src/collab_sync/sink.rs.
pub mod Queueing
pub mod Responding
pub mod Sending
pub mod Run
use flow_cloud.Base.{ℕ, ◌≤◌, ◌≡◌, true, contains, nat_eq}
use flow_cloud.Base.Heap.Total.{total}
use flow_cloud.Entity.Payload.{MsgId}
use flow_cloud.Sink.Merge.Flying.{with_id}
use flow_cloud.Sink.{CollabSink}

module _ {M : Type 0} where
  -- How many queued messages have an id.
  abbrev pub queued : MsgId → CollabSink M → ℕ
  queued id s = total (with_id id) s.message_queue

  -- Every id in flight is queued; no id is queued twice; ids from the counter on are not queued.
  pub record IsSound (s : CollabSink M) : Type 0 where
    pub flying_queued : (id : MsgId) → contains s.flying_messages id ≡ true → 1 ≤ queued id s
    pub used_once : (id : MsgId) → queued id s ≤ 1
    pub fresh : (id : MsgId) → s.msg_id_counter ≤ id → queued id s ≡ 0
