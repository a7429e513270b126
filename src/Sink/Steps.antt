-- ===== src/Sink/Steps.antt =====
-- The calls and tasks that change a sink, as events, and its runs.
use flow_cloud.Base.{List, [], ◌∷◌}
use flow_cloud.Entity.Payload.{CollabApi, MsgId}
use flow_cloud.Entity.Server.{ServerCollabMessage}
use flow_cloud.Sink.Queue.{SinkMessage}
use flow_cloud.Sink.{
  CollabSink, Locks, Sent, send_interval_tick, queue_msg, queue_init_sync, clear, pause_sink,
  resume, notify, validate_response, process_next_msg,
}

pub data Event (M : Type 0) (c : CollabApi) : Type 0 where
  ticks : Event M c
  queues : Locks → (MsgId → M) → Event M c
  queues_init : Locks → (MsgId → M) → Event M c
  clears : Locks → Event M c
  pauses : Event M c
  resumes : Event M c
  notifies : Event M c
  validates : ServerCollabMessage c → Event M c
  processes : Locks → Sent → Event M c

module _ {M E : Type 0} (msg : SinkMessage M E) {c : CollabApi} where
  unfoldable pub step : CollabSink M → Event M c → CollabSink M
  step s ticks = send_interval_tick msg s
  step s (queues locks f) = queue_msg msg locks s f
  step s (queues_init locks f) = queue_init_sync msg locks s f
  step s (clears locks) = clear msg locks s
  step s pauses = pause_sink msg s
  step s resumes = resume msg s
  step s notifies = notify msg s
  step s (validates message) = (validate_response msg s message).0
  step s (processes locks sent) = (process_next_msg msg locks sent s).0

  unfoldable pub run : CollabSink M → List (Event M c) → CollabSink M
  run s [] = s
  run s (e ∷ es) = run (step s e) es
