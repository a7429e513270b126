-- ===== src/Sink/Invariant/Run.antt =====
-- Every sequence of calls of sink.rs keeps the invariant.
use flow_cloud.Base.{◌+◌, ◌^◌, ◌<◌, ◌≡◌, refl, Bool, true, List, [], ◌∷◌, nat_eq, arith}
use flow_cloud.Entity.Payload.{CollabApi}
use flow_cloud.Sink.Queue.{SinkMessage}
use flow_cloud.Sink.Steps.{
  Event, ticks, queues, queues_init, clears, pauses, resumes, notifies, validates, processes, step,
  run,
}
use flow_cloud.Sink.{
  SinkSignal, SinkState, SinkConfig, new, CollabSink, send_interval_tick, pause_sink, resume,
  notify,
}
use flow_cloud.Sink.Invariant.{IsSound}
use flow_cloud.Sink.Invariant.Queueing.{queue_msg-IsSound, clear-IsSound, queue_init_sync-IsSound}
use flow_cloud.Sink.Invariant.Responding.{validate_response-IsSound}
use flow_cloud.Sink.Invariant.Sending.{process_next_msg-IsSound}

module _ {M E : Type 0} (msg : SinkMessage M E) where
  -- What an event needs: the id counter does not wrap, and a call that clears the queue finds the
  -- lock of the messages in flight free.
  abbrev pub Allowed : {c : CollabApi} → CollabSink M → Event M c → Type 0
  Allowed s (queues locks f) = s.msg_id_counter + 1 < 2 ^ 64
  Allowed s (queues_init locks f) =
      (s.msg_id_counter + 1 < 2 ^ 64) × (locks.flying_messages_free ≡ true)
  Allowed s (clears locks) = locks.flying_messages_free ≡ true
  Allowed s _ = Unit

  pub step-IsSound :
      {c : CollabApi} (s : CollabSink M) (e : Event M c)
      → Allowed s e
      → IsSound s
      → IsSound (step msg s e)
  unfolding step
  step-IsSound s ticks h v =
      unfold send_interval_tick in
      record { flying_queued = λ id k. cc; used_once = v.used_once; fresh = v.fresh }
  step-IsSound s (queues locks f) h v = queue_msg-IsSound msg locks s f h v
  step-IsSound s (queues_init locks f) h v = queue_init_sync-IsSound msg locks s f h.0 h.1 v
  step-IsSound s (clears locks) h v = clear-IsSound msg locks s h v
  step-IsSound s pauses h v =
      unfold pause_sink in
      record { flying_queued = v.flying_queued; used_once = v.used_once; fresh = v.fresh }
  step-IsSound s resumes h v =
      unfold resume notify in
      record { flying_queued = v.flying_queued; used_once = v.used_once; fresh = v.fresh }
  step-IsSound s notifies h v =
      unfold notify in
      record { flying_queued = v.flying_queued; used_once = v.used_once; fresh = v.fresh }
  step-IsSound s (validates message) h v = validate_response-IsSound msg s message v
  step-IsSound s (processes locks sent) h v = process_next_msg-IsSound msg locks sent s v

  abbrev pub AllAllowed : {c : CollabApi} → CollabSink M → List (Event M c) → Type 0
  AllAllowed s [] = Unit
  AllAllowed s (e ∷ es) = Allowed s e × AllAllowed (step msg s e) es

  run-Keeps :
      {c : CollabApi} (s : CollabSink M) (es : List (Event M c))
      → AllAllowed s es
      → IsSound s
      → IsSound (run msg s es)
  unfolding run
  run-Keeps s [] h v = v
  run-Keeps s (e ∷ es) h v = run-Keeps (step msg s e) es h.1 (step-IsSound s e h.0 v)

  new-IsSound :
      (notifier : SinkSignal) (sync_state : SinkState) (config : SinkConfig) (pause : Bool)
      → IsSound (new msg notifier sync_state config pause)
  unfolding new
  new-IsSound notifier sync_state config pause = record {
    flying_queued = λ id h. cc;
    used_once = λ id. omega arith;
    fresh = λ id h. refl;
  }

  -- Whatever events happen to a new sink, as long as its id counter does not wrap and a clearing call
  -- finds the lock of the messages in flight free: every id in flight is queued, no id is queued
  -- twice, and no id from the counter on is queued.
  pub run-IsSound :
      {c : CollabApi} (notifier : SinkSignal) (sync_state : SinkState) (config : SinkConfig)
      (pause : Bool) (es : List (Event M c))
      → AllAllowed (new msg notifier sync_state config pause) es
      → IsSound (run msg (new msg notifier sync_state config pause) es)
  run-IsSound notifier sync_state config pause es h =
      run-Keeps (new msg notifier sync_state config pause) es h
        (new-IsSound notifier sync_state config pause)
