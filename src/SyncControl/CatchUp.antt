-- ===== src/SyncControl/CatchUp.antt =====
-- What sync_control.rs does with the server's answer to an init sync: `process_message`.
use flow_cloud.Base.{
  ◌≡◌, refl, sym, ◌∙◌, ap, ◌≤◌, ◌<◌, Bool, true, false, ◌||◌, Option, none, some, List, [], ◌∷◌,
  ◌++◌, Result, ok, err, ℕ, zero, suc, length, length-append, arith, List-cases, inl, inr,
}
use flow_cloud.Protocol.Codec.{Bytes, Codec, IsLawful}
use flow_cloud.Protocol.Message.{Message, sync, sync_step1, sync_step2, encode, next}
use flow_cloud.Protocol.RoundTrip.{encode_all, next-encode, next-empty}
use flow_cloud.Protocol.Replica.{Replica, IsLawful as IsLawfulReplica}
use flow_cloud.Protocol.Handlers.{Error, client_sync_protocol, handle_collab_message}
use flow_cloud.Protocol.Handlers.Converge.{step1_answered, step2_applied}
use flow_cloud.Entity.Payload.{CollabApi}
use flow_cloud.Entity.Client.{ClientCollabMessage}
use flow_cloud.Entity.Server
use flow_cloud.Entity.Server.{ServerCollabMessage}
use flow_cloud.Sink.{CollabSink, Locks, queue_msg, validate_response, notify}
use flow_cloud.SyncControl.{
  SyncError, SyncObject, Moment, Observer, message, is_sync_step1, reply_message, Processed,
  sync_error, queue_reply, process_results, process_payload, rejects, observe_broadcast, finish,
  is_empty, accept_message, process_message, read_results,
}

module _ {y : Codec} (laws : IsLawful y) where
  abbrev results : List (Message y) → List (Result (Message y) y.ReadError)
  results [] = []
  results (m ∷ ms) = ok m ∷ results ms

  read_results-encode_all :
      (fuel : ℕ) (ms : List (Message y))
      → length ms < fuel
      → read_results fuel (encode_all y ms) ≡ results ms
  unfolding read_results
  read_results-encode_all zero ms h = absurd (omega arith)
  read_results-encode_all (suc fuel) [] h = rw (next-empty y laws, read_results) refl
  read_results-encode_all (suc fuel) (m ∷ ms) h =
      rw (next-encode y laws m (encode_all y ms), read_results)
        (ap (λ l. ok m ∷ l) (read_results-encode_all fuel ms (omega (arith, h))))

  encode-nonempty : (m : Message y) → 1 ≤ length (encode y m)
  encode-nonempty m = elim (List-cases (encode y m)) [
    | inl e ↦ absurd (
        cc (sym (next-empty y laws) ∙ ap (λ b. next y (b ++ [])) (sym e) ∙ next-encode y laws m []))
    | inr (b, bytes, e) ↦ rw e (omega arith)
  ]

  -- A message takes at least one byte.
  length-encode_all : (ms : List (Message y)) → length ms ≤ length (encode_all y ms)
  length-encode_all [] = omega arith
  length-encode_all (m ∷ ms) =
      omega (
        arith,
        encode-nonempty m,
        length-encode_all ms,
        length-append (encode y m) (encode_all y ms),
      )

module _ {y : Codec} (laws : IsLawful y) (r : Replica y) (lawful : IsLawfulReplica r)
    {c : CollabApi} (origin : c.Origin) (object : SyncObject c) where
  -- What the server of a document answers to a client with this state vector.
  abbrev pub server_answer : r.Awareness → y.StateVector → Bytes
  server_answer server sv = encode_all y (
      sync (sync_step2 (r.encode_state_as_update server sv))
      ∷ sync (sync_step1 (r.state_vector server))
      ∷ [])

  -- The sink, after the client has answered the server's step 1.
  abbrev pub replied :
      Locks
      → c.Origin
      → r.Awareness
      → r.Awareness
      → CollabSink (ClientCollabMessage c)
      → CollabSink (ClientCollabMessage c)
  replied locks msg_origin a server sink = queue_msg (message r origin object) locks sink (
      reply_message r origin object msg_origin true
        (encode y (sync (sync_step2 (r.encode_state_as_update a (r.state_vector server))))))

  -- A message that is handled without an error, and the messages after it.
  process_results-cons :
      (locks : Locks) (msg_origin : c.Origin) (sink sink' : CollabSink (ClientCollabMessage c))
      (a a' : r.Awareness) (m : Message y) (result : Result (Option Bytes) (Error y))
      (more : List (Result (Message y) y.ReadError))
      → handle_collab_message r (client_sync_protocol r) a m ≡ (a', result)
      → queue_reply r origin object locks msg_origin (is_sync_step1 m) sink result ≡ ok sink'
      → process_results r origin object locks msg_origin sink a (ok m ∷ more)
        ≡ process_results r origin object locks msg_origin sink' a' more
  unfolding process_results
  process_results-cons locks msg_origin sink sink' a a' m result more h k =
      ap
        (λ (p : r.Awareness × Result (Option Bytes) (Error y)).
          elim (queue_reply r origin object locks msg_origin (is_sync_step1 m) sink p.1)
            as (λ _. Processed r origin object) [
              | ok s ↦ process_results r origin object locks msg_origin s p.0 more
              | err e ↦ (sink, p.0, err (sync_error e))
            ])
        h
      ∙ ap
          (λ q. elim q as (λ _. Processed r origin object) [
            | ok s ↦ process_results r origin object locks msg_origin s a' more
            | err e ↦ (sink, a', err (sync_error e))
          ])
          k

  process_results-answer :
      (locks : Locks) (msg_origin : c.Origin) (sink : CollabSink (ClientCollabMessage c))
      (a a' server : r.Awareness) (u : r.Update)
      → r.is_free a ≡ true
      → r.decode_update (r.encode_state_as_update server (r.state_vector a)) ≡ ok u
      → r.apply_update a u ≡ some a'
      → r.is_free a' ≡ true
      → process_results r origin object locks msg_origin sink a (
          results laws (
            sync (sync_step2 (r.encode_state_as_update server (r.state_vector a)))
            ∷ sync (sync_step1 (r.state_vector server))
            ∷ []))
        ≡ (replied locks msg_origin a' server sink, a', ok tt)
  unfolding process_results queue_reply
  process_results-answer locks msg_origin sink a a' server u free decodes applies free' =
      process_results-cons locks msg_origin sink sink a a' _ (ok none)
        (ok (sync (sync_step1 (r.state_vector server))) ∷ [])
        (step2_applied laws r lawful (client_sync_protocol r) a a' _ u free decodes applies) refl
      ∙ process_results-cons locks msg_origin sink (replied locks msg_origin a' server sink) a' a' _
          (ok (
            some
              (encode y (sync (sync_step2 (r.encode_state_as_update a' (r.state_vector server)))))))
          [] (step1_answered laws r lawful a' (r.state_vector server) free') refl

  -- The state after a message of the server, by whether the sink has accepted it.
  abbrev pub CatchesUp :
      Moment
      → Observer c
      → r.Awareness
      → r.Awareness
      → ServerCollabMessage c
      → CollabSink (ClientCollabMessage c) × Bool
      → Observer c × r.Awareness × Result (Unit {0}) (SyncError y)
      → Type 0
  CatchesUp t seen a server msg (sink, true) (o', a', result) =
      (result ≡ ok tt)
      × ((e : r.Edit) → r.has a' e ≡ r.has a e || r.has server e)
      × (o' ≡ record seen {
        sink =
            notify (message r origin object) (replied t.locks (Server.origin msg) a' server sink);
      })
  CatchesUp t seen a server msg (sink, false) p = p ≡ (record seen { sink = sink }, a, ok tt)

  answer-nonempty :
      (server : r.Awareness) (sv : y.StateVector)
      → is_empty r origin object (server_answer server sv) ≡ false
  unfolding is_empty
  answer-nonempty server sv =
      let long = length-encode_all laws (
        sync (sync_step2 (r.encode_state_as_update server sv))
        ∷ sync (sync_step1 (r.state_vector server))
        ∷ []) in
      elim (List-cases (server_answer server sv)) [
        | inl e ↦ absurd (omega (arith, long, ap (length {A = ℕ}) e))
        | inr (b, bytes, e) ↦ ap (is_empty r origin object) e
      ]

  process_payload-answer :
      (t : Moment) (msg_origin : c.Origin) (sink : CollabSink (ClientCollabMessage c))
      (a a' server : r.Awareness) (u : r.Update)
      → t.collab_free ≡ true
      → r.is_free a ≡ true
      → r.decode_update (r.encode_state_as_update server (r.state_vector a)) ≡ ok u
      → r.apply_update a u ≡ some a'
      → r.is_free a' ≡ true
      → process_payload r origin object t msg_origin
          (server_answer server (r.state_vector a))
          sink
          a
        ≡ (replied t.locks msg_origin a' server sink, a', ok tt)
  unfolding process_payload
  process_payload-answer t msg_origin sink a a' server u got free decodes applies free' =
      let ms =
        sync (sync_step2 (r.encode_state_as_update server (r.state_vector a)))
        ∷ sync (sync_step1 (r.state_vector server))
        ∷ [] in
      rw (got, process_payload)
        (ap (process_results r origin object t.locks msg_origin sink a) (
            read_results-encode_all laws (suc (length (encode_all y ms))) ms
              (omega (arith, length-encode_all laws ms)))
          ∙ process_results-answer t.locks msg_origin sink a a' server u free decodes applies free')

  accepted :
      (t : Moment) (seen : Observer c) (a server : r.Awareness) (msg : ServerCollabMessage c)
      (sink : CollabSink (ClientCollabMessage c)) (valid : Bool)
      → validate_response (message r origin object) seen.sink msg ≡ (sink, valid)
      → Server.payload msg ≡ server_answer server (r.state_vector a)
      → t.collab_free ≡ true
      → r.is_free a ≡ true
      → CatchesUp t seen a server msg
          (sink, valid)
          (let p = accept_message r origin object t a seen.sink msg in
            (record seen { sink = p.0 }, p.1, p.2))
  unfolding accept_message finish
  accepted t seen a server msg sink false valid answer got free = rw (valid, accept_message) refl
  accepted t seen a server msg sink true valid answer got free =
      let (u, a', decodes, applies, free', has) =
        lawful.exchanged server a (r.state_vector a)
          (λ e h. sym (lawful.covers-state_vector a e) ∙ h) in
      let done : accept_message r origin object t a seen.sink msg ≡ (
        notify (message r origin object) (replied t.locks (Server.origin msg) a' server sink),
        a',
        ok tt,
      ) =
        rw
          (
            valid,
            answer,
            answer-nonempty server (r.state_vector a),
            process_payload-answer t (Server.origin msg) sink a a' server u got free decodes applies
                (free' ∙ free),
            accept_message,
          )
          refl in
      rw done (refl, λ e. ground (arith, has e, lawful.covers-state_vector a e), refl)

  -- With a lawful codec and lawful replicas, when the client's document is at hand and ready for a
  -- transaction: a message that carries the server's answer to the client's sync step 1, and is not the
  -- refusal of an update, is applied exactly if the sink accepts it. If it does, the client has
  -- afterwards the edits that either side had, the update for the server's state vector is queued as
  -- an init reply, and the sink is notified. If it does not, the document stays as it is and nothing
  -- is queued. Both are said of the sink as `observe_broadcast` leaves it.
  pub process_message-CatchesUp :
      (debounce : ℕ) (t : Moment) (o : Observer c) (a server : r.Awareness)
      (msg : ServerCollabMessage c)
      → rejects r origin object msg ≡ false
      → Server.payload msg ≡ server_answer server (r.state_vector a)
      → t.collab_free ≡ true
      → r.is_free a ≡ true
      → let seen = observe_broadcast r origin object debounce t a o msg in
        CatchesUp t seen a server msg
          (validate_response (message r origin object) seen.sink msg)
          (process_message r origin object debounce t o a msg)
  unfolding process_message
  process_message-CatchesUp debounce t o a server msg kept answer got free =
      let seen = observe_broadcast r origin object debounce t a o msg in
      let v = validate_response (message r origin object) seen.sink msg in
      rw (kept, process_message) (accepted t seen a server msg v.0 v.1 refl answer got free)
