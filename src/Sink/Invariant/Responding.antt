-- ===== src/Sink/Invariant/Responding.antt =====
-- `validate_response` of sink.rs keeps the invariant.
use flow_cloud.Base.{
  ◌≡◌, inl, inr, Bool, some, List, [], ◌∷◌, arith, contains, nat_eq, Option-cases, nat_beq_iff, not,
  ◌==◌, if_split, List-cases,
}
use flow_cloud.Base.Heap.{pop}
use flow_cloud.Base.Heap.Total.{total-append, total-pop, contains-retain}
use flow_cloud.Entity.Payload.{CollabApi, MsgId}
use flow_cloud.Entity.Server
use flow_cloud.Entity.Server.{ServerCollabMessage}
use flow_cloud.Sink.Queue.{SinkMessage, QueueItem, item_cmp}
use flow_cloud.Sink.Merge.Flying.{with_id}
use flow_cloud.Sink.{CollabSink, validate_response, validate_id, accept, finish}
use flow_cloud.Sink.Invariant.{IsSound}

module _ {M E : Type 0} (msg : SinkMessage M E) where
  finish-IsSound : (s : CollabSink M) → IsSound s → IsSound (finish msg s)
  unfolding finish
  finish-IsSound s v = elim (List-cases s.message_queue) [
    | inl e ↦
        rw (e, finish)
          (record { flying_queued = v.flying_queued; used_once = v.used_once; fresh = v.fresh })
    | inr (item, items, e) ↦ rw (e, finish) v
  ]

  accept-IsSound :
      (s : CollabSink M) (income : MsgId)
      → IsSound s
      → IsSound (accept msg s income (pop (item_cmp msg) s.message_queue)).0
  accept-IsSound s income v = elim (Option-cases (pop (item_cmp msg) s.message_queue)) [
    | inl e ↦ rw e (unfold accept in v)
    | inr ((current, rest), e) ↦ rw e (go current rest e)
  ]
    where
      go :
          (current : QueueItem M) (rest : List (QueueItem M))
          → pop (item_cmp msg) s.message_queue ≡ some (current, rest)
          → IsSound (accept msg s income (some (current, rest))).0
      go current rest e =
          let at =
            λ (id : MsgId). total-pop (with_id id) (item_cmp msg) s.message_queue current rest e in
          let back = λ (id : MsgId). total-append (with_id id) rest (current ∷ []) in
          unfold accept in
          if_split {A = CollabSink M × Bool} (λ p. IsSound p.0) (not (current.msg_id == income)) _ _
            (λ other. record {
              flying_queued = λ id h. omega (arith, at id, back id, v.flying_queued id h);
              used_once = λ id. omega (arith, at id, back id, v.used_once id);
              fresh = λ id h. omega (arith, at id, back id, v.fresh id h);
            })
            (λ same. record {
              flying_queued = λ id h. ground (
                arith,
                at id,
                contains-retain (λ i. not (i == income)) s.flying_messages id,
                v.flying_queued id,
                nat_beq_iff current.msg_id income,
              );
              used_once = λ id. omega (arith, at id, v.used_once id);
              fresh = λ id h. omega (arith, at id, v.fresh id h);
            })

  pub validate_response-IsSound :
      {c : CollabApi} (s : CollabSink M) (message : ServerCollabMessage c)
      → IsSound s
      → IsSound (validate_response msg s message).0
  unfolding validate_response
  validate_response-IsSound s message v = elim (Option-cases (Server.msg_id message)) [
    | inl e ↦ rw (e, validate_response) v
    | inr (income, e) ↦ rw (e, validate_response) (go income)
  ]
    where
      go : (income : MsgId) → IsSound (validate_id msg s income).0
      go income =
          unfold validate_id in
          if_split {A = CollabSink M × Bool} (λ p. IsSound p.0)
            (not (contains s.flying_messages income)) _ _ (λ _. v)
            (λ _. finish-IsSound _ (accept-IsSound s income v))
