-- ===== src/Sink/Responses.antt =====
-- `validate_response`: which response of the server is accepted, and what it changes.
use mathlib.Core.List.{Perm, perm_append_singleton}
use mathlib.Core.List.Perm
use flow_cloud.Base.{
  ◌≡◌, ◌∙◌, refl, inl, inr, Bool, true, false, some, List, arith, contains, nat_eq, Option-cases,
  nat_beq_iff, not, ◌&&◌, ◌==◌, Bool-cases, List-cases,
}
use flow_cloud.Base.Heap.{pop}
use flow_cloud.Base.Heap.Laws.{pop-perm}
use flow_cloud.Base.Heap.Total.{contains-retain}
use flow_cloud.Entity.Payload.{CollabApi, MsgId}
use flow_cloud.Entity.Server
use flow_cloud.Entity.Server.{ServerCollabMessage}
use flow_cloud.Sink.Queue.{SinkMessage, QueueItem, item_cmp}
use flow_cloud.Sink.{CollabSink, validate_response, validate_id, accept, finish}

module _ {M E : Type 0} (msg : SinkMessage M E) where
  module _ (s : CollabSink M) where
    message_queue-finish : (finish msg s).message_queue ≡ s.message_queue
    unfolding finish
    message_queue-finish = elim (List-cases s.message_queue) [
      | inl e ↦ rw (e, finish) e
      | inr (item, items, e) ↦ rw (e, finish) e
    ]

    flying_messages-finish : (finish msg s).flying_messages ≡ s.flying_messages
    unfolding finish
    flying_messages-finish = elim (List-cases s.message_queue) [
      | inl e ↦ rw (e, finish)
      | inr (item, items, e) ↦ rw (e, finish)
    ]

  -- The head of the queue has the id, and is in flight.
  abbrev pub Awaited : CollabSink M → MsgId → Type 0
  Awaited s income =
      (current : QueueItem M) × (rest : List (QueueItem M)) × (pop (item_cmp msg) s.message_queue
        ≡ some (current, rest))
      × (current.msg_id ≡ income)
      × (contains s.flying_messages income ≡ true)

  -- What an accepted response changes: the head leaves the queue, and its id is no more in flight.
  pub record Accepts (s t : CollabSink M) (income : MsgId) : Type 0 where
    pub awaited : Awaited s income
    pub queue_after : t.message_queue ≡ awaited.1
    pub flying_after :
        (id : MsgId)
        → contains t.flying_messages id ≡ contains s.flying_messages id && not (id == income)

  -- A rejected response changes nothing but the heap's arrangement.
  pub record Rejects (s t : CollabSink M) (income : MsgId) : Type 0 where
    pub not_awaited : ¬ Awaited s income
    pub queue_after : Perm t.message_queue s.message_queue
    pub flying_after : t.flying_messages ≡ s.flying_messages

  abbrev pub Outcome : CollabSink M → CollabSink M → Bool → MsgId → Type 0
  Outcome s t true income = Accepts s t income
  Outcome s t false income = Rejects s t income

  finish-Outcome :
      (s t : CollabSink M) (valid : Bool) (income : MsgId)
      → Outcome s t valid income
      → Outcome s (finish msg t) valid income
  finish-Outcome s t true income h = record {
    awaited = h.awaited;
    queue_after = message_queue-finish t ∙ h.queue_after;
    flying_after = λ id. rw (flying_messages-finish t) (h.flying_after id);
  }
  finish-Outcome s t false income h = record {
    not_awaited = h.not_awaited;
    queue_after = rw (message_queue-finish t) h.queue_after;
    flying_after = flying_messages-finish t ∙ h.flying_after;
  }

  accept-Outcome :
      (s : CollabSink M) (income : MsgId)
      → contains s.flying_messages income ≡ true
      → let r = accept msg s income (pop (item_cmp msg) s.message_queue) in Outcome s r.0 r.1 income
  accept-Outcome s income flown = elim (Option-cases (pop (item_cmp msg) s.message_queue)) [
    | inl e ↦ rw e (
        unfold accept in
        record { not_awaited = λ h. cc (h.2, e); queue_after = Perm.refl _; flying_after = refl })
    | inr ((current, rest), e) ↦ rw e (popped current rest e (current.msg_id == income) refl)
  ]
    where
      popped :
          (current : QueueItem M) (rest : List (QueueItem M))
          → pop (item_cmp msg) s.message_queue ≡ some (current, rest)
          → (b : Bool) → (current.msg_id == income) ≡ b
          → let r = accept msg s income (some (current, rest)) in Outcome s r.0 r.1 income
      popped current rest e true same =
          unfold accept in
          rw same (record {
            awaited = (current, rest, e, (nat_beq_iff current.msg_id income).0 same, flown);
            queue_after = refl;
            flying_after = λ id. contains-retain (λ i. not (i == income)) s.flying_messages id;
          })
      popped current rest e false other =
          unfold accept in
          rw other (record {
            not_awaited = λ h. ground (arith, h.2, h.3, e, nat_beq_iff current.msg_id income);
            queue_after =
                Perm.trans (perm_append_singleton current rest)
                  (Perm.symm (pop-perm (item_cmp msg) s.message_queue current rest e));
            flying_after = refl;
          })

  validate_id-Outcome :
      (s : CollabSink M) (income : MsgId)
      → Outcome s (validate_id msg s income).0 (validate_id msg s income).1 income
  unfolding validate_id
  validate_id-Outcome s income = elim (Bool-cases (contains s.flying_messages income)) [
    | inl flown ↦ rw flown (finish-Outcome s _ _ income (accept-Outcome s income flown))
    | inr fresh ↦ rw fresh (record {
      not_awaited = λ h. cc (h.4, fresh);
      queue_after = Perm.refl _;
      flying_after = refl;
    })
  ]

  -- A response that names a message is accepted exactly if that message is at the top of the queue
  -- and in flight. Then the message leaves the queue and its id the messages in flight; otherwise the
  -- queue keeps its messages, in some order, and the messages in flight are the same.
  pub validate_response-Outcome :
      {c : CollabApi} (s : CollabSink M) (message : ServerCollabMessage c) (income : MsgId)
      → Server.msg_id message ≡ some income
      → let r = validate_response msg s message in Outcome s r.0 r.1 income
  unfolding validate_response
  validate_response-Outcome s message income e =
      rw (e, validate_response) (validate_id-Outcome s income)
