-- ===== src/Sink/Batch/Conserve.antt =====
-- What `get_next_batch_item` keeps of the queue, and what is in a batch.
use mathlib.Core.List.{Perm, append_assoc, append-nil, perm_append_singleton}
use mathlib.Core.List.Perm
use flow_cloud.Base.{
  ℕ, zero, suc, ◌+◌, ◌≤◌, ◌≡◌, inl, inr, Bool, true, false, some, List, [], ◌∷◌, ◌++◌, map, arith,
  length, length-append, contains, contains-append, nat_eq, Option-cases, All, All-append, ◌||◌,
  nat_beq_iff, if_split, ◌⊎◌, not,
}
use flow_cloud.Base.Heap.{pop, push}
use flow_cloud.Base.Heap.Laws.{pop-perm}
use flow_cloud.Base.Heap.Total.{total, total-append, total-pop}
use flow_cloud.Entity.Payload.{MsgId}
use flow_cloud.Sink.Queue.{SinkMessage, QueueItem, item_cmp}
use flow_cloud.Sink.Batch.{
  Gathered, take_item, batch_loop, get_next_batch_item, insert_id, insert_ids,
}

module _ {M E : Type 0} (msg : SinkMessage M E) (flying : List MsgId) where
  abbrev pub round : Gathered M → QueueItem M → List (QueueItem M) → Bool × Gathered M
  round g item rest = take_item msg flying (record g { msg_queue = rest }) item

  -- The rule of the loop: `J` holds while it goes on, `P` when it has ended.
  module _ {ℓ} (J P : Gathered M → Type ℓ) (stop : (g : Gathered M) → J g → P g)
      (go_on : (g : Gathered M) (item : QueueItem M) (rest : List (QueueItem M))
        → pop (item_cmp msg) g.msg_queue ≡ some (item, rest)
        → J g
        → (round g item rest).0 ≡ true
        → J (round g item rest).1)
      (leave : (g : Gathered M) (item : QueueItem M) (rest : List (QueueItem M))
        → pop (item_cmp msg) g.msg_queue ≡ some (item, rest)
        → J g
        → (round g item rest).0 ≡ false
        → P (round g item rest).1) where
    pub batch_loop_rule : (fuel : ℕ) (g : Gathered M) → J g → P (batch_loop msg fuel flying g)
    unfolding batch_loop
    batch_loop_rule zero g h = stop g h
    batch_loop_rule (suc fuel) g h = elim (Option-cases (pop (item_cmp msg) g.msg_queue)) [
      | inl e ↦ rw (e, batch_loop) (stop g h)
      | inr ((item, rest), e) ↦
          rw (e, batch_loop)
            (if_split P (round g item rest).0 _ _
              (λ more. batch_loop_rule fuel (round g item rest).1 (go_on g item rest e h more))
              (leave g item rest e h))
    ]

  module _ (g : Gathered M) (item : QueueItem M) (rest : List (QueueItem M)) where
    pub msg_queue-round : (round g item rest).1.msg_queue ≡ rest
    unfolding take_item
    msg_queue-round = ground arith

    requeue-round : (round g item rest).1.requeue_items ≡ push g.requeue_items item
    unfolding take_item
    requeue-round = ground arith

    -- A round takes the item into the batch, or it ends the loop and takes nothing.
    pub items-round :
        ((round g item rest).1.items ≡ push g.items item)
          × (contains flying item.msg_id ≡ false)
          × (length g.items ≤ 20)
          × ((round g item rest).0 ≡ not (msg.is_client_init_sync item.inner))
        ⊎ ((round g item rest).1.items ≡ g.items)
          × ((round g item rest).0 ≡ false)
          × ((contains flying item.msg_id ≡ true) ⊎ (21 ≤ length g.items))
    unfolding take_item
    items-round = ground arith

  -- A rule for what holds whether the loop goes on or not.
  batch_loop_keeps {ℓ} :
      (P : Gathered M → Type ℓ)
      → ((g : Gathered M) (item : QueueItem M) (rest : List (QueueItem M))
          → pop (item_cmp msg) g.msg_queue ≡ some (item, rest)
          → P g
          → P (round g item rest).1)
      → (fuel : ℕ) (g : Gathered M) → P g
      → P (batch_loop msg fuel flying g)
  batch_loop_keeps P keep fuel g h =
      batch_loop_rule P P (λ g k. k) (λ g item rest e k _. keep g item rest e k)
        (λ g item rest e k _. keep g item rest e k) fuel g h

  batch_loop_perm :
      (q : List (QueueItem M)) (fuel : ℕ) (g : Gathered M)
      → Perm (g.msg_queue ++ g.requeue_items) q
      → Perm
          ((batch_loop msg fuel flying g).msg_queue ++ (batch_loop msg fuel flying g).requeue_items)
          q
  batch_loop_perm q =
      batch_loop_keeps (λ g. Perm (g.msg_queue ++ g.requeue_items) q)
        λ g item rest e k.
          rw (msg_queue-round g item rest, requeue-round g item rest)
            (Perm.trans (requeued g.requeue_items item rest) (
              Perm.trans
                (Perm.append_right g.requeue_items (Perm.symm (pop-perm _ g.msg_queue item rest e)))
                k))
    where
      requeued :
          (r : List (QueueItem M)) (item : QueueItem M) (rest : List (QueueItem M))
          → Perm (rest ++ push r item) (item ∷ rest ++ r)
      requeued r item rest = rw (← append_assoc) (perm_append_singleton item (rest ++ r))

  total-batch_loop :
      (w : QueueItem M → ℕ) (n : ℕ) (fuel : ℕ) (g : Gathered M)
      → (total w g.msg_queue + total w g.requeue_items ≡ n)
        × (total w g.items ≤ total w g.requeue_items)
      → let h = batch_loop msg fuel flying g in
        (total w h.msg_queue + total w h.requeue_items ≡ n)
        × (total w h.items ≤ total w h.requeue_items)
  total-batch_loop w n =
      batch_loop_keeps
        (λ g.
          (total w g.msg_queue + total w g.requeue_items ≡ n)
          × (total w g.items ≤ total w g.requeue_items))
        λ g item rest e k. ground (
          arith,
          msg_queue-round g item rest,
          requeue-round g item rest,
          items-round g item rest,
          total-pop w (item_cmp msg) g.msg_queue item rest e,
          total-append w g.requeue_items (item ∷ []),
          total-append w g.items (item ∷ []),
        )

  abbrev pub IsSendable : QueueItem M → Type 0
  IsSendable item = contains flying item.msg_id ≡ false

  batch_loop-IsSendable :
      (fuel : ℕ) (g : Gathered M)
      → All IsSendable g.items × (length g.items ≤ 21)
      → let h = batch_loop msg fuel flying g in All IsSendable h.items × (length h.items ≤ 21)
  batch_loop-IsSendable =
      batch_loop_keeps (λ g. All IsSendable g.items × (length g.items ≤ 21))
        λ g item rest e k. elim (items-round g item rest) [
          | inl (taken, fresh, few, _) ↦ rw taken (
            All-append IsSendable g.items (item ∷ []) k.0 (fresh, tt),
            omega (arith, length-append g.items (item ∷ [])),
          )
          | inr (same, _, _) ↦ rw same k
        ]

-- An id is in flight afterwards exactly if it was before or is among those added.
pub contains-insert_ids :
    (flying ids : List MsgId) (id : MsgId)
    → contains (insert_ids flying ids) id ≡ contains flying id || contains ids id
contains-insert_ids flying [] id = ground arith
contains-insert_ids flying (j ∷ ids) id = ground (
  arith,
  contains-insert_ids (insert_id flying j) ids id,
  contains-append flying (j ∷ []) id,
  nat_beq_iff j id,
)

module _ {M E : Type 0} (msg : SinkMessage M E) (flying : List MsgId) (q : List (QueueItem M)) where
  abbrev batch : List (QueueItem M) × List (QueueItem M) × List MsgId
  batch = get_next_batch_item msg flying q

  -- How the batch, the queue and the messages in flight relate to those before.
  pub record IsBatch : Type 1 where
    pub queue_perm : Perm batch.1 q
    pub bounded : length batch.0 ≤ 21
    pub sendable : All (IsSendable msg flying) batch.0
    pub queued : (w : QueueItem M → ℕ) → total w batch.0 ≤ total w batch.1
    pub flying_after :
        (id : MsgId)
        → contains batch.2 id
          ≡ contains flying id || contains (map (λ item. item.msg_id) batch.0) id

  abbrev start : Gathered M
  start = record { items = []; requeue_items = []; msg_queue = q }

  -- Gathering a batch only reorders the queue: no message is lost, made up or doubled. A batch has
  -- at most 21 messages, none of which was in flight, and all of them occur in the queue as often
  -- as in the batch; afterwards exactly these and what was in flight before are in flight.
  pub get_next_batch_item-IsBatch : IsBatch
  unfolding get_next_batch_item
  get_next_batch_item-IsBatch = record {
    queue_perm = batch_loop_perm msg flying q (length q) start (rw append-nil (Perm.refl q));
    bounded = (batch_loop-IsSendable msg flying (length q) start (tt, omega arith)).1;
    sendable = (batch_loop-IsSendable msg flying (length q) start (tt, omega arith)).0;
    queued = λ w.
        let h = batch_loop msg (length q) flying start in
        omega (
          arith,
          total-batch_loop msg flying w (total w q) (length q) start (omega arith, omega arith),
          total-append w h.msg_queue h.requeue_items,
        );
    flying_after = λ id. contains-insert_ids flying _ id;
  }

  -- The same, as sums over the queue before and after.
  pub total-get_next_batch_item : (w : QueueItem M → ℕ) → total w batch.1 ≡ total w q
  unfolding get_next_batch_item
  total-get_next_batch_item w =
      let h = batch_loop msg (length q) flying start in
      omega (
        arith,
        total-batch_loop msg flying w (total w q) (length q) start (omega arith, omega arith),
        total-append w h.msg_queue h.requeue_items,
      )
