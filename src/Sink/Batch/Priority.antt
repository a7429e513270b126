-- ===== src/Sink/Batch/Priority.antt =====
-- The order of a batch: by priority, from the top of the queue, and no further than an init message.
use flow_cloud.Base.{
  ℕ, suc, ◌≡◌, ◌≢◌, refl, inl, inr, true, false, some, List, [], ◌∷◌, arith, length, contains,
  nat_eq, All, All-append, All-map, if_split, ◌⊎◌,
}
use flow_cloud.Base.Heap.{Ordering, less, pop, push}
use flow_cloud.Base.Heap.Laws.{pop_greatest, pop_cases, alone, later, first}
use flow_cloud.Entity.Payload.{MsgId}
use flow_cloud.Sink.Queue.{SinkMessage, QueueItem, item_cmp, item_cmp-IsPreorder}
use flow_cloud.Sink.Batch.{Gathered, batch_loop, get_next_batch_item}
use flow_cloud.Sink.Batch.Conserve.{batch_loop_rule, round, msg_queue-round, items-round}

module _ {A : Type 0} where
  -- What holds of the heap holds of what `pop` takes and leaves.
  All-pop {κ} :
      (P : A → Type κ) (cmp : A → A → Ordering) (q : List A) (m : A) (rest : List A)
      → pop cmp q ≡ some (m, rest)
      → All P q
      → P m × All P rest
  All-pop P cmp [] m rest e h = unfold pop in cc
  All-pop P cmp (x ∷ xs) m rest e h = elim (pop_cases cmp x xs m rest e) [
    | alone _ p q ↦ rw (p, q) (h.0, tt)
    | later r e' _ q ↦ let (hm, hr) = All-pop P cmp xs m r e' h.1 in rw q (hm, (h.0, hr))
    | first n r _ _ p q ↦ rw (p, q) h
  ]

  abbrev pub Descending : (A → A → Ordering) → List A → Type 0
  Descending cmp [] = Unit
  Descending cmp (x ∷ xs) = All (λ y. cmp x y ≢ less) xs × Descending cmp xs

  Descending-push :
      (cmp : A → A → Ordering) (xs : List A) (y : A)
      → Descending cmp xs
      → All (λ x. cmp x y ≢ less) xs
      → Descending cmp (push xs y)
  Descending-push cmp [] y h k = (tt, tt)
  Descending-push cmp (x ∷ xs) y h k =
      (All-append (λ z. cmp x z ≢ less) xs (y ∷ []) h.0 (k.0, tt), Descending-push cmp xs y h.1 k.1)

module _ {M E : Type 0} (msg : SinkMessage M E) (flying : List MsgId) where
  abbrev Before : QueueItem M → QueueItem M → Type 0
  Before x y = item_cmp msg x y ≢ less

  abbrev IsSorted : Gathered M → Type 0
  IsSorted g = Descending (item_cmp msg) g.items × All (λ x. All (Before x) g.msg_queue) g.items

  IsSorted-round :
      (g : Gathered M) (item : QueueItem M) (rest : List (QueueItem M))
      → pop (item_cmp msg) g.msg_queue ≡ some (item, rest)
      → IsSorted g
      → IsSorted (round msg flying g item rest).1
  IsSorted-round g item rest e (sorted, above) =
      let split : All (λ x. Before x item × All (Before x) rest) g.items =
        All-map _ _ (λ x. All-pop (Before x) (item_cmp msg) g.msg_queue item rest e) g.items
          above in
      let left : All (λ x. All (Before x) rest) g.items = All-map _ _ (λ x p. p.1) g.items split in
      elim (items-round msg flying g item rest) [
        | inl (taken, _, _, _) ↦
            rw (msg_queue-round msg flying g item rest, taken)
              (
                Descending-push (item_cmp msg) g.items item sorted
                    (All-map _ _ (λ x p. p.0) g.items split),
                All-append (λ x. All (Before x) rest) g.items (item ∷ []) left
                    (
                      (All-pop (Before item) (item_cmp msg) g.msg_queue item rest e (
                          pop_greatest (item_cmp msg) (item_cmp-IsPreorder msg) g.msg_queue item
                            rest e)).1,
                      tt,
                    ),
              )
        | inr (same, _, _) ↦ rw (msg_queue-round msg flying g item rest, same) (sorted, left)
      ]

  abbrev pub NotInit : QueueItem M → Type 0
  NotInit item = msg.is_client_init_sync item.inner ≡ false

  -- No init message, or one, at the end.
  abbrev pub InitLast : List (QueueItem M) → Type 0
  InitLast items =
      All NotInit items
      ⊎ ((ys : List (QueueItem M)) × (y : QueueItem M) × (items ≡ push ys y)
          × All NotInit ys
          × (msg.is_client_init_sync y.inner ≡ true))

  init_last :
      (fuel : ℕ) (g : Gathered M)
      → All NotInit g.items
      → InitLast (batch_loop msg fuel flying g).items
  init_last =
      batch_loop_rule msg flying (λ g. All NotInit g.items) (λ g. InitLast g.items) (λ g h. inl h)
        (λ g item rest e h more. elim (items-round msg flying g item rest) [
          | inl (taken, _, _, tested) ↦
              rw taken (All-append NotInit g.items (item ∷ []) h (ground arith, tt))
          | inr (same, stopped, _) ↦ rw same h
        ])
        (λ g item rest e h last. elim (items-round msg flying g item rest) [
          | inl (taken, _, _, tested) ↦ rw taken (inr (g.items, item, refl, h, ground arith))
          | inr (same, stopped, _) ↦ rw same (inl h)
        ])

  -- The order of a batch.
  pub record IsPrioritised (items : List (QueueItem M)) : Type 0 where
    pub sorted : Descending (item_cmp msg) items
    pub init_at_end : InitLast items

  abbrev BeginsWith : QueueItem M → Gathered M → Type 0
  BeginsWith m g = (ys : List (QueueItem M)) × (g.items ≡ m ∷ ys)

  begins_round :
      (m : QueueItem M) (g : Gathered M) (item : QueueItem M) (rest : List (QueueItem M))
      → BeginsWith m g
      → BeginsWith m (round msg flying g item rest).1
  begins_round m g item rest (ys, e) = elim (items-round msg flying g item rest) [
    | inl (taken, _, _, _) ↦ (push ys item, rw (taken, e))
    | inr (same, _, _) ↦ (ys, rw (same, e))
  ]

  begins :
      (m : QueueItem M) (fuel : ℕ) (g : Gathered M)
      → BeginsWith m g
      → BeginsWith m (batch_loop msg fuel flying g)
  begins m =
      batch_loop_rule msg flying (BeginsWith m) (BeginsWith m) (λ g h. h)
        (λ g item rest e h _. begins_round m g item rest h)
        (λ g item rest e h _. begins_round m g item rest h)

  progress_loop :
      (q : List (QueueItem M)) (fuel : ℕ) (m : QueueItem M) (rest : List (QueueItem M))
      → pop (item_cmp msg) q ≡ some (m, rest)
      → contains flying m.msg_id ≡ false
      → BeginsWith m (
          batch_loop msg
            (suc fuel)
            flying
            (record { items = []; requeue_items = []; msg_queue = q }))
  unfolding batch_loop
  progress_loop q fuel m rest e fresh =
      rw (e, batch_loop)
        (if_split (BeginsWith m) (round msg flying start m rest).0 _ _
          (λ _. begins m fuel _ first_round) (λ _. first_round))
    where
      start : Gathered M
      start = record { items = []; requeue_items = []; msg_queue = q }

      first_round : BeginsWith m (round msg flying start m rest).1
      first_round = elim (items-round msg flying start m rest) [
        | inl (taken, _, _, _) ↦ ([], taken)
        | inr (_, _, inl flown) ↦ cc
        | inr (_, _, inr many) ↦ absurd (omega arith)
      ]

  -- The batch begins with the greatest message of the queue, if that is not in flight: the queue
  -- makes progress.
  pub get_next_batch_item-Progresses :
      (q : List (QueueItem M)) (m : QueueItem M) (rest : List (QueueItem M))
      → pop (item_cmp msg) q ≡ some (m, rest)
      → contains flying m.msg_id ≡ false
      → (ys : List (QueueItem M)) × ((get_next_batch_item msg flying q).0 ≡ m ∷ ys)
  unfolding get_next_batch_item
  get_next_batch_item-Progresses [] m rest e fresh = unfold pop in cc
  get_next_batch_item-Progresses (x ∷ xs) m rest e fresh =
      progress_loop (x ∷ xs) (length xs) m rest e fresh

  -- A batch is in the order of priority, and has an init message at its end at most.
  pub get_next_batch_item-IsPrioritised :
      (q : List (QueueItem M)) → IsPrioritised (get_next_batch_item msg flying q).0
  unfolding get_next_batch_item
  get_next_batch_item-IsPrioritised q = record {
    sorted =
        (batch_loop_rule msg flying IsSorted IsSorted (λ g h. h)
          (λ g item rest e h _. IsSorted-round g item rest e h)
          (λ g item rest e h _. IsSorted-round g item rest e h) (length q)
          (record { items = []; requeue_items = []; msg_queue = q }) (tt, tt)).0;
    init_at_end =
        init_last (length q) (record { items = []; requeue_items = []; msg_queue = q }) tt;
  }
