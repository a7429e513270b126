-- ===== src/WsQueue/Batches.antt =====
-- What a batch of lib/client-api/src/ws/msg_queue.rs takes from the queue.
use flow_cloud.Base.{
  ℕ, zero, suc, ◌+◌, ◌≤◌, ◌≡◌, refl, sym, ◌∙◌, true, false, none, some, List, [], ◌∷◌, Text, length,
  list_eq, nat_eq, ◌==◌, list_beq_iff, if◌then◌else◌, arith, All, All-append, Option-cases, inl,
  inr, if_split,
}
use flow_cloud.Base.Map
use flow_cloud.Base.Map.{AreDistinct}
use flow_cloud.Base.Heap.{pop}
use flow_cloud.Base.Heap.Laws.{pop-empty, length-pop}
use flow_cloud.Base.Heap.Total.{total, total-append, total-pop}
use flow_cloud.Entity.Payload.{CollabApi}
use flow_cloud.Entity.Client
use flow_cloud.Entity.Client.{ClientCollabMessage}
use flow_cloud.Entity.Realtime.{MessageByObjectId}
use flow_cloud.WsQueue.{
  Batch, maximum_init_sync, push_entry, add_message, is_full, message_loop, next_batch_message,
}

module _ {c : CollabApi} where
  -- A weight summed over the lists of a map.
  abbrev pub map_total : (ClientCollabMessage c → ℕ) → MessageByObjectId c → ℕ
  map_total w [] = 0
  map_total w ((key, msgs) ∷ m) = total w msgs + map_total w m

  abbrev pub init_weight : ClientCollabMessage c → ℕ
  init_weight msg = if Client.is_init_sync msg then 1 else 0

  -- Every message stands under the id of its object.
  abbrev pub IsGrouped : MessageByObjectId c → Type 0
  IsGrouped m = All (λ entry. All (λ msg. Client.object_id msg ≡ entry.0) entry.1) m

  map_total-push_entry :
      (w : ClientCollabMessage c → ℕ) (m : MessageByObjectId c) (id : Text)
      (msg : ClientCollabMessage c)
      → map_total w (push_entry m id msg) ≡ map_total w m + w msg
  unfolding push_entry
  map_total-push_entry w [] id msg = omega arith
  map_total-push_entry w ((key, msgs) ∷ m) id msg =
      ground (arith, total-append w msgs (msg ∷ []), map_total-push_entry w m id msg)

  push_entry-IsGrouped :
      (m : MessageByObjectId c) (id : Text) (msg : ClientCollabMessage c)
      → Client.object_id msg ≡ id
      → IsGrouped m
      → IsGrouped (push_entry m id msg)
  unfolding push_entry
  push_entry-IsGrouped [] id msg h g = ((h, tt), tt)
  push_entry-IsGrouped ((key, msgs) ∷ m) id msg h g =
      if_split IsGrouped (key == id) _ _
        (λ same.
          (All-append _ msgs (msg ∷ []) g.0 (h ∙ sym ((list_beq_iff key id).0 same), tt), g.1))
        (λ other. (g.0, push_entry-IsGrouped m id msg h g.1))

  get-push_entry :
      (m : MessageByObjectId c) (id : Text) (msg : ClientCollabMessage c) (key : Text)
      → (key == id) ≡ false
      → Map.get (push_entry m id msg) key ≡ Map.get m key
  unfolding push_entry
  get-push_entry [] id msg key h = ground (arith, h, list_beq_iff key id, list_beq_iff id key)
  get-push_entry ((k, msgs) ∷ m) id msg key h = ground (
    arith,
    h,
    get-push_entry m id msg key h,
    list_beq_iff k id,
    list_beq_iff k key,
    list_beq_iff key id,
  )

  push_entry-AreDistinct :
      (m : MessageByObjectId c) (id : Text) (msg : ClientCollabMessage c)
      → AreDistinct m
      → AreDistinct (push_entry m id msg)
  unfolding push_entry
  push_entry-AreDistinct [] id msg h = (refl, tt)
  push_entry-AreDistinct ((key, msgs) ∷ m) id msg h =
      if_split AreDistinct (key == id) _ _ (λ same. h)
        (λ other. (get-push_entry m id msg key other ∙ h.0, push_entry-AreDistinct m id msg h.1))

  -- A rule for the loop: what holds at its start and is kept by each round that goes on, and what
  -- then holds when it stops.
  loop_rule :
      (maximum : ℕ) (I F : Batch c → Type 0)
      → ((b : Batch c) → I b → pop Client.cmp b.queue ≡ none → F b)
      → ((b : Batch c) (msg : ClientCollabMessage c) (rest : List (ClientCollabMessage c))
          → I b
          → pop Client.cmp b.queue ≡ some (msg, rest)
          → is_full maximum (add_message b msg rest) ≡ true
          → F (add_message b msg rest))
      → ((b : Batch c) (msg : ClientCollabMessage c) (rest : List (ClientCollabMessage c))
          → I b
          → pop Client.cmp b.queue ≡ some (msg, rest)
          → is_full maximum (add_message b msg rest) ≡ false
          → I (add_message b msg rest))
      → (fuel : ℕ) (b : Batch c) → length b.queue ≤ fuel
      → I b
      → F (message_loop fuel maximum b)
  unfolding message_loop add_message
  loop_rule maximum I F ends stops goes zero b h i = ends b i (emptied b.queue h)
    where
      emptied : (q : List (ClientCollabMessage c)) → length q ≤ 0 → pop Client.cmp q ≡ none
      emptied [] k = unfold pop in refl
      emptied (x ∷ xs) k = absurd (omega (arith, k))
  loop_rule maximum I F ends stops goes (suc fuel) b h i =
      elim (Option-cases (pop Client.cmp b.queue)) [
        | inl e ↦ rw (e, message_loop) (ends b i e)
        | inr ((msg, rest), e) ↦
            rw (e, message_loop)
              (if_split F (is_full maximum (add_message b msg rest)) _ _
                (λ full. stops b msg rest i e full)
                (λ more.
                  loop_rule maximum I F ends stops goes fuel (add_message b msg rest)
                    (omega (arith, h, length-pop Client.cmp b.queue msg rest e))
                    (goes b msg rest i e more)))
      ]

  -- What the variables of the loop count, and that what was queued is in the map or still queued.
  record Counts (q : List (ClientCollabMessage c)) (b : Batch c) : Type 0 where
    inits : b.init_sync_count ≡ map_total init_weight b.messages_map
    grouped : IsGrouped b.messages_map
    distinct : AreDistinct b.messages_map
    kept :
        (w : ClientCollabMessage c → ℕ) → map_total w b.messages_map + total w b.queue ≡ total w q

  add_message-Counts :
      (q : List (ClientCollabMessage c)) (b : Batch c) (msg : ClientCollabMessage c)
      (rest : List (ClientCollabMessage c))
      → pop Client.cmp b.queue ≡ some (msg, rest)
      → Counts q b
      → Counts q (add_message b msg rest)
  unfolding add_message
  add_message-Counts q b msg rest e h = record {
    inits = ground (
      arith,
      h.inits,
      map_total-push_entry init_weight b.messages_map (Client.object_id msg) msg,
    );
    grouped = push_entry-IsGrouped b.messages_map (Client.object_id msg) msg refl h.grouped;
    distinct = push_entry-AreDistinct b.messages_map (Client.object_id msg) msg h.distinct;
    kept = λ w. omega (
      arith,
      h.kept w,
      map_total-push_entry w b.messages_map (Client.object_id msg) msg,
      total-pop w Client.cmp b.queue msg rest e,
    );
  }

  count_grows :
      (b : Batch c) (msg : ClientCollabMessage c) (rest : List (ClientCollabMessage c))
      → (add_message b msg rest).init_sync_count ≤ b.init_sync_count + 1
  unfolding add_message
  count_grows b msg rest = ground arith

  not_full-few :
      (maximum : ℕ) (b : Batch c)
      → is_full maximum b ≡ false
      → b.init_sync_count ≤ maximum_init_sync
  unfolding is_full
  not_full-few maximum b h = ground (arith, h)

  -- How a batch and what is left of the queue make up the queue before.
  pub record IsBatchOf (q : List (ClientCollabMessage c)) (b : Batch c) : Type 0 where
    pub kept :
        (w : ClientCollabMessage c → ℕ) → map_total w b.messages_map + total w b.queue ≡ total w q
    pub grouped : IsGrouped b.messages_map
    pub distinct : AreDistinct b.messages_map
    pub few_inits : map_total init_weight b.messages_map ≤ maximum_init_sync + 1

  -- A batch takes messages from the queue without losing or doubling one: for every weight of messages,
  -- the batch and what is left weigh as much as the queue before. It groups them by object: no object
  -- has two entries, and an entry has messages about its object alone. It has at most 11 init messages.
  pub next_batch_message-IsBatchOf :
      (maximum : ℕ) (q : List (ClientCollabMessage c)) → IsBatchOf q (next_batch_message maximum q)
  unfolding next_batch_message
  next_batch_message-IsBatchOf maximum q =
      let start : Batch c = record {
        messages_map = [];
        size = 0;
        init_sync_count = 0;
        queue = q;
      } in
      let (counts, few) =
        loop_rule maximum (λ b. Counts q b × (b.init_sync_count ≤ maximum_init_sync))
          (λ b. Counts q b × (b.init_sync_count ≤ maximum_init_sync + 1))
          (λ b i e. (i.0, omega (arith, i.1)))
          (λ b msg rest i e full.
            (add_message-Counts q b msg rest e i.0, omega (arith, count_grows b msg rest, i.1)))
          (λ b msg rest i e more. (
            add_message-Counts q b msg rest e i.0,
            not_full-few maximum (add_message b msg rest) more,
          ))
          (length q) start (omega arith)
          (
            record { inits = refl; grouped = tt; distinct = tt; kept = λ w. omega arith },
            omega arith,
          ) in
      record {
        kept = counts.kept;
        grouped = counts.grouped;
        distinct = counts.distinct;
        few_inits = omega (arith, counts.inits, few);
      }

  -- A queue that is within the limits on init messages and on size is sent as a whole.
  pub next_batch_message-drains :
      (maximum : ℕ) (q : List (ClientCollabMessage c))
      → total init_weight q ≤ maximum_init_sync
      → total Client.size q ≤ maximum
      → (next_batch_message maximum q).queue ≡ []
  unfolding next_batch_message add_message is_full
  next_batch_message-drains maximum q inits sizes =
      loop_rule maximum
        (λ b.
          (b.init_sync_count + total init_weight b.queue ≤ maximum_init_sync)
          × (b.size + total Client.size b.queue ≤ maximum))
        (λ b. b.queue ≡ []) (λ b i e. pop-empty Client.cmp b.queue e)
        (λ b msg rest i e full. absurd (
          ground (
            arith,
            full,
            i.0,
            i.1,
            total-pop init_weight Client.cmp b.queue msg rest e,
            total-pop Client.size Client.cmp b.queue msg rest e,
          )))
        (λ b msg rest i e more. (
          ground (arith, i.0, total-pop init_weight Client.cmp b.queue msg rest e),
          ground (arith, i.1, total-pop Client.size Client.cmp b.queue msg rest e),
        ))
        (length q) (record { messages_map = []; size = 0; init_sync_count = 0; queue = q })
        (omega arith) (omega (arith, inits), omega (arith, sizes))
