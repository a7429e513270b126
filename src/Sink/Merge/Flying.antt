-- ===== src/Sink/Merge/Flying.antt =====
-- What `merge` leaves alone: the messages in flight, and the ids.
use flow_cloud.Base.{
  if◌then◌else◌, ℕ, zero, suc, ◌+◌, ◌≤◌, ◌≡◌, refl, inl, inr, true, false, List, [], ◌∷◌, arith,
  length, contains, nat_eq, Option-cases, nat_beq_iff, Result-cases,
}
use flow_cloud.Base.Heap.{pop}
use flow_cloud.Base.Heap.Laws.{length-pop, pop-empty}
use flow_cloud.Base.Heap.Total.{total, total-pop, total-reverse, hits}
use flow_cloud.Entity.Payload.{MsgId}
use flow_cloud.Sink.Queue.{SinkMessage, QueueItem, item_cmp}
use flow_cloud.Sink.Merge.{merge_step, merge_loop, merge_items}

abbrev pub with_id : {M : Type 0} → MsgId → QueueItem M → ℕ
with_id id = hits (λ item. item.msg_id) id

module _ {M E : Type 0} (msg : SinkMessage M E) (max : ℕ) (flying : List MsgId) where
  -- A weight that counts messages in flight only.
  abbrev pub OnFlying : (QueueItem M → ℕ) → Type 0
  OnFlying w = (item : QueueItem M) → contains flying item.msg_id ≡ false → w item ≡ 0

  merge_step_flying :
      (w : QueueItem M → ℕ)
      → OnFlying w
      → (items : List (QueueItem M)) (next : QueueItem M)
      → total w (merge_step msg max flying items next) ≡ w next + total w items
  unfolding merge_step
  merge_step_flying w h [] next = refl
  merge_step_flying w h (last ∷ items) next =
      elim (Result-cases (msg.merge last.inner next.inner max)) [
        | inl ((inner, merged), e) ↦
            ground (arith, e, h last, h next, h (record last { inner = inner }))
        | inr (er, e) ↦ ground (arith, e)
      ]

  merge_step_ids :
      (id : MsgId) (items : List (QueueItem M)) (next : QueueItem M)
      → total (with_id id) (merge_step msg max flying items next)
        ≤ with_id id next + total (with_id id) items
  unfolding merge_step
  merge_step_ids id [] next = omega arith
  merge_step_ids id (last ∷ items) next =
      elim (Result-cases (msg.merge last.inner next.inner max)) [
        | inl ((inner, merged), e) ↦ ground (arith, e)
        | inr (er, e) ↦ ground (arith, e)
      ]

  merge_loop_flying :
      (w : QueueItem M → ℕ)
      → OnFlying w
      → (fuel : ℕ) (q items : List (QueueItem M)) → length q ≤ fuel
      → total w (merge_loop msg fuel max flying q items) ≡ total w q + total w items
  unfolding merge_loop
  merge_loop_flying w h zero [] items le = omega arith
  merge_loop_flying w h zero (x ∷ q) items le = absurd (omega arith)
  merge_loop_flying w h (suc fuel) q items le = elim (Option-cases (pop (item_cmp msg) q)) [
    | inl e ↦ rw (e, merge_loop, pop-empty (item_cmp msg) q e) (omega arith)
    | inr ((next, rest), e) ↦
        rw (e, merge_loop)
          (omega (
            arith,
            total-pop w (item_cmp msg) q next rest e,
            merge_step_flying w h items next,
            merge_loop_flying w h fuel rest (merge_step msg max flying items next)
                (omega (arith, length-pop (item_cmp msg) q next rest e)),
          ))
  ]

  merge_loop_ids :
      (id : MsgId) (fuel : ℕ) (q items : List (QueueItem M))
      → total (with_id id) (merge_loop msg fuel max flying q items)
        ≤ total (with_id id) q + total (with_id id) items
  unfolding merge_loop
  merge_loop_ids id zero q items = omega arith
  merge_loop_ids id (suc fuel) q items = elim (Option-cases (pop (item_cmp msg) q)) [
    | inl e ↦ rw (e, merge_loop) (omega arith)
    | inr ((next, rest), e) ↦
        rw (e, merge_loop)
          (omega (
            arith,
            total-pop (with_id id) (item_cmp msg) q next rest e,
            merge_step_ids id items next,
            merge_loop_ids id fuel rest (merge_step msg max flying items next),
          ))
  ]

  -- A weight of the messages in flight, and 0 for all others.
  abbrev pub on_flying : (QueueItem M → ℕ) → QueueItem M → ℕ
  on_flying w item = if contains flying item.msg_id then w item else 0

  merge_items_flying :
      (w : QueueItem M → ℕ)
      → OnFlying w
      → (q : List (QueueItem M)) → total w (merge_items msg max flying q) ≡ total w q
  unfolding merge_items
  merge_items_flying w h q =
      rw total-reverse (omega (arith, merge_loop_flying w h (length q) q [] (omega arith)))

  -- How often messages and ids occur after a merge.
  pub record KeepsFlying (q : List (QueueItem M)) : Type 0 where
    pub flying_kept :
        (w : QueueItem M → ℕ)
        → total (on_flying w) (merge_items msg max flying q) ≡ total (on_flying w) q
    pub ids_kept :
        (id : MsgId) → total (with_id id) (merge_items msg max flying q) ≤ total (with_id id) q

  -- Merging leaves every message in flight in the queue as it was, and as often: every weight of
  -- such messages has the same sum. No id is made up: none occurs more often than before.
  pub merge_items-KeepsFlying : (q : List (QueueItem M)) → KeepsFlying q
  unfolding merge_items
  merge_items-KeepsFlying q = record {
    flying_kept = λ w. merge_items_flying (on_flying w) (λ item fresh. rw fresh refl) q;
    ids_kept = λ id. rw total-reverse (omega (arith, merge_loop_ids id (length q) q []));
  }

  -- The ids in flight occur as often as before.
  pub with_id-merge_items :
      (q : List (QueueItem M)) (id : MsgId)
      → contains flying id ≡ true
      → total (with_id id) (merge_items msg max flying q) ≡ total (with_id id) q
  with_id-merge_items q id h =
      merge_items_flying (with_id id) (λ item fresh. ground (arith, nat_beq_iff item.msg_id id)) q
