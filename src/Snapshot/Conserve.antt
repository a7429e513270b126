-- ===== src/Snapshot/Conserve.antt =====
-- What becomes of the queued snapshots of src/biz/snapshot/snapshot_control.rs.
use flow_cloud.Base.{
  ℕ, ◌+◌, ◌≡◌, refl, ap, Bool, true, false, Option, none, some, List, [], ◌∷◌, ◌++◌, arith, Result,
  ok, err, if◌then◌else◌, All, All-map, subst, sym, ◌≢◌, inl, inr, Option-cases,
}
use flow_cloud.Base.Int.{ℤ, pos, negsuc, int_ltb}
use flow_cloud.Base.Heap.{pop, less, reversed, IsPreorder}
use flow_cloud.Base.Heap.Laws.{pop_greatest}
use flow_cloud.Base.Heap.Total.{total, total-append, total-pop}
use flow_cloud.Snapshot.{
  PendingItem, seq_cmp, pending_cmp, generate_item, push_item, Call, cache_insert, cache_remove,
  snapshot_created, cannot_decode, not_cached, Answers, SnapshotCommand, insert_snapshot, tick,
  SnapshotCommandRunner, snapshot_key, insert_item, retry, give_up, succeed, write_snapshot,
  process_item, wrapping_succ, process_next_batch, handle_command, run, Done,
}

module _ {Encoded : Type 0} where
  -- The items that a call is the last one about: written to the database, or given up.
  abbrev pub settled : List (Call Encoded) → List PendingItem
  settled [] = []
  settled (cache_insert key data_ ∷ calls) = settled calls
  settled (cache_remove key ∷ calls) = settled calls
  settled (snapshot_created item data_ ∷ calls) = item ∷ settled calls
  settled (cannot_decode item ∷ calls) = item ∷ settled calls
  settled (not_cached item ∷ calls) = item ∷ settled calls

  pub settled-append : (xs ys : List (Call Encoded)) → settled (xs ++ ys) ≡ settled xs ++ settled ys
  settled-append [] ys = refl
  settled-append (cache_insert key data_ ∷ xs) ys = settled-append xs ys
  settled-append (cache_remove key ∷ xs) ys = settled-append xs ys
  settled-append (snapshot_created item data_ ∷ xs) ys = ap (λ l. item ∷ l) (settled-append xs ys)
  settled-append (cannot_decode item ∷ xs) ys = ap (λ l. item ∷ l) (settled-append xs ys)
  settled-append (not_cached item ∷ xs) ys = ap (λ l. item ∷ l) (settled-append xs ys)

pending_cmp-IsPreorder : IsPreorder pending_cmp
pending_cmp-IsPreorder = record {
  swapped = λ a b. swapped a.seq b.seq;
  transitive = λ a b d h k. transitive a.seq b.seq d.seq h k;
}
  where
    swapped : (a b : ℤ) → reversed (seq_cmp b a) ≡ reversed (reversed (seq_cmp a b))
    swapped (pos a) (pos b) = ground arith
    swapped (pos a) (negsuc b) = refl
    swapped (negsuc a) (pos b) = refl
    swapped (negsuc a) (negsuc b) = ground arith

    transitive :
        (a b d : ℤ)
        → reversed (seq_cmp a b) ≢ less
        → reversed (seq_cmp b d) ≢ less
        → reversed (seq_cmp a d) ≢ less
    transitive (pos a) b d h k = ground arith
    transitive (negsuc a) b d h k = ground arith

not_less-seq : (a b : ℤ) → reversed (seq_cmp a b) ≢ less → int_ltb b a ≡ false
not_less-seq (pos a) b h = ground arith
not_less-seq (negsuc a) b h = ground arith

oldest :
    (q : List PendingItem) (item : PendingItem) (rest : List PendingItem)
    → pop pending_cmp q ≡ some (item, rest)
    → All (λ y. int_ltb y.seq item.seq ≡ false) q
oldest q item rest e =
    All-map _ _ (λ y h. not_less-seq item.seq y.seq h) q
      (pop_greatest pending_cmp pending_cmp-IsPreorder q item rest e)

abbrev pending : (PendingItem → ℕ) → SnapshotCommandRunner → ℕ
pending w s = total w s.queue.queue

-- What a batch leaves pending and what it settles.
abbrev after : {Encoded E : Type 0} → (PendingItem → ℕ) → Done Encoded E → ℕ
after w d = pending w d.runner + total w (settled d.calls)

module _ {Encoded E : Type 0} where
  -- An item is kept when it, and no other, is settled or put back; so is the next item's number.
  record IsKept (item : PendingItem) (s : SnapshotCommandRunner) (d : Done Encoded E) : Type 0 where
    conserved : (w : PendingItem → ℕ) → after w d ≡ pending w s + w item
    same_id_gen : d.runner.queue.id_gen ≡ s.queue.id_gen
    settles_it : All (λ i. i ≡ item) (settled d.calls)

  module _ (s : SnapshotCommandRunner) (item : PendingItem) where
    retry-IsKept : (r : Result Unit E) → IsKept item s (retry s item r)
    unfolding retry push_item
    retry-IsKept r = record {
      conserved = λ w. omega (arith, total-append w s.queue.queue (item ∷ []));
      same_id_gen = refl;
      settles_it = tt;
    }

    succeed-IsKept : (data_ : Encoded) → IsKept item s (succeed s item data_)
    unfolding succeed
    succeed-IsKept data_ = record {
      conserved = λ w. omega arith;
      same_id_gen = refl;
      settles_it = (refl, tt);
    }

    cannot_decode-IsKept : IsKept item s (give_up s (cannot_decode item))
    unfolding give_up
    cannot_decode-IsKept = record {
      conserved = λ w. omega arith;
      same_id_gen = refl;
      settles_it = (refl, tt);
    }

    not_cached-IsKept : IsKept item s (give_up s (not_cached item))
    unfolding give_up
    not_cached-IsKept = record {
      conserved = λ w. omega arith;
      same_id_gen = refl;
      settles_it = (refl, tt);
    }

    write_snapshot-IsKept :
        (a : Answers Encoded E) (data_ : Encoded) → IsKept item s (write_snapshot a s item data_)
    unfolding write_snapshot
    write_snapshot-IsKept a data_ =
        elim (a.create_snapshot item.workspace_id item.object_id data_)
          as (λ r.
            IsKept item s (elim r [ ok _ ↦ succeed s item data_ | err e ↦ retry s item (err e) ])) [
              | ok _ ↦ succeed-IsKept data_
              | err e ↦ retry-IsKept (err e)
            ]

    begin-IsKept :
        (b : Bool) (d : Done Encoded E)
        → IsKept item s d
        → IsKept item s (if b then d else retry s item (ok tt))
    begin-IsKept true d h = h
    begin-IsKept false d h = retry-IsKept (ok tt)

    check-IsKept :
        (b : Bool) (d : Done Encoded E)
        → IsKept item s d
        → IsKept item s (if b then d else give_up s (cannot_decode item))
    check-IsKept true d h = h
    check-IsKept false d h = cannot_decode-IsKept

    process_item-IsKept : (a : Answers Encoded E) → IsKept item s (process_item a s item)
    unfolding process_item
    process_item-IsKept a = go (a.try_get (snapshot_key item.object_id)) refl
      where
        go :
            (r : Result (Option Encoded) E)
            → a.try_get (snapshot_key item.object_id) ≡ r
            → IsKept item s (process_item a s item)
        go (ok (some data_)) e =
            rw (process_item, e)
              (check-IsKept (a.check_encoded_collab_data item.object_id data_) _
                (begin-IsKept a.try_begin _ (write_snapshot-IsKept a data_)))
        go (ok none) e = rw (process_item, e) not_cached-IsKept
        go (err x) e = rw (process_item, e) (retry-IsKept (ok tt))

  process_next_batch-conserves :
      (w : PendingItem → ℕ) (a : Answers Encoded E) (s : SnapshotCommandRunner)
      → after w (process_next_batch a s) ≡ pending w s
  unfolding process_next_batch
  process_next_batch-conserves w a s = elim (Option-cases (pop pending_cmp s.queue.queue)) [
    | inl e ↦ rw (process_next_batch, e) (omega arith)
    | inr ((item, rest), e) ↦
        rw (process_next_batch, e)
          (omega (
            arith,
            total-pop w pending_cmp s.queue.queue item rest e,
            (process_item-IsKept _ item a).conserved w,
          ))
  ]

  id_gen-process_next_batch :
      (a : Answers Encoded E) (s : SnapshotCommandRunner)
      → (process_next_batch a s).runner.queue.id_gen ≡ s.queue.id_gen
  unfolding process_next_batch
  id_gen-process_next_batch a s = elim (Option-cases (pop pending_cmp s.queue.queue)) [
    | inl e ↦ rw (process_next_batch, e) refl
    | inr ((item, rest), e) ↦ rw (process_next_batch, e) (process_item-IsKept _ item a).same_id_gen
  ]

  -- The items of the snapshots that the commands ask for, numbered from `seq` on.
  abbrev pub requested : ℤ → List (SnapshotCommand Encoded × Answers Encoded E) → List PendingItem
  requested seq [] = []
  requested seq ((insert_snapshot p, a) ∷ commands) =
      record { workspace_id = p.workspace_id; object_id = p.object_id; seq = seq }
      ∷ requested (wrapping_succ seq) commands
  requested seq ((tick, a) ∷ commands) = requested seq commands

  -- Whatever commands come, and whatever the cache and the database answer: by any weight of the
  -- items, those pending before and those requested weigh as much together as those pending
  -- afterwards, those written, and those given up as not cached or not decodable.
  pub run-conserves :
      (w : PendingItem → ℕ) (s : SnapshotCommandRunner)
      (commands : List (SnapshotCommand Encoded × Answers Encoded E))
      → total w s.queue.queue + total w (requested s.queue.id_gen commands)
        ≡ total w (run s commands).0.queue.queue + total w (settled (run s commands).1)
  unfolding run handle_command insert_item generate_item push_item
  run-conserves w s [] = refl
  run-conserves w s ((insert_snapshot p, a) ∷ commands) = omega (
    arith,
    run-conserves w (insert_item s p.workspace_id p.object_id) commands,
    total-append w s.queue.queue (
        record { workspace_id = p.workspace_id; object_id = p.object_id; seq = s.queue.id_gen }
        ∷ []),
  )
  run-conserves w s ((tick, a) ∷ commands) =
      let next = (process_next_batch a s).runner in
      omega (
        arith,
        process_next_batch-conserves w a s,
        run-conserves w next commands,
        ap (λ g. total w (requested g commands)) (id_gen-process_next_batch a s),
        ap (total w) (settled-append (process_next_batch a s).calls (run next commands).1),
        total-append w (settled (process_next_batch a s).calls) (settled (run next commands).1),
      )

  -- Whatever the cache and the database answer: what a tick writes or gives up is an item with the
  -- smallest number among the pending ones.
  pub process_next_batch-IsOldest :
      (a : Answers Encoded E) (s : SnapshotCommandRunner)
      → All
          (λ i. All (λ y. int_ltb y.seq i.seq ≡ false) s.queue.queue)
          (settled (process_next_batch a s).calls)
  unfolding process_next_batch
  process_next_batch-IsOldest a s = elim (Option-cases (pop pending_cmp s.queue.queue)) [
    | inl e ↦ rw (process_next_batch, e) tt
    | inr ((item, rest), e) ↦
        rw (process_next_batch, e)
          (All-map _ _
            (λ i h.
              subst (λ z. All (λ y. int_ltb y.seq z.seq ≡ false) s.queue.queue) (sym h)
                (oldest s.queue.queue item rest e))
            _ (process_item-IsKept _ item a).settles_it)
  ]
