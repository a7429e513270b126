-- ===== src/Snapshot.antt =====
-- src/biz/snapshot: queue.rs, the queue of the snapshots that are to be written, and from
-- snapshot_control.rs the task `SnapshotCommandRunner`, which writes them to the database.
pub mod Conserve
use flow_cloud.Base.{
  ℕ, zero, suc, ◌+◌, ◌-◌, ◌^◌, ◌%◌, Bool, true, false, Option, none, some, List, [], ◌∷◌, ◌++◌,
  Text, codes, ltb, ◌==◌, ◌&&◌, if◌then◌else◌, Result, ok, err, list_eq, nat_eq,
}
use flow_cloud.Base.Int.{ℤ, pos, negsuc, int_eq}
use flow_cloud.Base.Heap.{Ordering, less, greater, nat_cmp, reversed, push, pop}

-- `fetch_add(1)` on an `AtomicI64` wraps.
unfoldable pub wrapping_succ : ℤ → ℤ
wrapping_succ (pos n) = if ltb (n + 1) (2 ^ 63) then pos (n + 1) else negsuc (2 ^ 63 - 1)
wrapping_succ (negsuc zero) = pos 0
wrapping_succ (negsuc (suc n)) = negsuc n

-- A number of an `AtomicU64`, cast to an `i64`.
unfoldable pub as_count : ℕ → ℤ
as_count n = if ltb n (2 ^ 63) then pos n else negsuc (2 ^ 64 - 1 - n)

pub record PendingItem : Type 0 where
  pub workspace_id : Text
  pub object_id : Text
  pub seq : ℤ

abbrev pub pending_eq : PendingItem → PendingItem → Bool
pending_eq a b = a.object_id == b.object_id && a.seq == b.seq

abbrev pub seq_cmp : ℤ → ℤ → Ordering
seq_cmp (pos a) (pos b) = nat_cmp a b
seq_cmp (pos a) (negsuc b) = greater
seq_cmp (negsuc a) (pos b) = less
seq_cmp (negsuc a) (negsuc b) = nat_cmp b a

abbrev pub pending_cmp : PendingItem → PendingItem → Ordering
pending_cmp a b = reversed (seq_cmp a.seq b.seq)

pub record PendingQueue : Type 0 where
  pub id_gen : ℤ
  pub queue : List PendingItem

unfoldable pub empty_queue : PendingQueue
empty_queue = record { id_gen = pos 0; queue = [] }

unfoldable pub generate_item : PendingQueue → Text → Text → PendingItem × PendingQueue
generate_item q workspace_id object_id = (
  record { workspace_id = workspace_id; object_id = object_id; seq = q.id_gen },
  record q { id_gen = wrapping_succ q.id_gen },
)

unfoldable pub push_item : PendingQueue → PendingItem → PendingQueue
push_item q item = record q { queue = push q.queue item }

unfoldable pub snapshot_key : Text → Text
snapshot_key object_id = codes "full_snapshot:" ++ object_id

-- What the task asks of the cache and the database, and what it logs about an item it gives up.
pub data Call (Encoded : Type 0) : Type 0 where
  cache_insert : Text → Encoded → Call Encoded
  cache_remove : Text → Call Encoded
  snapshot_created : PendingItem → Encoded → Call Encoded
  cannot_decode : PendingItem → Call Encoded
  not_cached : PendingItem → Call Encoded

-- What the cache, the check of the data, and the database answer during one command.
pub record Answers (Encoded E : Type 0) : Type 0 where
  pub try_get : Text → Result (Option Encoded) E
  pub check_encoded_collab_data : Text → Encoded → Bool
  pub try_begin : Bool
  pub create_snapshot : Text → Text → Encoded → Result Unit E

pub record InsertSnapshotParams (Encoded : Type 0) : Type 0 where
  pub object_id : Text
  pub encoded_collab_v1 : Encoded
  pub workspace_id : Text

pub data SnapshotCommand (Encoded : Type 0) : Type 0 where
  insert_snapshot : InsertSnapshotParams Encoded → SnapshotCommand Encoded
  tick : SnapshotCommand Encoded

pub record SnapshotMetric : Type 0 where
  pub success_write_snapshot_count : ℤ
  pub total_write_snapshot_count : ℤ

pub record SnapshotCommandRunner : Type 0 where
  pub queue : PendingQueue
  pub success_attempts : ℕ
  pub total_attempts : ℕ

unfoldable pub new : SnapshotCommandRunner
new = record { queue = empty_queue; success_attempts = 0; total_attempts = 0 }

unfoldable pub metric : SnapshotCommandRunner → SnapshotMetric
metric s = record {
  success_write_snapshot_count = as_count s.success_attempts;
  total_write_snapshot_count = as_count s.total_attempts;
}

-- The task after a batch, its calls in their order, and the result.
pub record Done (Encoded E : Type 0) : Type 0 where
  pub runner : SnapshotCommandRunner
  pub calls : List (Call Encoded)
  pub result : Result Unit E

-- The task after a command, its calls, and what it sends back.
pub record Handled (Encoded : Type 0) : Type 0 where
  pub runner : SnapshotCommandRunner
  pub calls : List (Call Encoded)
  pub reply : Option SnapshotMetric

unfoldable pub insert_item : SnapshotCommandRunner → Text → Text → SnapshotCommandRunner
insert_item s workspace_id object_id =
    let generated = generate_item s.queue workspace_id object_id in
    record s { queue = push_item generated.1 generated.0 }

module _ {Encoded E : Type 0} where
  unfoldable pub retry : SnapshotCommandRunner → PendingItem → Result Unit E → Done Encoded E
  retry s item result = record {
    runner = record s { queue = push_item s.queue item };
    calls = [];
    result = result;
  }

  unfoldable pub give_up : SnapshotCommandRunner → Call Encoded → Done Encoded E
  give_up s call = record { runner = s; calls = call ∷ []; result = ok tt }

  unfoldable pub succeed : SnapshotCommandRunner → PendingItem → Encoded → Done Encoded E
  succeed s item data_ = record {
    runner = record s { success_attempts = (s.success_attempts + 1) % 2 ^ 64 };
    calls = snapshot_created item data_ ∷ cache_remove (snapshot_key item.object_id) ∷ [];
    result = ok tt;
  }

  unfoldable pub write_snapshot :
      Answers Encoded E → SnapshotCommandRunner → PendingItem → Encoded → Done Encoded E
  write_snapshot a s item data_ = elim (a.create_snapshot item.workspace_id item.object_id data_) [
    | ok _ ↦ succeed s item data_
    | err e ↦ retry s item (err e)
  ]

  unfoldable pub process_item :
      Answers Encoded E → SnapshotCommandRunner → PendingItem → Done Encoded E
  process_item a s item = elim (a.try_get (snapshot_key item.object_id)) [
    | ok (some data_) ↦
        if a.check_encoded_collab_data item.object_id data_
        then (if a.try_begin then write_snapshot a s item data_ else retry s item (ok tt))
        else give_up s (cannot_decode item)
    | ok none ↦ give_up s (not_cached item)
    | err e ↦ retry s item (ok tt)
  ]

  unfoldable pub process_next_batch : Answers Encoded E → SnapshotCommandRunner → Done Encoded E
  process_next_batch a s = elim (pop pending_cmp s.queue.queue) [
    | none ↦ record { runner = s; calls = []; result = ok tt }
    | some (item, rest) ↦
        process_item a
          (record s {
            queue = record { id_gen = s.queue.id_gen; queue = rest };
            total_attempts = (s.total_attempts + 1) % 2 ^ 64;
          })
          item
  ]

  unfoldable pub handle_command :
      Answers Encoded E → SnapshotCommandRunner → SnapshotCommand Encoded → Handled Encoded
  handle_command a s (insert_snapshot params) = record {
    runner = insert_item s params.workspace_id params.object_id;
    calls = cache_insert (snapshot_key params.object_id) params.encoded_collab_v1 ∷ [];
    reply = none;
  }
  handle_command a s tick =
      let done = process_next_batch a s in
      record { runner = done.runner; calls = done.calls; reply = some (metric done.runner) }

  -- The commands in the order of their receipt, each with the answers during it.
  unfoldable pub run :
      SnapshotCommandRunner
      → List (SnapshotCommand Encoded × Answers Encoded E)
      → SnapshotCommandRunner × List (Call Encoded)
  run s [] = (s, [])
  run s ((command, a) ∷ commands) =
      let one = handle_command a s command in
      let rest = run one.runner commands in (rest.0, one.calls ++ rest.1)
