-- ===== src/Tests/Snapshot.antt =====
-- Runs of the theorems on the task that writes snapshots.
use flow_cloud.Base.{ℕ, ◌+◌, ◌≡◌, true, false, some, List, [], ◌∷◌, ◌++◌, All, ok, codes}
use flow_cloud.Base.Int.{int_ltb}
use flow_cloud.Base.Heap.Total.{total}
use flow_cloud.Snapshot.{
  PendingItem, Answers, SnapshotCommand, insert_snapshot, tick, new, run, process_next_batch,
  SnapshotCommandRunner,
}
use flow_cloud.Snapshot.Conserve.{requested, settled, run-conserves, process_next_batch-IsOldest}

abbrev cached : Answers ℕ ℕ
cached = record {
  try_get = λ key. ok (some 7);
  check_encoded_collab_data = λ object_id data_. true;
  try_begin = true;
  create_snapshot = λ workspace_id object_id data_. ok tt;
}

abbrev busy : Answers ℕ ℕ
busy = record cached { try_begin = false }

abbrev inserts : List (SnapshotCommand ℕ × Answers ℕ ℕ)
inserts =
    (
      insert_snapshot
          (record { object_id = codes "a"; encoded_collab_v1 = 7; workspace_id = codes "w" }),
      cached,
    )
    ∷ (
      insert_snapshot
          (record { object_id = codes "b"; encoded_collab_v1 = 7; workspace_id = codes "w" }),
      cached,
    )
    ∷ []

abbrev some_commands : List (SnapshotCommand ℕ × Answers ℕ ℕ)
some_commands = inserts ++ (tick, busy) ∷ (tick, cached) ∷ []

abbrev one : PendingItem → ℕ
one item = 1

run-conserves_example :
    total one new.queue.queue + total one (requested new.queue.id_gen some_commands)
    ≡ total one (run new some_commands).0.queue.queue
      + total one (settled (run new some_commands).1)
run-conserves_example = run-conserves one new some_commands

abbrev queued : SnapshotCommandRunner
queued = (run new inserts).0

process_next_batch-IsOldest_example :
    All
      (λ i. All (λ y. int_ltb y.seq i.seq ≡ false) queued.queue.queue)
      (settled (process_next_batch cached queued).calls)
process_next_batch-IsOldest_example = process_next_batch-IsOldest cached queued
