-- ===== src/Storage/Failures.antt =====
-- Calls of src/biz/collab/storage.rs in which a later step fails or does less than it seems to.
use flow_cloud.Base.{
  ◌≡◌, refl, sym, true, false, none, some, Text, ok, err, arith, subst, list_eq, list_beq_iff, zero,
  suc, ℕ, ◌-◌, nat_eq,
}
use flow_cloud.Base.Int.{ℤ, int_eq}
use flow_cloud.Base.Map
use flow_cloud.Base.Map.{get-insert, some_injective}
use flow_cloud.Storage.Cache.{
  StorageApi, Row, Database, database_failed, record_not_found, Env, CollabCache, CollabParams,
  QueryCollabParams, insert_collab_encoded, insert_into_af_collab, insert_encode_collab_bytes,
  select_blob, attempt, times_out, disk_get, max_attempts,
}
use flow_cloud.Storage.Documents.{
  Enforcers, CollabStorage, validate_params, insert_or_update_collab_with_transaction,
  insert_or_update_collab,
}
use flow_cloud.Storage.Kept.{Written, with_transaction-Written}

module _ {api : StorageApi} (ac : Enforcers) where
  -- What an insertion that went through wrote to the cache.
  pub cached-insert_collab :
      (env : Env api) (s s' : CollabCache api) (tx tx' : Database api) (uid : ℤ)
      (workspace_id : Text) (params : CollabParams)
      → env.set_works ≡ true
      → insert_collab_encoded env s tx uid workspace_id params ≡ ok (s', tx')
      → (Map.get s'.mem params.object_id ≡ some params.encoded_collab_v1)
        × (s'.database ≡ s.database)
        × (insert_into_af_collab env tx uid workspace_id params ≡ ok tx')
  unfolding insert_collab_encoded insert_encode_collab_bytes
  cached-insert_collab env s s' tx tx' uid workspace_id params works h =
      let cached : s'.mem ≡ Map.insert s.mem params.object_id params.encoded_collab_v1 =
        ground arith in
      (
        rw cached (
            ground (
              arith,
              get-insert s.mem params.object_id params.encoded_collab_v1 params.object_id,
              list_beq_iff params.object_id params.object_id,
            )),
        ground arith,
        ground arith,
      )

  -- When all of an insertion goes through but its transaction does not commit, the call fails and
  -- the rows are as they were, but the new bytes are in the cache.
  pub insert-Uncommitted :
      (env : Env api) (s s' : CollabStorage api ac) (tx : Database api) (workspace_id : Text)
      (uid : ℤ) (params : CollabParams)
      → validate_params params ≡ ok tt
      → env.begin_works ≡ true
      → env.set_works ≡ true
      → env.commit_works ≡ false
      → insert_or_update_collab_with_transaction ac env s s.cache.database workspace_id uid params
        ≡ (s', ok tx)
      → (insert_or_update_collab ac env s workspace_id uid params ≡ (s', err database_failed))
        × (s'.cache.database ≡ s.cache.database)
        × (Map.get s'.cache.mem params.object_id ≡ some params.encoded_collab_v1)
  unfolding insert_or_update_collab
  insert-Uncommitted env s s' tx workspace_id uid params valid begins sets commits h =
      let wrote : insert_collab_encoded env s.cache s.cache.database uid workspace_id params
          ≡ ok (s'.cache, tx) =
        subst (Written ac env s s.cache.database workspace_id uid params) h
          (with_transaction-Written ac env s s.cache.database workspace_id uid params) in
      let (cached, same, written) =
        cached-insert_collab env s.cache s'.cache s.cache.database tx uid workspace_id params sets
          wrote in
      (rw (insert_or_update_collab, valid, begins, h, commits) refl, same, cached)

module _ {api : StorageApi} where
  insert_into-IsDeleted :
      (env : Env api) (db tx : Database api) (uid : ℤ) (workspace_id : Text) (params : CollabParams)
      (row : Row api) (collab_type : ℤ)
      → Map.get db.rows params.object_id ≡ some row
      → row.is_deleted ≡ true
      → insert_into_af_collab env db uid workspace_id params ≡ ok tx
      → select_blob tx collab_type params.object_id ≡ none
  unfolding insert_into_af_collab select_blob
  insert_into-IsDeleted env db tx uid workspace_id params row collab_type found dead h =
      let marked : Row api = record row {
        blob = params.encoded_collab_v1;
        partition_key = params.collab_type;
        owner_uid = uid;
      } in
      let rows : tx.rows ≡ Map.insert db.rows params.object_id marked = ground arith in
      let read : Map.get tx.rows params.object_id ≡ some marked = rw rows (
        ground (
          arith,
          get-insert db.rows params.object_id marked params.object_id,
          list_beq_iff params.object_id params.object_id,
        )) in
      rw (select_blob, read) (ground arith)

  attempt_lem :
      (env : Env api) (tx : Database api) (query : QueryCollabParams) (retries n : ℕ)
      → select_blob tx query.collab_type query.object_id ≡ none
      → env.select_fault n ≡ none
      → disk_get env tx query retries n ≡ err record_not_found
  unfolding disk_get attempt times_out
  attempt_lem env tx query zero n gone works = ground arith
  attempt_lem env tx query (suc retries) n gone works = ground arith

  -- A document that was deleted and is inserted again: the insertion goes through, but the row
  -- stays deleted, so that the database, when it can be asked at all, answers a read of the
  -- document by `record_not_found`, whatever was inserted.
  pub insert-StaysDeleted :
      (env later : Env api) (db tx : Database api) (uid : ℤ) (workspace_id : Text)
      (params : CollabParams) (row : Row api) (query : QueryCollabParams)
      → Map.get db.rows params.object_id ≡ some row
      → row.is_deleted ≡ true
      → insert_into_af_collab env db uid workspace_id params ≡ ok tx
      → query.object_id ≡ params.object_id
      → later.select_fault 0 ≡ none
      → disk_get later tx query (max_attempts - 1) 0 ≡ err record_not_found
  insert-StaysDeleted env later db tx uid workspace_id params row query found dead h same works =
      attempt_lem later tx query (max_attempts - 1) 0
        (subst (λ id. select_blob tx query.collab_type id ≡ none) (sym same)
          (insert_into-IsDeleted env db tx uid workspace_id params row query.collab_type found dead
            h))
        works
