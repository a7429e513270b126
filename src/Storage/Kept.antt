-- ===== src/Storage/Kept.antt =====
-- What the calls of src/biz/collab/storage.rs leave in the cache and in the database.
use flow_cloud.Base.{
  ◌≡◌, refl, Bool, true, false, Text, Result, ok, err, ◌>>=◌, Result-cases, inl, inr, subst,
}
use flow_cloud.Base.Int.{ℤ}
use flow_cloud.Storage.Cache.{
  StorageApi, Database, StorageError, Env, CollabCache, CollabParams, is_collab_exists,
  insert_collab_encoded,
}
use flow_cloud.Storage.Documents.{
  Enforcers, CollabStorage, validate_params, Outcome, and_then, check_collab_permission, grant,
  insert_or_update_collab_with_transaction,
}

module _ {api : StorageApi} (ac : Enforcers) where
  pub cache-grant :
      (s : CollabStorage api ac) (uid : ℤ) (oid : Text) (exists : Bool)
      → (grant ac s uid oid exists).0.cache ≡ s.cache
  unfolding grant
  cache-grant s uid oid true = refl
  cache-grant s uid oid false = refl

  -- What a transaction leaves: on success, what the cache wrote.
  abbrev pub Written :
      Env api
      → CollabStorage api ac
      → Database api
      → Text
      → ℤ
      → CollabParams
      → Outcome api ac (Database api)
      → Type 0
  Written env s tx workspace_id uid params (s', ok tx') =
      insert_collab_encoded env s.cache tx uid workspace_id params ≡ ok (s'.cache, tx')
  Written env s tx workspace_id uid params (s', err x) = s'.cache ≡ s.cache

  pub with_transaction-Written :
      (env : Env api) (s : CollabStorage api ac) (tx : Database api) (workspace_id : Text) (uid : ℤ)
      (params : CollabParams)
      → Written env s tx workspace_id uid params
          (insert_or_update_collab_with_transaction ac env s tx workspace_id uid params)
  unfolding insert_or_update_collab_with_transaction
  with_transaction-Written env s tx workspace_id uid params =
      elim (Result-cases
        (validate_params params >>= λ _. is_collab_exists env tx params.object_id)) [
          | inr (x, bad) ↦ rw (insert_or_update_collab_with_transaction, bad) refl
          | inl (exists, valid) ↦
              rw (insert_or_update_collab_with_transaction, valid)
                (granted exists (grant ac s uid params.object_id exists)
                  (cache-grant s uid params.object_id exists))
        ]
    where
      only :
          (checked : Result Unit StorageError)
          (insert : Result (CollabCache api × Database api) StorageError)
          (done : CollabCache api × Database api)
          → (checked >>= λ _. insert) ≡ ok done
          → insert ≡ ok done
      only (ok unit) insert done h = h
      only (err x) insert done h = absurd (cc)

      finish :
          (s' : CollabStorage api ac)
          → s'.cache ≡ s.cache
          → (r : Result (CollabCache api × Database api) StorageError)
          → ((done : CollabCache api × Database api)
              → r ≡ ok done
              → insert_collab_encoded env s.cache tx uid workspace_id params ≡ ok done)
          → Written env s tx workspace_id uid params
              (elim r [ err x ↦ (s', err x) | ok done ↦ (record s' { cache = done.0 }, ok done.1) ])
      finish s' same (err x) h = same
      finish s' same (ok done) h = h done refl

      granted :
          (exists : Bool) (o : Outcome api ac Unit)
          → o.0.cache ≡ s.cache
          → Written env s tx workspace_id uid params (
              and_then o λ s' unit.
                elim (check_collab_permission ac env s' workspace_id uid params exists >>= λ _.
                insert_collab_encoded env s'.cache tx uid workspace_id params) [
                  | err x ↦ (s', err x)
                  | ok done ↦ (record s' { cache = done.0 }, ok done.1)
                ])
      granted exists (s', err x) same = same
      granted exists (s', ok unit) same =
          let checked = check_collab_permission ac env s' workspace_id uid params exists in
          let insert = insert_collab_encoded env s'.cache tx uid workspace_id params in
          finish s' same (checked >>= λ _. insert) λ done wrote.
            subst (λ c. insert_collab_encoded env c tx uid workspace_id params ≡ ok done) same
              (only checked insert done wrote)
