-- ===== src/Storage/Policies.antt =====
-- What the calls of src/biz/collab/storage.rs do to the access control: a new document's creator gets
-- full access, and nothing else changes it.
use flow_cloud.Base.{
  Bool, List, [], ◌∷◌, Text, Result, ok, err, none, Option-cases, ◌>>=◌, if◌then◌else◌, if_split,
  Result-cases, inl, inr, true, false,
}
use flow_cloud.Base.Int.{ℤ}
use flow_cloud.Dto.{AccessLevel}
use flow_cloud.Access.Action
use flow_cloud.Storage.Cache.{
  StorageApi, Database, StorageError, database_failed, Env, CollabCache, CollabParams,
  QueryCollabParams, is_collab_exists, insert_collab_encoded,
}
use flow_cloud.Storage.Documents.{
  Enforcers, CollabStorage, access, validate_params, validate_query, Outcome, and_then,
  enforce_collab, check_collab_permission, grant, insert_or_update_collab_with_transaction,
  insert_or_update_collab, get_collab, delete_collab,
}
use flow_cloud.Storage.Runs.{Call, inserted, fetched, deleted, call, calls}

-- What a grant of full access keeps.
module _ {api : StorageApi} (ac : Enforcers) (P : ac.State → Type 0)
    (grows : (a : ac.State) (uid : ℤ) (oid : Text)
      → P a
      → P (ac.update_access_level_policy a uid oid AccessLevel.full_access).0) where
  then-Keeps :
      {A B : Type 0} (o : Outcome api ac A) (f : CollabStorage api ac → A → Outcome api ac B)
      → P o.0.access_control
      → ((s : CollabStorage api ac) (a : A) → P s.access_control → P (f s a).0.access_control)
      → P (and_then o f).0.access_control
  then-Keeps (s, ok a) f h k = k s a h
  then-Keeps (s, err x) f h k = h

  grant-Keeps :
      (s : CollabStorage api ac) (uid : ℤ) (oid : Text) (exists : Bool)
      → P s.access_control
      → P (grant ac s uid oid exists).0.access_control
  unfolding grant
  grant-Keeps s uid oid true h = h
  grant-Keeps s uid oid false h = grows s.access_control uid oid h

  with_transaction-Keeps :
      (env : Env api) (s : CollabStorage api ac) (tx : Database api) (workspace_id : Text) (uid : ℤ)
      (params : CollabParams)
      → P s.access_control
      → P
          (insert_or_update_collab_with_transaction ac env s tx workspace_id uid
            params).0.access_control
  unfolding insert_or_update_collab_with_transaction
  with_transaction-Keeps env s tx workspace_id uid params h =
      elim (Result-cases
        (validate_params params >>= λ _. is_collab_exists env tx params.object_id)) [
          | inr (x, bad) ↦ rw (insert_or_update_collab_with_transaction, bad) h
          | inl (exists, asked) ↦
              rw (insert_or_update_collab_with_transaction, asked)
                (then-Keeps (grant ac s uid params.object_id exists) _
                  (grant-Keeps s uid params.object_id exists h)
                  (λ s' granted h'.
                    written s'
                      (check_collab_permission ac env s' workspace_id uid params exists >>= λ _.
                        insert_collab_encoded env s'.cache tx uid workspace_id params)
                      h'))
        ]
    where
      written :
          (s' : CollabStorage api ac) (r : Result (CollabCache api × Database api) StorageError)
          → P s'.access_control
          → P
              (elim r as (λ _. Outcome api ac (Database api)) [
                | err x ↦ (s', err x)
                | ok done ↦ (record s' { cache = done.0 }, ok done.1)
              ]).0.access_control
      written s' (err x) h' = h'
      written s' (ok done) h' = h'

  insert-Keeps :
      (env : Env api) (s : CollabStorage api ac) (workspace_id : Text) (uid : ℤ)
      (params : CollabParams)
      → P s.access_control
      → P (insert_or_update_collab ac env s workspace_id uid params).0.access_control
  unfolding insert_or_update_collab
  insert-Keeps env s workspace_id uid params h =
      elim (Result-cases
        (validate_params params >>= λ _. if env.begin_works then ok tt else err database_failed)) [
          | inr (x, bad) ↦ rw (insert_or_update_collab, bad) h
          | inl (unit, begun) ↦
              rw (insert_or_update_collab, begun)
                (then-Keeps
                  (insert_or_update_collab_with_transaction ac env s s.cache.database workspace_id
                    uid params)
                  _ (with_transaction-Keeps env s s.cache.database workspace_id uid params h)
                  (λ s' tx h'.
                    if_split (λ (o : Outcome api ac Unit). P o.0.access_control) env.commit_works _
                      _ (λ works. h') (λ fails. h')))
        ]

  get_collab-Keeps :
      (env : Env api) (s : CollabStorage api ac) (uid : ℤ) (query : QueryCollabParams) (init : Bool)
      → P s.access_control
      → P (get_collab ac env s uid query init).0.access_control
  unfolding get_collab
  get_collab-Keeps env s uid query init h =
      elim (Result-cases (
        validate_query query >>= λ _.
        enforce_collab ac env s query.workspace_id uid query.object_id Action.read)) [
          | inr (x, bad) ↦ rw (get_collab, bad) h
          | inl (false, denied) ↦ rw (get_collab, denied) h
          | inl (true, allowed) ↦ elim (Option-cases (if init then none else env.editing)) [
            | inr (e, edited) ↦ rw (get_collab, allowed, edited) h
            | inl none_edited ↦ rw (get_collab, allowed, none_edited) h
          ]
        ]

  delete_collab-Keeps :
      (env : Env api) (s : CollabStorage api ac) (workspace_id : Text) (uid : ℤ) (oid : Text)
      → P s.access_control
      → P (delete_collab ac env s workspace_id uid oid).0.access_control
  unfolding delete_collab
  delete_collab-Keeps env s workspace_id uid oid h =
      elim (Result-cases (
        access (
          ac.enforce_access_level s.access_control workspace_id uid oid AccessLevel.full_access))) [
            | inr (x, failed) ↦ rw (delete_collab, failed) h
            | inl (false, denied) ↦ rw (delete_collab, denied) h
            | inl (true, allowed) ↦ rw (delete_collab, allowed) h
          ]

  -- What holds of the access control and is kept by grants of full access holds after any calls.
  pub calls-Keeps :
      (s : CollabStorage api ac) (later : List (Env api × Call))
      → P s.access_control
      → P (calls ac s later).access_control
  unfolding calls call
  calls-Keeps s [] h = h
  calls-Keeps s ((env, inserted workspace_id uid params) ∷ later) h =
      calls-Keeps (insert_or_update_collab ac env s workspace_id uid params).0 later
        (insert-Keeps env s workspace_id uid params h)
  calls-Keeps s ((env, fetched uid query init) ∷ later) h =
      calls-Keeps (get_collab ac env s uid query init).0 later
        (get_collab-Keeps env s uid query init h)
  calls-Keeps s ((env, deleted workspace_id uid oid) ∷ later) h =
      calls-Keeps (delete_collab ac env s workspace_id uid oid).0 later
        (delete_collab-Keeps env s workspace_id uid oid h)
