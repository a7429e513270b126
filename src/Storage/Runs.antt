-- ===== src/Storage/Runs.antt =====
-- Sequences of calls of src/biz/collab/storage.rs, one after the other.
use flow_cloud.Base.{
  ◌≡◌, sym, Bool, true, false, none, List, [], ◌∷◌, Text, ok, err, ◌>>=◌, if◌then◌else◌,
  Option-cases, Result-cases, inl, inr, subst,
}
use flow_cloud.Base.Int.{ℤ}
use flow_cloud.Dto.{AccessLevel}
use flow_cloud.Access.Action
use flow_cloud.Storage.Cache.{
  StorageApi, Database, database_failed, Env, CollabParams, QueryCollabParams,
}
use flow_cloud.Storage.Documents.{
  Enforcers, CollabStorage, access, validate_params, validate_query, Outcome, and_then,
  enforce_collab, insert_or_update_collab_with_transaction, insert_or_update_collab, get_collab,
  delete_collab,
}
use flow_cloud.Storage.Coherence.{
  RoundTrips, AreCoherent, insert_collab-AreCoherent, get_collab-AreCoherent,
  remove_collab-AreCoherent,
}
use flow_cloud.Storage.Kept.{Written, with_transaction-Written}

-- The calls that change the cache or the database.
pub data Call : Type 0 where
  inserted : Text → ℤ → CollabParams → Call
  fetched : ℤ → QueryCollabParams → Bool → Call
  deleted : Text → ℤ → Text → Call

module _ {api : StorageApi} (ac : Enforcers) where
  unfoldable pub call : Env api → CollabStorage api ac → Call → CollabStorage api ac
  call env s (inserted workspace_id uid params) =
      (insert_or_update_collab ac env s workspace_id uid params).0
  call env s (fetched uid params is_collab_init) = (get_collab ac env s uid params is_collab_init).0
  call env s (deleted workspace_id uid oid) = (delete_collab ac env s workspace_id uid oid).0

  unfoldable pub calls : CollabStorage api ac → List (Env api × Call) → CollabStorage api ac
  calls s [] = s
  calls s ((env, c) ∷ rest) = calls (call env s c) rest

  -- Redis takes what is written, and a transaction that is begun commits.
  abbrev pub AllWork : List (Env api × Call) → Type 0
  AllWork [] = Unit {0}
  AllWork ((env, c) ∷ rest) = (env.set_works ≡ true) × (env.commit_works ≡ true) × AllWork rest

  abbrev pub IsCoherent : CollabStorage api ac → Type 0
  IsCoherent s = AreCoherent s.cache.mem s.cache.database

  insert_or_update_collab-IsCoherent :
      (env : Env api) (s : CollabStorage api ac) (workspace_id : Text) (uid : ℤ)
      (params : CollabParams)
      → env.set_works ≡ true
      → env.commit_works ≡ true
      → IsCoherent s
      → IsCoherent (insert_or_update_collab ac env s workspace_id uid params).0
  unfolding insert_or_update_collab
  insert_or_update_collab-IsCoherent env s workspace_id uid params sets commits h =
      elim (Result-cases
        (validate_params params >>= λ _. if env.begin_works then ok tt else err database_failed)) [
          | inr (x, bad) ↦ rw (insert_or_update_collab, bad) h
          | inl (unit, begun) ↦
              rw (insert_or_update_collab, begun)
                (committed
                  (insert_or_update_collab_with_transaction ac env s s.cache.database workspace_id
                    uid params)
                  (with_transaction-Written ac env s s.cache.database workspace_id uid params))
        ]
    where
      committed :
          (o : Outcome api ac (Database api))
          → Written ac env s s.cache.database workspace_id uid params o
          → IsCoherent
              (and_then o λ s' tx.
                if env.commit_works
                then (record s' { cache = record s'.cache { database = tx } }, ok tt)
                else (s', err database_failed)).0
      committed (s', err x) same = subst (λ c. AreCoherent c.mem c.database) (sym same) h
      committed (s', ok tx) wrote =
          rw commits
            (insert_collab-AreCoherent env s.cache s'.cache uid workspace_id params tx sets h wrote)

  get_collab-IsCoherent :
      (env : Env api) (s : CollabStorage api ac) (uid : ℤ) (params : QueryCollabParams)
      (is_collab_init : Bool)
      → RoundTrips api
      → IsCoherent s
      → IsCoherent (get_collab ac env s uid params is_collab_init).0
  unfolding get_collab
  get_collab-IsCoherent env s uid params is_collab_init trips h =
      elim (Result-cases (
        validate_query params >>= λ _.
        enforce_collab ac env s params.workspace_id uid params.object_id Action.read)) [
          | inr (x, bad) ↦ rw (get_collab, bad) h
          | inl (false, denied) ↦ rw (get_collab, denied) h
          | inl (true, allowed) ↦
              elim (Option-cases (if is_collab_init then none else env.editing)) [
                | inr (e, edited) ↦ rw (get_collab, allowed, edited) h
                | inl none_edited ↦
                    rw (get_collab, allowed, none_edited)
                      (get_collab-AreCoherent env s.cache params trips h)
              ]
        ]

  delete_collab-IsCoherent :
      (env : Env api) (s : CollabStorage api ac) (workspace_id : Text) (uid : ℤ) (oid : Text)
      → IsCoherent s
      → IsCoherent (delete_collab ac env s workspace_id uid oid).0
  unfolding delete_collab
  delete_collab-IsCoherent env s workspace_id uid oid h =
      elim (Result-cases (
        access (
          ac.enforce_access_level s.access_control workspace_id uid oid AccessLevel.full_access))) [
            | inr (x, failed) ↦ rw (delete_collab, failed) h
            | inl (false, denied) ↦ rw (delete_collab, denied) h
            | inl (true, allowed) ↦
                rw (delete_collab, allowed) (remove_collab-AreCoherent env s.cache oid h)
          ]

  -- While Redis takes what is written, and every transaction that is begun commits, the cache
  -- agrees with the database after any sequence of insertions, reads and deletions: whatever is
  -- cached for a document is decoded to the same document as the bytes of its row. This is said of
  -- an encoding that decodes to what was encoded, of a storage in which the two agreed before, and
  -- of any other failure.
  pub calls-IsCoherent :
      (s : CollabStorage api ac) (cs : List (Env api × Call))
      → RoundTrips api
      → AllWork cs
      → IsCoherent s
      → IsCoherent (calls s cs)
  unfolding calls call
  calls-IsCoherent s [] trips works h = h
  calls-IsCoherent s ((env, inserted w uid params) ∷ cs) trips (sets, commits, works) h =
      calls-IsCoherent (call env s (inserted w uid params)) cs trips works
        (insert_or_update_collab-IsCoherent env s w uid params sets commits h)
  calls-IsCoherent s ((env, fetched uid params init) ∷ cs) trips (sets, commits, works) h =
      calls-IsCoherent (call env s (fetched uid params init)) cs trips works
        (get_collab-IsCoherent env s uid params init trips h)
  calls-IsCoherent s ((env, deleted w uid oid) ∷ cs) trips (sets, commits, works) h =
      calls-IsCoherent (call env s (deleted w uid oid)) cs trips works
        (delete_collab-IsCoherent env s w uid oid h)
