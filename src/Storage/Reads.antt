-- ===== src/Storage/Reads.antt =====
-- A read of src/biz/collab/storage.rs after a write of the same document.
use flow_cloud.Base.{
  ◌≡◌, refl, sym, ap, ◌∙◌, Bool, true, none, some, Text, ok, err, ◌>>=◌, if◌then◌else◌,
  Result-cases, Bool-cases, inl, inr, subst, list_eq, nat_eq,
}
use flow_cloud.Base.Int.{ℤ}
use flow_cloud.Base.Map
use flow_cloud.Access.Action
use flow_cloud.Storage.Cache.{
  StorageApi, Database, database_failed, Env, CollabParams, QueryCollabParams, get_collab_encoded,
  get_encode_collab, get_encode_collab_bytes,
}
use flow_cloud.Storage.Documents.{
  Enforcers, CollabStorage, validate_params, validate_query, Outcome, and_then, enforce_collab,
  insert_or_update_collab_with_transaction, insert_or_update_collab, get_collab,
}
use flow_cloud.Storage.Kept.{Written, with_transaction-Written}
use flow_cloud.Storage.Failures.{cached-insert_collab}

module _ {api : StorageApi} (ac : Enforcers) where
  cached-insert_or_update :
      (env : Env api) (s s' : CollabStorage api ac) (workspace_id : Text) (uid : ℤ)
      (params : CollabParams)
      → env.set_works ≡ true
      → insert_or_update_collab ac env s workspace_id uid params ≡ (s', ok tt)
      → Map.get s'.cache.mem params.object_id ≡ some params.encoded_collab_v1
  unfolding insert_or_update_collab
  cached-insert_or_update env s s' workspace_id uid params sets h =
      elim (Result-cases
        (validate_params params >>= λ _. if env.begin_works then ok tt else err database_failed)) [
          | inr (x, bad) ↦ absurd (refused x (rw (insert_or_update_collab, bad) refl))
          | inl (unit, begun) ↦
              committed
                (insert_or_update_collab_with_transaction ac env s s.cache.database workspace_id uid
                  params)
                (with_transaction-Written ac env s s.cache.database workspace_id uid params)
                (sym (rw (insert_or_update_collab, begun) refl) ∙ h)
        ]
    where
      refused : (x : _) → insert_or_update_collab ac env s workspace_id uid params ≡ (s, err x) → ⊥
      refused x e =
          let both : err x ≡ ok tt = ap (λ (o : Outcome api ac Unit). o.1) (sym e ∙ h) in cc

      committed :
          (o : Outcome api ac (Database api))
          → Written ac env s s.cache.database workspace_id uid params o
          → and_then o (λ s'' tx.
            if env.commit_works
            then (record s'' { cache = record s''.cache { database = tx } }, ok tt)
            else (s'', err database_failed))
            ≡ (s', ok tt)
          → Map.get s'.cache.mem params.object_id ≡ some params.encoded_collab_v1
      committed (s'', err x) wrote e =
          let both : err x ≡ ok tt = ap (λ (o : Outcome api ac Unit). o.1) e in absurd (cc)
      committed (s'', ok tx) wrote e =
          let (cached, kept, written) =
            cached-insert_collab ac env s.cache s''.cache s.cache.database tx uid workspace_id
              params sets wrote in
          let same : s''.cache.mem ≡ s'.cache.mem = elim (Bool-cases env.commit_works) [
            | inl c ↦ ap (λ (o : Outcome api ac Unit). o.0.cache.mem) (rw c at e)
            | inr c ↦ ap (λ (o : Outcome api ac Unit). o.0.cache.mem) (rw c at e)
          ] in
          subst (λ m. Map.get m params.object_id ≡ some params.encoded_collab_v1) same cached

  -- After an insertion that succeeded, with Redis taking what it wrote, a read of the document
  -- that Redis answers, by a user who may read it and with no answer from an open group, gives
  -- the document that the inserted bytes stand for.
  pub insert-Reads :
      (env later : Env api) (s s' : CollabStorage api ac) (workspace_id : Text) (uid reader : ℤ)
      (params : CollabParams) (query : QueryCollabParams) (is_collab_init : Bool)
      (e : api.EncodedCollab)
      → env.set_works ≡ true
      → insert_or_update_collab ac env s workspace_id uid params ≡ (s', ok tt)
      → later.get_works ≡ true
      → validate_query query ≡ ok tt
      → query.object_id ≡ params.object_id
      → enforce_collab ac later s' query.workspace_id reader query.object_id Action.read ≡ ok true
      → (if is_collab_init then none else later.editing) ≡ none
      → api.decode_from_bytes params.encoded_collab_v1 ≡ some e
      → (get_collab ac later s' reader query is_collab_init).1 ≡ ok e
  unfolding get_collab get_collab_encoded get_encode_collab get_encode_collab_bytes
  insert-Reads env later s s' workspace_id uid reader params query is_collab_init e sets h gets
        valid same allowed closed decoded =
      let cached : Map.get s'.cache.mem query.object_id ≡ some params.encoded_collab_v1 =
        rw same (cached-insert_or_update env s s' workspace_id uid params sets h) in
      rw
        (
          get_collab, valid, allowed, closed, get_collab_encoded, get_encode_collab,
          get_encode_collab_bytes, gets, cached, decoded,
        )
        refl
