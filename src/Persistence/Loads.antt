-- ===== src/Persistence/Loads.antt =====
-- What `CollabStoragePlugin` of lib/realtime/src/server/collaborate/plugin.rs loads.
use flow_cloud.Base.{
  ◌+◌, ◌%◌, ◌^◌, ◌≡◌, refl, ◌∙◌, true, false, Option, none, some, List, [], ◌∷◌, Text, ok, err,
  ◌==◌, nat_eq, list_eq, list_beq_iff, arith, Option-cases, inl, inr, subst, ◌⊎◌,
}
use flow_cloud.Base.Int.{ℤ, int_eq}
use flow_cloud.Base.Map
use flow_cloud.Base.Map.{some_injective, get-insert}
use flow_cloud.Protocol.Codec.{Bytes}
use flow_cloud.RtServer.Group.{CollabKind}
use flow_cloud.Access.Action
use flow_cloud.Storage.Cache.{
  StorageApi, Row, Database, record_not_found, Env, CollabCache, CollabParams, QueryCollabParams,
  check_encoded_collab_data, get_encode_collab, get_encode_collab_bytes, insert_encode_collab_bytes,
  is_collab_exists, select_blob, insert_into_af_collab, attempt, times_out, disk_get,
  get_collab_encoded, insert_collab_encoded,
}
use flow_cloud.Storage.Documents.{
  Enforcers, CollabStorage, validate_params, validate_query, and_then, enforce_collab,
  check_collab_permission, grant, insert_or_update_collab_with_transaction, insert_or_update_collab,
  get_collab,
}
use flow_cloud.Persistence.{
  PluginApi, Snapshots, CollabStoragePlugin, is_valid, valid_snapshot, find_snapshot,
  get_latest_snapshot, insert_new_collab, init,
}

module _ {api : StorageApi} (p : PluginApi api) where
  -- A snapshot of the list whose bytes stand for the document.
  abbrev pub IsSnapshot : Snapshots → List (Text × ℤ) → api.EncodedCollab → Type 0
  IsSnapshot a [] e = ⊥
  IsSnapshot a ((meta_id, snapshot_id) ∷ metas) e =
      ((bytes : Bytes) × (a.get_snapshot meta_id snapshot_id ≡ some bytes)
        × (api.decode_from_bytes bytes ≡ some e))
      ⊎ IsSnapshot a metas e

  valid_snapshot-IsValid :
      (kind : CollabKind) (object_id : Text) (bytes : Bytes) (e : api.EncodedCollab)
      → valid_snapshot p kind object_id bytes ≡ some e
      → (api.decode_from_bytes bytes ≡ some e) × (is_valid p kind object_id e ≡ true)
  unfolding valid_snapshot
  valid_snapshot-IsValid kind object_id bytes e h =
      elim (Option-cases (api.decode_from_bytes bytes)) [
        | inl bad ↦ absurd (ground arith)
        | inr (e', decoded) ↦
            let parts : (some e' ≡ some e) × (is_valid p kind object_id e' ≡ true) =
              (ground arith, ground arith) in
            let same = some_injective parts.0 in
            (decoded ∙ parts.0, subst (λ d. is_valid p kind object_id d ≡ true) same parts.1)
      ]

  find_snapshot-IsValid :
      (a : Snapshots) (kind : CollabKind) (object_id : Text) (metas : List (Text × ℤ))
      (e : api.EncodedCollab)
      → find_snapshot p a kind object_id metas ≡ some e
      → IsSnapshot a metas e × (is_valid p kind object_id e ≡ true)
  unfolding find_snapshot
  find_snapshot-IsValid a kind object_id [] e h = absurd (cc)
  find_snapshot-IsValid a kind object_id ((meta_id, snapshot_id) ∷ metas) e h =
      elim (Option-cases (a.get_snapshot meta_id snapshot_id)) [
        | inl unread ↦ absurd (ground arith)
        | inr (bytes, read) ↦ elim (Option-cases (valid_snapshot p kind object_id bytes)) [
          | inl invalid ↦
              let (found, valid) = find_snapshot-IsValid a kind object_id metas e (ground arith) in
              (inr found, valid)
          | inr (e', found) ↦
              let (decoded, valid) = valid_snapshot-IsValid kind object_id bytes e (ground arith) in
              (inl (bytes, read, decoded), valid)
        ]
      ]

  -- The snapshots that the storage lists, or none.
  abbrev pub listed : Option (List (Text × ℤ)) → List (Text × ℤ)
  listed none = []
  listed (some metas) = metas

  -- A document that is restored from a snapshot is one of the snapshots that the storage lists, and
  -- is valid; so only documents and folders are ever restored.
  pub get_latest_snapshot-IsValid :
      (a : Snapshots) (kind : CollabKind) (object_id : Text) (e : api.EncodedCollab)
      → get_latest_snapshot p a kind object_id ≡ some e
      → IsSnapshot a (listed a.metas) e
        × (is_valid p kind object_id e ≡ true)
        × ((kind ≡ CollabKind.document) ⊎ (kind ≡ CollabKind.folder))
  unfolding get_latest_snapshot is_valid
  get_latest_snapshot-IsValid a kind object_id e h = elim (Option-cases a.metas) [
    | inl unlisted ↦ absurd (ground arith)
    | inr (metas, found) ↦
        let (snapshot, valid) = find_snapshot-IsValid a kind object_id metas e (ground arith) in
        (rw found snapshot, valid, restored kind valid)
  ]
    where
      restored :
          (k : CollabKind)
          → is_valid p k object_id e ≡ true
          → (k ≡ CollabKind.document) ⊎ (k ≡ CollabKind.folder)
      restored CollabKind.document valid = inl refl
      restored CollabKind.folder valid = inr refl
      restored CollabKind.database valid = absurd (cc)
      restored CollabKind.database_row valid = absurd (cc)
      restored CollabKind.workspace_database valid = absurd (cc)
      restored CollabKind.user_awareness valid = absurd (cc)

module _ {api : StorageApi} (ac : Enforcers) where
  -- A read that misses the cache, and finds no row of the type.
  get_collab-NotFound :
      (env : Env api) (storage : CollabStorage api ac) (uid : ℤ) (query : QueryCollabParams)
      (row : Row api)
      → validate_query query ≡ ok tt
      → enforce_collab ac env storage query.workspace_id uid query.object_id Action.read ≡ ok true
      → get_encode_collab_bytes env storage.cache query.object_id ≡ none
      → Map.get storage.cache.database.rows query.object_id ≡ some row
      → (row.partition_key == query.collab_type) ≡ false
      → env.select_fault 0 ≡ none
      → get_collab ac env storage uid query true ≡ (
        record storage {
          cache = record storage.cache {
            total_attempts = (storage.cache.total_attempts + 1) % 2 ^ 64;
          };
        },
        err record_not_found,
      )
  unfolding get_collab get_collab_encoded get_encode_collab get_encode_collab_bytes disk_get attempt
      times_out select_blob
  get_collab-NotFound env storage uid query row valid allowed missed found other works =
      let none_there : disk_get env storage.cache.database query 2 0 ≡ err record_not_found =
        rw (disk_get, times_out, attempt, works, select_blob, found, other) refl in
      let s' : CollabCache api = record storage.cache {
        total_attempts = (storage.cache.total_attempts + 1) % 2 ^ 64;
      } in
      let missed' : get_encode_collab env s' query.object_id ≡ none =
        rw (get_encode_collab, missed) refl in
      rw (get_collab, valid, allowed, get_collab_encoded, missed', none_there) refl

  -- An insertion of a document that is there.
  insert_or_update-Overwrites :
      (env : Env api) (storage : CollabStorage api ac) (workspace_id : Text) (uid : ℤ)
      (params : CollabParams) (row : Row api) (workspace : api.Uuid)
      → validate_params params ≡ ok tt
      → env.begin_works ≡ true
      → env.exists_works ≡ true
      → env.upsert_works ≡ true
      → env.commit_works ≡ true
      → Map.get storage.cache.database.rows params.object_id ≡ some row
      → ac.enforce_action storage.access_control workspace_id uid params.object_id Action.write
        ≡ ok true
      → check_encoded_collab_data api params.object_id params.encoded_collab_v1 ≡ true
      → api.parse_uuid workspace_id ≡ some workspace
      → api.uuid_eq.beq row.workspace_id workspace ≡ true
      → Map.get
          (insert_or_update_collab ac env storage workspace_id uid params).0.cache.database.rows
          params.object_id
        ≡ some (record row {
          blob = params.encoded_collab_v1;
          partition_key = params.collab_type;
          owner_uid = uid;
        })
  unfolding insert_or_update_collab insert_or_update_collab_with_transaction grant
      check_collab_permission enforce_collab is_collab_exists insert_collab_encoded
      insert_into_af_collab
  insert_or_update-Overwrites env storage workspace_id uid params row workspace valid begins asks
        upserts commits found may checked parsed same =
      let new : Row api = record row {
        blob = params.encoded_collab_v1;
        partition_key = params.collab_type;
        owner_uid = uid;
      } in
      let tx : Database api = record storage.cache.database {
        rows = Map.insert storage.cache.database.rows params.object_id new;
      } in
      let there : is_collab_exists env storage.cache.database params.object_id ≡ ok true =
        rw (is_collab_exists, asks, Map.contains_key, found) refl in
      let allowed : check_collab_permission ac env storage workspace_id uid params true ≡ ok tt =
        rw (check_collab_permission, enforce_collab, there, may) refl in
      let cache =
        insert_encode_collab_bytes env storage.cache params.object_id params.encoded_collab_v1 in
      let wrote : insert_collab_encoded env storage.cache storage.cache.database uid workspace_id
            params
          ≡ ok (cache, tx) =
        rw (insert_collab_encoded, checked, insert_into_af_collab, parsed, upserts, found, same)
          refl in
      let done : insert_or_update_collab_with_transaction ac env storage storage.cache.database
            workspace_id uid params
          ≡ (record storage { cache = cache }, ok tx) =
        rw (insert_or_update_collab_with_transaction, valid, there)
          (rw (grant, and_then, allowed, wrote) refl) in
      rw (insert_or_update_collab, valid, begins, done, commits)
        (ground (
          arith,
          get-insert storage.cache.database.rows params.object_id new params.object_id,
          list_beq_iff params.object_id params.object_id,
        ))

module _ {api : StorageApi} (p : PluginApi api) (ac : Enforcers) where
  -- A document is opened under another type than that of its row, in the row's workspace, by a user
  -- who may read and write it, while the cache does not have it. The query and the new document pass
  -- their checks, the new document can be encoded and its bytes decoded, and every call of the
  -- database succeeds. Then the row is overwritten with the new document, its type and the user as
  -- its owner.
  pub init-Overwrites :
      (env later : Env api) (s : CollabStoragePlugin p) (a : Snapshots)
      (storage : CollabStorage api ac) (object_id : Text) (doc : p.Doc) (row : Row api)
      (bytes : Bytes) (workspace : api.Uuid)
      → validate_query (record {
        workspace_id = s.workspace_id;
        object_id = object_id;
        collab_type = p.value s.collab_type;
      })
        ≡ ok tt
      → enforce_collab ac env storage s.workspace_id s.uid object_id Action.read ≡ ok true
      → get_encode_collab_bytes env storage.cache object_id ≡ none
      → Map.get storage.cache.database.rows object_id ≡ some row
      → (row.partition_key == p.value s.collab_type) ≡ false
      → env.select_fault 0 ≡ none
      → api.encode_to_bytes (p.get_encoded_collab_v1 doc) ≡ some bytes
      → validate_params (record {
        object_id = object_id;
        encoded_collab_v1 = bytes;
        collab_type = p.value s.collab_type;
      })
        ≡ ok tt
      → later.begin_works ≡ true
      → later.exists_works ≡ true
      → later.upsert_works ≡ true
      → later.commit_works ≡ true
      → ac.enforce_action storage.access_control s.workspace_id s.uid object_id Action.write
        ≡ ok true
      → check_encoded_collab_data api object_id bytes ≡ true
      → api.parse_uuid s.workspace_id ≡ some workspace
      → api.uuid_eq.beq row.workspace_id workspace ≡ true
      → Map.get (init p ac env later s a storage object_id doc).0.cache.database.rows object_id
        ≡ some
            (record row { blob = bytes; partition_key = p.value s.collab_type; owner_uid = s.uid })
  unfolding init insert_new_collab
  init-Overwrites env later s a storage object_id doc row bytes workspace valid reads missed found
        other works encoded valid_params begins asks upserts commits writes checked parsed same =
      let query : QueryCollabParams = record {
        workspace_id = s.workspace_id;
        object_id = object_id;
        collab_type = p.value s.collab_type;
      } in
      let params : CollabParams = record {
        object_id = object_id;
        encoded_collab_v1 = bytes;
        collab_type = p.value s.collab_type;
      } in
      let counted : CollabStorage api ac = record storage {
        cache = record storage.cache {
          total_attempts = (storage.cache.total_attempts + 1) % 2 ^ 64;
        };
      } in
      let got : get_collab ac env storage s.uid query true ≡ (counted, err record_not_found) =
        get_collab-NotFound ac env storage s.uid query row valid reads missed found other works in
      rw (init, got, insert_new_collab, encoded, got)
        (insert_or_update-Overwrites ac later counted s.workspace_id s.uid params row workspace
          valid_params begins asks upserts commits found writes checked parsed same)
