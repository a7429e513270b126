-- ===== src/Persistence.antt =====
-- lib/realtime/src/server/collaborate/plugin.rs: `CollabStoragePlugin`, which loads a document from the
-- storage when its group is created, and saves it when the group ends.
pub mod Saves
pub mod Loads
use flow_cloud.Base.{
  ℕ, ◌+◌, ◌-◌, ◌*◌, ◌%◌, ◌^◌, Bool, true, false, not, ◌&&◌, Option, none, some, List, [], ◌∷◌, Text,
  Result, ok, err, ltb, leb, Eq, ◌==◌, nat_eq, if◌then◌else◌, option_beq,
}
use flow_cloud.Base.Int.{ℤ}
use flow_cloud.Protocol.Codec.{Bytes}
use flow_cloud.RtServer.Group.{
  is_empty, CollabKind, document, database, database_row, workspace_database, folder,
  user_awareness,
}
use flow_cloud.Storage.Cache.{
  StorageApi, StorageError, record_not_found, Env, CollabParams, QueryCollabParams,
}
use flow_cloud.Storage.Documents.{
  Enforcers, CollabStorage, get_collab, insert_or_update_collab, and_then,
}

-- What the plugin takes of the crates collab, yrs and md5. A failed `try_apply_update` may change the
-- document.
pub record PluginApi (api : StorageApi) : Type 1 where
  pub Doc : Type 0
  pub Update : Type 0
  pub Digest : Type 0
  pub digest_eq : Eq Digest
  pub get_encoded_collab_v1 : Doc → api.EncodedCollab
  pub doc_state : api.EncodedCollab → Bytes
  pub decode_v1 : Bytes → Option Update
  pub try_apply_update : Doc → Update → Doc × Bool
  pub md5 : Bytes → Digest
  pub value : CollabKind → ℤ
  pub check_document_is_valid : Text → api.EncodedCollab → Bool
  pub check_folder_is_valid : Text → api.EncodedCollab → Bool

-- The counts are `AtomicU32`; a timestamp is in seconds.
pub record CollabEditState : Type 0 where
  pub edit_count : ℕ
  pub prev_edit_count : ℕ
  pub prev_flush_timestamp : ℕ
  pub did_load_collab : Bool

unfoldable pub new_edit_state : ℕ → CollabEditState
new_edit_state now = record {
  edit_count = 0;
  prev_edit_count = 0;
  prev_flush_timestamp = now;
  did_load_collab = false;
}

unfoldable pub set_did_load : CollabEditState → CollabEditState
set_did_load e = record e { did_load_collab = true }

unfoldable pub increment_edit_count : CollabEditState → CollabEditState
increment_edit_count e = record e { edit_count = (e.edit_count + 1) % 2 ^ 32 }

unfoldable pub tick : ℕ → CollabEditState → CollabEditState
tick now e = record e { prev_edit_count = e.edit_count; prev_flush_timestamp = now }

unfoldable pub should_flush : ℕ → CollabEditState → ℕ → ℕ → Bool
should_flush now e max_edit_count max_interval =
    if ltb e.prev_edit_count e.edit_count
    then leb max_edit_count (e.edit_count - e.prev_edit_count)
    else if ltb e.prev_flush_timestamp now && not (e.edit_count == e.prev_edit_count)
    then leb max_interval (now - e.prev_flush_timestamp)
    else false

unfoldable pub receive_update : ℕ → CollabEditState → CollabEditState
receive_update now e =
    let e' = increment_edit_count e in
    if not e'.did_load_collab
    then e'
    else if should_flush now e' 100 (3 * 60)
    then tick now e'
    else e'

-- What the storage knows of the snapshots of a document: whether one is due, the list of them, and
-- the bytes of each.
pub record Snapshots : Type 0 where
  pub should_create_snapshot : Bool
  pub metas : Option (List (Text × ℤ))
  pub get_snapshot : Text → ℤ → Option Bytes

pub record CollabStoragePlugin {api : StorageApi} (p : PluginApi api) : Type 0 where
  pub uid : ℤ
  pub workspace_id : Text
  pub edit_state : CollabEditState
  pub collab_type : CollabKind
  pub latest_collab_md5 : Option p.Digest

module _ {api : StorageApi} (p : PluginApi api) where
  unfoldable pub new_plugin : ℕ → ℤ → Text → CollabKind → CollabStoragePlugin p
  new_plugin now uid workspace_id collab_type = record {
    uid = uid;
    workspace_id = workspace_id;
    edit_state = new_edit_state now;
    collab_type = collab_type;
    latest_collab_md5 = none;
  }

  -- The document, and whether the update was applied.
  unfoldable pub init_collab : api.EncodedCollab → p.Doc → p.Doc × Bool
  init_collab e doc =
      if is_empty (p.doc_state e) then (doc, false) else elim (p.decode_v1 (p.doc_state e)) [
        | none ↦ (doc, false)
        | some update ↦ p.try_apply_update doc update
      ]

  unfoldable pub is_valid : CollabKind → Text → api.EncodedCollab → Bool
  is_valid document object_id e = p.check_document_is_valid object_id e
  is_valid database object_id e = false
  is_valid database_row object_id e = false
  is_valid workspace_database object_id e = false
  is_valid folder object_id e = p.check_folder_is_valid object_id e
  is_valid user_awareness object_id e = false

  -- The document of a snapshot, if it is one and is valid.
  unfoldable pub valid_snapshot : CollabKind → Text → Bytes → Option api.EncodedCollab
  valid_snapshot kind object_id bytes = elim (api.decode_from_bytes bytes) [
    | none ↦ none
    | some e ↦
        if api.new_with_doc_state object_id e
        then if is_valid kind object_id e then some e else none
        else none
  ]

  -- The search ends at the first snapshot that cannot be read.
  unfoldable pub find_snapshot :
      Snapshots → CollabKind → Text → List (Text × ℤ) → Option api.EncodedCollab
  find_snapshot a kind object_id [] = none
  find_snapshot a kind object_id ((meta_id, snapshot_id) ∷ metas) =
      let rest = find_snapshot a kind object_id metas in
      elim (a.get_snapshot meta_id snapshot_id) [
        | none ↦ none
        | some bytes ↦ elim (valid_snapshot kind object_id bytes) [ none ↦ rest | some e ↦ some e ]
      ]

  unfoldable pub get_latest_snapshot : Snapshots → CollabKind → Text → Option api.EncodedCollab
  get_latest_snapshot a kind object_id = elim a.metas [
    | none ↦ none
    | some metas ↦ find_snapshot a kind object_id metas
  ]

  -- What is to be saved, by a task of its own.
  unfoldable pub flush :
      CollabStoragePlugin p → Text → p.Doc → CollabStoragePlugin p × Option CollabParams
  flush s object_id doc = elim (api.encode_to_bytes (p.get_encoded_collab_v1 doc)) [
    | none ↦ (s, none)
    | some bytes ↦
        if option_beq ⦃e = p.digest_eq⦄ s.latest_collab_md5 (some (p.md5 bytes))
        then (s, none)
        else (
          record s { latest_collab_md5 = some (p.md5 bytes) },
          some (record {
            object_id = object_id;
            encoded_collab_v1 = bytes;
            collab_type = p.value s.collab_type;
          }),
        )
  ]

  module _ (ac : Enforcers) where
    unfoldable pub insert_new_collab :
        Env api → CollabStoragePlugin p → CollabStorage api ac → Text → p.Doc → CollabStorage api ac
    insert_new_collab env s storage object_id doc =
        elim (api.encode_to_bytes (p.get_encoded_collab_v1 doc)) [
          | none ↦ storage
          | some bytes ↦
              (insert_or_update_collab ac env storage s.workspace_id s.uid (record {
                object_id = object_id;
                encoded_collab_v1 = bytes;
                collab_type = p.value s.collab_type;
              })).0
        ]

    -- The document that the storage has, or the latest valid snapshot of it, and the bytes of a
    -- snapshot to queue.
    unfoldable pub load :
        CollabStoragePlugin p → Snapshots → Text → p.Doc → api.EncodedCollab → p.Doc × Option Bytes
    load s a object_id doc e =
        let loaded = init_collab e doc in
        if loaded.1
        then (loaded.0, if a.should_create_snapshot then api.encode_to_bytes e else none)
        else elim (get_latest_snapshot a s.collab_type object_id) [
          | none ↦ (loaded.0, none)
          | some snapshot ↦ ((init_collab snapshot loaded.0).0, none)
        ]

    -- `init`. The second `Env` is that of the insertion.
    unfoldable pub init :
        Env api
        → Env api
        → CollabStoragePlugin p
        → Snapshots
        → CollabStorage api ac
        → Text
        → p.Doc
        → CollabStorage api ac × (p.Doc × Option Bytes)
    init env later s a storage object_id doc =
        let query : QueryCollabParams = record {
          workspace_id = s.workspace_id;
          object_id = object_id;
          collab_type = p.value s.collab_type;
        } in
        let got = get_collab ac env storage s.uid query true in
        elim got.1 [
          | ok e ↦ (got.0, load s a object_id doc e)
          | err record_not_found ↦ (insert_new_collab later s got.0 object_id doc, (doc, none))
          | err other ↦ (got.0, (doc, none))
        ]
