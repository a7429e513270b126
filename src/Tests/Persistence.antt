-- ===== src/Tests/Persistence.antt =====
-- Runs of the theorems on the plugin that loads and saves a document.
use flow_cloud.Base.{
  ℕ, ◌≡◌, ◌⊎◌, refl, true, false, none, some, List, [], ◌∷◌, ok, ◌==◌, list_eq, nat_eq, codes, ◌+◌,
  arith,
}
use flow_cloud.Base.Int.{ℤ, pos, int_eq}
use flow_cloud.Base.Map
use flow_cloud.RtServer.Group.{CollabKind, document, folder}
use flow_cloud.Access.Action
use flow_cloud.Storage.Cache.{Row, CollabCache}
use flow_cloud.Storage.Cache as Cache
use flow_cloud.Storage.Documents.{CollabStorage}
use flow_cloud.Storage.Documents as Documents
use flow_cloud.Persistence.{
  PluginApi, Snapshots, CollabStoragePlugin, new_plugin, new_edit_state, set_did_load, init,
  get_latest_snapshot,
}
use flow_cloud.Persistence as Persistence
use flow_cloud.Persistence.Saves.{
  first_flush, last_flush, receive_updates, receive_updates-ByHundreds,
}
use flow_cloud.Persistence.Loads.{IsSnapshot, listed, get_latest_snapshot-IsValid, init-Overwrites}
use flow_cloud.Tests.Storage.{tiny_storage, open_enforcers, working, empty_cache, a_row}

-- The number of a type.
abbrev tiny_value : CollabKind → ℤ
tiny_value document = pos 0
tiny_value _ = pos 1

abbrev tiny_plugin : PluginApi tiny_storage
tiny_plugin = record {
  Doc = ℕ;
  Update = ℕ;
  Digest = List ℕ;
  digest_eq = list_eq;
  get_encoded_collab_v1 = λ doc. doc;
  doc_state = λ e. e ∷ [];
  decode_v1 = λ bytes. elim bytes [ [] ↦ none | b ∷ bs ↦ some b ];
  try_apply_update = λ doc update. (doc + update, true);
  md5 = λ bytes. bytes;
  value = tiny_value;
  check_document_is_valid = λ object_id e. true;
  check_folder_is_valid = λ object_id e. true;
}

abbrev two_times : List ℕ
two_times = 6 ∷ 900 ∷ []

abbrev a_plugin : CollabStoragePlugin tiny_plugin
a_plugin = new_plugin tiny_plugin 5 (pos 1) (codes "w") folder

receive_updates-ByHundreds_example :
    let waiting = receive_updates two_times (new_edit_state 5) in
    let e = receive_updates two_times (set_did_load waiting) in
    (waiting.prev_edit_count ≡ 0)
    × (e.edit_count ≡ 4)
    × (e.prev_edit_count ≡ last_flush (first_flush 2) 4)
receive_updates-ByHundreds_example = receive_updates-ByHundreds 5 two_times two_times (omega arith)

-- The row of the document "doc" has the type 0.
abbrev one_document : CollabStorage tiny_storage open_enforcers
one_document = record {
  cache = record empty_cache {
    database = record { rows = (codes "doc", a_row) ∷ []; members = [] };
  };
  access_control = tt;
}

abbrev some_snapshots : Snapshots
some_snapshots = record {
  should_create_snapshot = false;
  metas = some ((codes "doc", pos 3) ∷ []);
  get_snapshot = λ meta_id snapshot_id. some (4 ∷ []);
}

restored : get_latest_snapshot tiny_plugin some_snapshots folder (codes "doc") ≡ some 4
unfolding get_latest_snapshot Persistence.find_snapshot Persistence.valid_snapshot
    Persistence.is_valid
restored = refl

get_latest_snapshot-IsValid_example :
    IsSnapshot tiny_plugin some_snapshots (listed tiny_plugin some_snapshots.metas) 4
    × (Persistence.is_valid tiny_plugin folder (codes "doc") 4 ≡ true)
    × ((folder ≡ document) ⊎ (folder ≡ folder))
get_latest_snapshot-IsValid_example =
    get_latest_snapshot-IsValid tiny_plugin some_snapshots folder (codes "doc") 4 restored

valid_query :
    Documents.validate_query (record {
      workspace_id = a_plugin.workspace_id;
      object_id = codes "doc";
      collab_type = tiny_value a_plugin.collab_type;
    })
    ≡ ok tt
unfolding Documents.validate_query new_plugin
valid_query = refl

valid_params :
    Documents.validate_params (record {
      object_id = codes "doc";
      encoded_collab_v1 = 9 ∷ [];
      collab_type = tiny_value a_plugin.collab_type;
    })
    ≡ ok tt
unfolding Documents.validate_params
valid_params = refl

readable :
    Documents.enforce_collab open_enforcers working one_document a_plugin.workspace_id a_plugin.uid
      (codes "doc")
      Action.read
    ≡ ok true
unfolding Documents.enforce_collab Cache.is_collab_exists
readable = refl

uncached : Cache.get_encode_collab_bytes working one_document.cache (codes "doc") ≡ none
unfolding Cache.get_encode_collab_bytes
uncached = refl

other_type : (a_row.partition_key == tiny_value a_plugin.collab_type) ≡ false
unfolding new_plugin
other_type = refl

checked : Cache.check_encoded_collab_data tiny_storage (codes "doc") (9 ∷ []) ≡ true
unfolding Cache.check_encoded_collab_data
checked = refl

same_workspace : tiny_storage.uuid_eq.beq a_row.workspace_id a_plugin.workspace_id ≡ true
unfolding new_plugin
same_workspace = refl

init-Overwrites_example :
    Map.get
      (init tiny_plugin open_enforcers working working a_plugin some_snapshots one_document
        (codes "doc")
        9).0.cache.database.rows
      (codes "doc")
    ≡ some (record a_row {
      blob = 9 ∷ [];
      partition_key = tiny_value a_plugin.collab_type;
      owner_uid = a_plugin.uid;
    })
init-Overwrites_example =
    init-Overwrites tiny_plugin open_enforcers working working a_plugin some_snapshots one_document
      (codes "doc") 9 a_row (9 ∷ []) a_plugin.workspace_id valid_query readable uncached refl
      other_type refl refl valid_params refl refl refl refl refl checked refl same_workspace
