-- ===== src/Storage/Cache.antt =====
-- src/biz/collab/cache.rs with mem_cache.rs and disk_cache.rs, and the statements of
-- lib/database/src/collab/collab_db_ops.rs on which they stand.
use flow_cloud.Base.{
  ℕ, zero, suc, ◌+◌, ◌-◌, ◌%◌, ◌^◌, Bool, true, false, not, ◌&&◌, Option, none, some, List, ◌∷◌,
  Text, Result, ok, err, ◌>>=◌, Eq, ◌==◌, list_eq, nat_eq, if◌then◌else◌,
}
use flow_cloud.Base.Int.{ℤ, int_eq}
use flow_cloud.Base.Map
use flow_cloud.Base.Map.{Map}
use flow_cloud.Protocol.Codec.{Bytes}
use flow_cloud.Access.Enforcer.{AppError}

-- What the storage takes from the crates collab and uuid.
pub record StorageApi : Type 1 where
  pub EncodedCollab : Type 0
  pub decode_from_bytes : Bytes → Option EncodedCollab
  pub encode_to_bytes : EncodedCollab → Option Bytes
  pub new_with_doc_state : Text → EncodedCollab → Bool
  pub Uuid : Type 0
  pub uuid_eq : Eq Uuid
  pub parse_uuid : Text → Option Uuid

-- A row of `af_collab`; the partition key is the number of the document's type.
pub record Row (api : StorageApi) : Type 0 where
  pub blob : Bytes
  pub partition_key : ℤ
  pub owner_uid : ℤ
  pub workspace_id : api.Uuid
  pub is_deleted : Bool

-- `members` are the owners in `af_collab_member`; an owner that it names twice has one row.
pub record Database (api : StorageApi) : Type 0 where
  pub rows : Map Text (Row api)
  pub members : List (ℤ × Text)

pub data StorageError : Type 0 where
  invalid_params database_failed record_not_found not_enough_permissions internal invalid_request :
      StorageError
  access_failed : AppError → StorageError

pub data Fault : Type 0 where
  pool_timed_out other_fault : Fault

-- How Redis and Postgres behave during a call, and what the realtime server answers in time. A key
-- that has expired is one that Redis does not get.
pub record Env (api : StorageApi) : Type 0 where
  pub get_works : Bool
  pub set_works : Bool
  pub del_works : Bool
  pub begin_works : Bool
  pub exists_works : Bool
  pub upsert_works : Bool
  pub commit_works : Bool
  pub delete_works : Bool
  pub select_fault : ℕ → Option Fault
  pub editing : Option api.EncodedCollab

-- The counters are `AtomicU64`.
pub record CollabCache (api : StorageApi) : Type 0 where
  pub mem : Map Text Bytes
  pub database : Database api
  pub hits : ℕ
  pub total_attempts : ℕ

pub record CollabParams : Type 0 where
  pub object_id : Text
  pub encoded_collab_v1 : Bytes
  pub collab_type : ℤ

pub record QueryCollabParams : Type 0 where
  pub workspace_id : Text
  pub object_id : Text
  pub collab_type : ℤ

abbrev pub max_attempts : ℕ
max_attempts = 3

unfoldable pub check_encoded_collab_data : (api : StorageApi) → Text → Bytes → Bool
check_encoded_collab_data api object_id data_ = elim (api.decode_from_bytes data_) [
  | none ↦ false
  | some e ↦ api.new_with_doc_state object_id e
]

module _ {api : StorageApi} where
  -- mem_cache.rs. A failure of Redis is logged.
  unfoldable pub get_encode_collab_bytes : Env api → CollabCache api → Text → Option Bytes
  get_encode_collab_bytes env s object_id = if env.get_works then Map.get s.mem object_id else none

  unfoldable pub get_encode_collab : Env api → CollabCache api → Text → Option api.EncodedCollab
  get_encode_collab env s object_id = elim (get_encode_collab_bytes env s object_id) [
    | none ↦ none
    | some bytes ↦ api.decode_from_bytes bytes
  ]

  unfoldable pub insert_encode_collab_bytes :
      Env api → CollabCache api → Text → Bytes → CollabCache api
  insert_encode_collab_bytes env s object_id bytes =
      if env.set_works then record s { mem = Map.insert s.mem object_id bytes } else s

  unfoldable pub insert_encode_collab :
      Env api → CollabCache api → Text → api.EncodedCollab → CollabCache api
  insert_encode_collab env s object_id e = elim (api.encode_to_bytes e) [
    | none ↦ s
    | some bytes ↦ insert_encode_collab_bytes env s object_id bytes
  ]

  unfoldable pub remove_encode_collab :
      Env api → CollabCache api → Text → Result (CollabCache api) StorageError
  remove_encode_collab env s object_id =
      if env.del_works then ok (record s { mem = Map.remove s.mem object_id }) else err internal

  -- collab_db_ops.rs. A deleted row exists; only reading its blob passes it over.
  unfoldable pub is_collab_exists : Env api → Database api → Text → Result Bool StorageError
  is_collab_exists env db object_id =
      if env.exists_works then ok (Map.contains_key db.rows object_id) else err database_failed

  unfoldable pub select_blob : Database api → ℤ → Text → Option Bytes
  select_blob db collab_type object_id = elim (Map.get db.rows object_id) [
    | none ↦ none
    | some row ↦
        if row.partition_key == collab_type && not row.is_deleted then some row.blob else none
  ]

  unfoldable pub insert_into_af_collab :
      Env api → Database api → ℤ → Text → CollabParams → Result (Database api) StorageError
  insert_into_af_collab env db uid workspace_id params = elim (api.parse_uuid workspace_id) [
    | none ↦ err internal
    | some workspace ↦
        if not env.upsert_works
        then err database_failed
        else elim (Map.get db.rows params.object_id) [
          | some row ↦
              if api.uuid_eq.beq row.workspace_id workspace
              then ok (record db {
                rows = Map.insert db.rows params.object_id (record row {
                  blob = params.encoded_collab_v1;
                  partition_key = params.collab_type;
                  owner_uid = uid;
                });
              })
              else err internal
          | none ↦ ok (record {
            rows = Map.insert db.rows params.object_id (record {
              blob = params.encoded_collab_v1;
              partition_key = params.collab_type;
              owner_uid = uid;
              workspace_id = workspace;
              is_deleted = false;
            });
            members = (uid, params.object_id) ∷ db.members;
          })
        ]
  ]

  unfoldable pub delete_row : Database api → Text → Database api
  delete_row db object_id = elim (Map.get db.rows object_id) [
    | none ↦ db
    | some row ↦ record db {
      rows = Map.insert db.rows object_id (record row { is_deleted = true });
    }
  ]

  -- disk_cache.rs. The query is tried again after a timeout, at most twice.
  unfoldable pub attempt :
      Env api → Database api → QueryCollabParams → ℕ → Result api.EncodedCollab StorageError
  attempt env db params attempts = elim (env.select_fault attempts) [
    | none ↦ elim (select_blob db params.collab_type params.object_id) [
      | none ↦ err record_not_found
      | some blob ↦ elim (api.decode_from_bytes blob) [ none ↦ err internal | some e ↦ ok e ]
    ]
    | some fault ↦ err database_failed
  ]

  unfoldable pub times_out : Env api → ℕ → Bool
  times_out env attempts = elim (env.select_fault attempts) [
    | some pool_timed_out ↦ true
    | some other_fault ↦ false
    | none ↦ false
  ]

  unfoldable pub disk_get :
      Env api → Database api → QueryCollabParams → ℕ → ℕ → Result api.EncodedCollab StorageError
  disk_get env db params zero attempts = attempt env db params attempts
  disk_get env db params (suc retries) attempts =
      let again = disk_get env db params retries (attempts + 1) in
      if times_out env attempts then again else attempt env db params attempts

  -- cache.rs.
  unfoldable pub get_collab_encoded :
      Env api
      → CollabCache api
      → QueryCollabParams
      → CollabCache api × Result api.EncodedCollab StorageError
  get_collab_encoded env s params =
      let s' = record s { total_attempts = (s.total_attempts + 1) % 2 ^ 64 } in
      elim (get_encode_collab env s' params.object_id) [
        | some e ↦ (record s' { hits = (s'.hits + 1) % 2 ^ 64 }, ok e)
        | none ↦ elim (disk_get env s'.database params (max_attempts - 1) 0) [
          | ok e ↦ (insert_encode_collab env s' params.object_id e, ok e)
          | err x ↦ (s', err x)
        ]
      ]

  -- The database is that of the transaction.
  unfoldable pub insert_collab_encoded :
      Env api
      → CollabCache api
      → Database api
      → ℤ
      → Text
      → CollabParams
      → Result (CollabCache api × Database api) StorageError
  insert_collab_encoded env s tx uid workspace_id params =
      if check_encoded_collab_data api params.object_id params.encoded_collab_v1
      then (do
        tx' ← insert_into_af_collab env tx uid workspace_id params
        ok (insert_encode_collab_bytes env s params.object_id params.encoded_collab_v1, tx'))
      else err invalid_request

  unfoldable pub remove_collab :
      Env api → CollabCache api → Text → CollabCache api × Result Unit StorageError
  remove_collab env s object_id = elim (remove_encode_collab env s object_id) [
    | err x ↦ (s, err x)
    | ok s' ↦
        if env.delete_works
        then (record s' { database = delete_row s'.database object_id }, ok tt)
        else (s', err database_failed)
  ]
