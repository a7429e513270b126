-- ===== src/Storage/Documents.antt =====
-- src/biz/collab/storage.rs: `CollabStorageImpl`, with `CollabStorageAccessControlImpl` of
-- access_control.rs.
use flow_cloud.Base.{Bool, true, false, none, some, Text, Result, ok, err, ◌>>=◌, if◌then◌else◌}
use flow_cloud.Base.Int.{ℤ}
use flow_cloud.Dto.{Role, AccessLevel}
use flow_cloud.Access.Action.{Action}
use flow_cloud.Access.Enforcer.{AppError}
use flow_cloud.RtServer.Group.{is_empty}
use flow_cloud.Storage.Cache.{
  StorageApi, Database, StorageError, invalid_params, database_failed, record_not_found,
  not_enough_permissions, access_failed, Env, CollabCache, CollabParams, QueryCollabParams,
  is_collab_exists, insert_collab_encoded, get_collab_encoded, remove_collab,
}

-- The traits `CollabAccessControl` and `WorkspaceAccessControl`, as far as the storage calls them.
pub record Enforcers : Type 1 where
  pub State : Type 0
  pub update_access_level_policy : State → ℤ → Text → AccessLevel → State × Result Unit AppError
  pub enforce_action : State → Text → ℤ → Text → Action → Result Bool AppError
  pub enforce_access_level : State → Text → ℤ → Text → AccessLevel → Result Bool AppError
  pub enforce_role : State → ℤ → Text → Role → Result Bool AppError

pub record CollabStorage (api : StorageApi) (ac : Enforcers) : Type 0 where
  pub cache : CollabCache api
  pub access_control : ac.State

abbrev pub access : {A : Type 0} → Result A AppError → Result A StorageError
access (ok a) = ok a
access (err e) = err (access_failed e)

unfoldable pub validate_params : CollabParams → Result Unit StorageError
validate_params p =
    if is_empty p.object_id
    then err invalid_params
    else if is_empty p.encoded_collab_v1
    then err invalid_params
    else ok tt

unfoldable pub validate_query : QueryCollabParams → Result Unit StorageError
validate_query p =
    if is_empty p.workspace_id
    then err invalid_params
    else if is_empty p.object_id
    then err invalid_params
    else ok tt

abbrev pub Outcome : StorageApi → Enforcers → Type 0 → Type 0
Outcome api ac A = CollabStorage api ac × Result A StorageError

-- `?`, after which the state is that of the first call.
abbrev pub and_then :
    {api : StorageApi} {ac : Enforcers} {A B : Type 0}
    → Outcome api ac A
    → (CollabStorage api ac → A → Outcome api ac B)
    → Outcome api ac B
and_then (s, ok a) f = f s a
and_then (s, err x) f = (s, err x)

module _ {api : StorageApi} (ac : Enforcers) where
  -- access_control.rs.
  unfoldable pub enforce_collab :
      Env api → CollabStorage api ac → Text → ℤ → Text → Action → Result Bool StorageError
  enforce_collab env s workspace_id uid oid action = do
    collab_exists ← is_collab_exists env s.cache.database oid
    if collab_exists
        then access (ac.enforce_action s.access_control workspace_id uid oid action)
        else err record_not_found

  -- storage.rs.
  unfoldable pub check_collab_permission :
      Env api → CollabStorage api ac → Text → ℤ → CollabParams → Bool → Result Unit StorageError
  check_collab_permission env s workspace_id uid params is_collab_exist =
      let decide : Bool → Result Unit StorageError =
        λ can_write. if can_write then ok tt else err not_enough_permissions in
      if is_collab_exist
      then enforce_collab env s workspace_id uid params.object_id Action.write >>= decide
      else access (ac.enforce_role s.access_control uid workspace_id Role.owner) >>= decide

  -- A new document: its creator gets full access.
  unfoldable pub grant : CollabStorage api ac → ℤ → Text → Bool → Outcome api ac Unit
  grant s uid oid is_collab_exist =
      if is_collab_exist
      then (s, ok tt)
      else (let (access_control, result) =
            ac.update_access_level_policy s.access_control uid oid AccessLevel.full_access in
          (record s { access_control = access_control }, access result))

  -- The database in the result is that of the transaction.
  unfoldable pub insert_or_update_collab_with_transaction :
      Env api
      → CollabStorage api ac
      → Database api
      → Text
      → ℤ
      → CollabParams
      → Outcome api ac (Database api)
  insert_or_update_collab_with_transaction env s tx workspace_id uid params =
      elim (validate_params params >>= λ _. is_collab_exists env tx params.object_id) [
        | err x ↦ (s, err x)
        | ok is_collab_exist ↦ and_then (grant s uid params.object_id is_collab_exist) λ s' granted.
            elim (check_collab_permission env s' workspace_id uid params is_collab_exist >>= λ _.
            insert_collab_encoded env s'.cache tx uid workspace_id params) [
              | err x ↦ (s', err x)
              | ok done ↦ (record s' { cache = done.0 }, ok done.1)
            ]
      ]

  unfoldable pub insert_or_update_collab :
      Env api → CollabStorage api ac → Text → ℤ → CollabParams → Outcome api ac Unit
  insert_or_update_collab env s workspace_id uid params =
      elim (validate_params params >>= λ _.
      if env.begin_works then ok tt else err database_failed) [
        | err x ↦ (s, err x)
        | ok _ ↦
            and_then
              (insert_or_update_collab_with_transaction env s s.cache.database workspace_id uid
                params)
              λ s' tx.
                if env.commit_works
                then (record s' { cache = record s'.cache { database = tx } }, ok tt)
                else (s', err database_failed)
      ]

  unfoldable pub get_collab :
      Env api
      → CollabStorage api ac
      → ℤ
      → QueryCollabParams
      → Bool
      → Outcome api ac api.EncodedCollab
  get_collab env s uid params is_collab_init =
      elim (validate_query params >>= λ _.
      enforce_collab env s params.workspace_id uid params.object_id Action.read) [
        | err x ↦ (s, err x)
        | ok false ↦ (s, err not_enough_permissions)
        | ok true ↦ elim (if is_collab_init then none else env.editing) [
          | some e ↦ (s, ok e)
          | none ↦
              let (cache, result) = get_collab_encoded env s.cache params in
              (record s { cache = cache }, result)
        ]
      ]

  unfoldable pub delete_collab :
      Env api → CollabStorage api ac → Text → ℤ → Text → Outcome api ac Unit
  delete_collab env s workspace_id uid oid =
      elim (access
        (ac.enforce_access_level s.access_control workspace_id uid oid AccessLevel.full_access)) [
          | err x ↦ (s, err x)
          | ok false ↦ (s, err not_enough_permissions)
          | ok true ↦
              let (cache, result) = remove_collab env s.cache oid in
              (record s { cache = cache }, result)
        ]
