-- ===== src/Storage/Batch.antt =====
-- src/biz/collab: the reading of many documents at once, by `batch_get_collab` of storage.rs and
-- `batch_get_encode_collab` of cache.rs, over `batch_select_collab_blob` of
-- lib/database/src/collab/collab_db_ops.rs.
pub mod Stored
use flow_cloud.Base.{
  ℕ, ◌≡◌, refl, sym, ap, ◌∙◌, subst, Bool, true, false, not, ◌&&◌, Option, none, some, List, [],
  ◌∷◌, ◌++◌, Text, ◌==◌, list_eq, nat_eq, contains, if◌then◌else◌, arith, Bool-cases, Option-cases,
  inl, inr, ◌⊎◌, any,
}
use flow_cloud.Base.Int.{ℤ, int_eq}
use flow_cloud.Base.Map
use flow_cloud.Base.Map.{Map, Holds, Holds-insert, AreDistinct, get-tail}
use flow_cloud.Protocol.Codec.{Bytes}
use flow_cloud.RtServer.Group.{is_empty}
use flow_cloud.Storage.Cache.{StorageApi, Row, Database, Env, CollabCache, get_encode_collab_bytes}
use flow_cloud.Storage.Documents.{Enforcers, CollabStorage}

pub record QueryCollab : Type 0 where
  pub object_id : Text
  pub collab_type : ℤ

pub data QueryCollabResult : Type 0 where
  success : Bytes → QueryCollabResult
  invalid record_not_found : QueryCollabResult

abbrev pub Results : Type 0
Results = Map Text QueryCollabResult

unfoldable pub extend : Results → Results → Results
extend m [] = m
extend m ((k, v) ∷ more) = extend (Map.insert m k v) more

-- The ids of each type.
unfoldable pub group_by_type : Map ℤ (List Text) → List QueryCollab → Map ℤ (List Text)
group_by_type m [] = m
group_by_type m (q ∷ qs) =
    group_by_type
      (Map.insert m q.collab_type (elim (Map.get m q.collab_type) [
        | none ↦ q.object_id ∷ []
        | some ids ↦ ids ++ q.object_id ∷ []
      ]))
      qs

unfoldable pub missing : List Text → Results → Results
missing [] found = []
missing (id ∷ ids) found =
    let rest = missing ids found in
    if Map.contains_key found id then rest else (id, record_not_found) ∷ rest

unfoldable pub split_valid : List QueryCollab → List QueryCollab × Results
split_valid [] = ([], [])
split_valid (q ∷ qs) =
    let (valid, bad) = split_valid qs in
    if is_empty q.object_id then (valid, (q.object_id, invalid) ∷ bad) else (q ∷ valid, bad)

module _ {api : StorageApi} where
  -- The rows of a type that are not deleted, among the ids.
  unfoldable pub select_rows : Map Text (Row api) → ℤ → List Text → Results
  select_rows [] collab_type ids = []
  select_rows ((oid, row) ∷ rows) collab_type ids =
      let rest = select_rows rows collab_type ids in
      if contains ids oid && (row.partition_key == collab_type && not row.is_deleted)
      then (oid, success row.blob) ∷ rest
      else rest

  -- Whether the query of a type works. An error is logged, and its ids have no result.
  unfoldable pub select_types : Database api → (ℤ → Bool) → Map ℤ (List Text) → Results → Results
  select_types db works [] results = results
  select_types db works ((collab_type, ids) ∷ types) results =
      let found = select_rows db.rows collab_type ids in
      let results' =
        if works collab_type then extend (extend results found) (missing ids found) else results in
      select_types db works types results'

  unfoldable pub batch_select_collab_blob : Database api → (ℤ → Bool) → List QueryCollab → Results
  batch_select_collab_blob db works queries = select_types db works (group_by_type [] queries) []

  -- What the cache holds, and the queries for the disk.
  unfoldable pub from_mem_cache :
      Env api → CollabCache api → List QueryCollab → Results × List QueryCollab
  from_mem_cache env s [] = ([], [])
  from_mem_cache env s (q ∷ qs) =
      let (cached, rest) = from_mem_cache env s qs in
      elim (get_encode_collab_bytes env s q.object_id) [
        | none ↦ (cached, q ∷ rest)
        | some bytes ↦ ((q.object_id, success bytes) ∷ cached, rest)
      ]

  unfoldable pub batch_get_encode_collab :
      Env api → (ℤ → Bool) → CollabCache api → List QueryCollab → Results
  batch_get_encode_collab env works s queries =
      let (cached, rest) = from_mem_cache env s queries in
      extend (extend [] cached) (batch_select_collab_blob s.database works rest)

  unfoldable pub batch_get_collab :
      Env api → (ℤ → Bool) → CollabCache api → List QueryCollab → Results
  batch_get_collab env works s queries =
      let (valid, bad) = split_valid queries in
      extend (extend [] bad) (batch_get_encode_collab env works s valid)
