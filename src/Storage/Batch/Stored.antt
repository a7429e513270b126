-- ===== src/Storage/Batch/Stored.antt =====
-- What a reading of many documents at once answers.
use flow_cloud.Base.{
  ◌≡◌, refl, sym, subst, Bool, true, false, not, ◌&&◌, some, List, [], ◌∷◌, Text, ◌==◌, list_eq,
  nat_eq, contains, arith, Bool-cases, Option-cases, inl, inr, ◌⊎◌, list_beq_iff,
}
use flow_cloud.Base.Int.{ℤ, int_eq}
use flow_cloud.Base.Map
use flow_cloud.Base.Map.{Map, Holds, AreDistinct, get-tail, some_injective}
use flow_cloud.RtServer.Group.{is_empty}
use flow_cloud.Storage.Cache.{StorageApi, Row, Env, CollabCache, get_encode_collab_bytes}
use flow_cloud.Storage.Batch.{
  QueryCollab, QueryCollabResult, success, invalid, record_not_found, Results, extend, missing,
  split_valid, select_rows, select_types, group_by_type, batch_select_collab_blob, from_mem_cache,
  batch_get_encode_collab, batch_get_collab,
}

-- A property of every entry of a map.
module _ (P : Text → QueryCollabResult → Type 0) where
  abbrev pub Entries : Results → Type 0
  Entries [] = Unit {0}
  Entries ((k, v) ∷ m) = P k v × Entries m

  Entries-insert :
      (m : Results) (k : Text) (v : QueryCollabResult)
      → Entries m
      → P k v
      → Entries (Map.insert m k v)
  Entries-insert [] k v h p = (p, tt)
  Entries-insert ((j, w) ∷ m) k v (q, h) p = elim (Bool-cases (j == k)) [
    | inl same ↦ rw same (subst (λ i. P i v) (sym ((list_beq_iff j k).0 same)) p, h)
    | inr other ↦ rw other (q, Entries-insert m k v h p)
  ]

  Entries-extend : (m l : Results) → Entries m → Entries l → Entries (extend m l)
  unfolding extend
  Entries-extend m [] h k = h
  Entries-extend m ((j, v) ∷ l) h (p, k) =
      Entries-extend (Map.insert m j v) l (Entries-insert m j v h p) k

  Entries-found : (m : Results) → Entries m → Holds P m
  Entries-found [] h k v found = absurd (cc)
  Entries-found ((j, w) ∷ m) (p, h) k v found = elim (Bool-cases (j == k)) [
    | inl same ↦
        let value : w ≡ v = some_injective (ground arith) in
        subst (λ x. P k x) value (subst (λ i. P i w) ((list_beq_iff j k).0 same) p)
    | inr other ↦ Entries-found m h k v (ground arith)
  ]

module _ {api : StorageApi} (s : CollabCache api) where
  -- A success is what the cache holds under the id, or the bytes of its row, which is not deleted;
  -- an id is invalid only if it is empty.
  abbrev pub IsStored : Text → QueryCollabResult → Type 0
  IsStored oid (success bytes) =
      (Map.get s.mem oid ≡ some bytes)
      ⊎ ((row : Row api) × (Map.get s.database.rows oid ≡ some row)
          × (row.blob ≡ bytes)
          × (row.is_deleted ≡ false))
  IsStored oid invalid = is_empty oid ≡ true
  IsStored oid record_not_found = Unit {0}

  missing-IsStored : (ids : List Text) (found : Results) → Entries IsStored (missing ids found)
  unfolding missing
  missing-IsStored [] found = tt
  missing-IsStored (id ∷ ids) found = elim (Bool-cases (Map.contains_key found id)) [
    | inl there ↦ rw there (missing-IsStored ids found)
    | inr gone ↦ rw gone (tt, missing-IsStored ids found)
  ]

  split_valid-IsStored : (qs : List QueryCollab) → Entries IsStored (split_valid qs).1
  unfolding split_valid
  split_valid-IsStored [] = tt
  split_valid-IsStored (q ∷ qs) = elim (Bool-cases (is_empty q.object_id)) [
    | inl empty ↦ rw (split_valid, empty) (empty, split_valid-IsStored qs)
    | inr full ↦ rw (split_valid, full) (split_valid-IsStored qs)
  ]

  from_mem_cache-IsStored :
      (env : Env api) (qs : List QueryCollab) → Entries IsStored (from_mem_cache env s qs).0
  unfolding from_mem_cache get_encode_collab_bytes
  from_mem_cache-IsStored env [] = tt
  from_mem_cache-IsStored env (q ∷ qs) =
      elim (Option-cases (get_encode_collab_bytes env s q.object_id)) [
        | inl miss ↦ rw (from_mem_cache, miss) (from_mem_cache-IsStored env qs)
        | inr (bytes, hit) ↦
            let held : Map.get s.mem q.object_id ≡ some bytes = ground arith in
            rw (from_mem_cache, hit) (inl held, from_mem_cache-IsStored env qs)
      ]

  select_rows-IsStored :
      (rows : Map Text (Row api)) (collab_type : ℤ) (ids : List Text)
      → AreDistinct rows
      → Holds (λ oid row. Map.get s.database.rows oid ≡ some row) rows
      → Entries IsStored (select_rows rows collab_type ids)
  unfolding select_rows
  select_rows-IsStored [] collab_type ids distinct h = tt
  select_rows-IsStored ((oid, row) ∷ rows) collab_type ids (new, distinct) h =
      let rest =
        select_rows-IsStored rows collab_type ids distinct
          (λ j w found. h j w (get-tail oid row rows j w new found)) in
      let same : (oid == oid) ≡ true = (list_beq_iff oid oid).1 refl in
      elim (Bool-cases
        (contains ids oid && (row.partition_key == collab_type && not row.is_deleted))) [
          | inl wanted ↦
              let here : Map.get s.database.rows oid ≡ some row = h oid row (rw same refl) in
              let kept : row.is_deleted ≡ false = ground arith in
              rw wanted (inr (row, here, refl, kept), rest)
          | inr skipped ↦ rw skipped rest
        ]

  select_types-IsStored :
      (works : ℤ → Bool) (types : Map ℤ (List Text)) (results : Results)
      → AreDistinct s.database.rows
      → Entries IsStored results
      → Entries IsStored (select_types s.database works types results)
  unfolding select_types
  select_types-IsStored works [] results distinct h = h
  select_types-IsStored works ((collab_type, ids) ∷ types) results distinct h =
      let found = select_rows s.database.rows collab_type ids in
      let found_stored =
        select_rows-IsStored s.database.rows collab_type ids distinct (λ j w e. e) in
      elim (Bool-cases (works collab_type)) [
        | inl answered ↦ rw answered (
            select_types-IsStored works types (extend (extend results found) (missing ids found))
              distinct
              (Entries-extend IsStored (extend results found) (missing ids found)
                (Entries-extend IsStored results found h found_stored)
                (missing-IsStored ids found)))
        | inr failed ↦ rw failed (select_types-IsStored works types results distinct h)
      ]

  -- Every document that is read in a batch is one that the cache holds under its id, or the bytes
  -- of its row, and that row is not deleted; only an empty id is called invalid. This is said of any
  -- queries, of any failure of the cache or of the query of a type, and of a table in which no id
  -- has two rows.
  pub batch_get_collab-IsStored :
      (env : Env api) (works : ℤ → Bool) (queries : List QueryCollab)
      → AreDistinct s.database.rows
      → Holds IsStored (batch_get_collab env works s queries)
  unfolding batch_get_collab batch_get_encode_collab batch_select_collab_blob
  batch_get_collab-IsStored env works queries distinct =
      let valid = (split_valid queries).0 in
      let cached = from_mem_cache env s valid in
      Entries-found IsStored (batch_get_collab env works s queries) (
        Entries-extend IsStored _ (batch_get_encode_collab env works s valid)
          (Entries-extend IsStored [] (split_valid queries).1 tt (split_valid-IsStored queries))
          (Entries-extend IsStored _ (batch_select_collab_blob s.database works cached.1)
            (Entries-extend IsStored [] cached.0 tt (from_mem_cache-IsStored env valid))
            (select_types-IsStored works (group_by_type [] cached.1) [] distinct tt)))
