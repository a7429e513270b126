-- ===== src/Storage/Coherence.antt =====
-- The cache of src/biz/collab/cache.rs agrees with the database.
use flow_cloud.Base.{
  ℕ, zero, suc, ◌+◌, ◌-◌, ◌%◌, ◌^◌, ◌≡◌, refl, sym, ap, ◌∙◌, Bool, true, false, Option, none, some,
  Text, ok, ◌==◌, list_eq, nat_eq, if◌then◌else◌, arith, list_beq_iff, Option-cases, Result-cases,
  Bool-cases, inl, inr, subst,
}
use flow_cloud.Base.Int.{ℤ, int_eq}
use flow_cloud.Base.Map
use flow_cloud.Base.Map.{Map, Holds, Holds-insert, Holds-remove, get-insert, some_injective}
use flow_cloud.Protocol.Codec.{Bytes}
use flow_cloud.Storage.Cache.{
  max_attempts, StorageApi, Row, Database, Env, CollabCache, CollabParams, QueryCollabParams,
  get_encode_collab, insert_encode_collab_bytes, insert_encode_collab, remove_encode_collab,
  select_blob, insert_into_af_collab, delete_row, attempt, times_out, disk_get, get_collab_encoded,
  insert_collab_encoded, remove_collab,
}

-- What is encoded is decoded to the same.
abbrev pub RoundTrips : StorageApi → Type 0
RoundTrips api =
    (e : api.EncodedCollab) (bytes : Bytes)
    → api.encode_to_bytes e ≡ some bytes
    → api.decode_from_bytes bytes ≡ some e

module _ {api : StorageApi} where
  -- The bytes stand for the same document as the row.
  abbrev pub StandsFor : Option (Row api) → Bytes → Type 0
  StandsFor none bytes = ⊥
  StandsFor (some row) bytes = api.decode_from_bytes row.blob ≡ api.decode_from_bytes bytes

  abbrev pub AreCoherent : Map Text Bytes → Database api → Type 0
  AreCoherent mem db = Holds (λ object_id bytes. StandsFor (Map.get db.rows object_id) bytes) mem

  -- A document that is read from the database is that of the row.
  attempt-IsRow :
      (env : Env api) (db : Database api) (params : QueryCollabParams) (n : ℕ)
      (e : api.EncodedCollab)
      → attempt env db params n ≡ ok e
      → (row : Row api) × (Map.get db.rows params.object_id ≡ some row)
        × (api.decode_from_bytes row.blob ≡ some e)
  unfolding attempt select_blob
  attempt-IsRow env db params n e h = elim (Option-cases (Map.get db.rows params.object_id)) [
    | inl absent ↦ absurd (ground arith)
    | inr (row, found) ↦ (row, found, ground arith)
  ]

  pub disk_get-IsRow :
      (env : Env api) (db : Database api) (params : QueryCollabParams) (retries n : ℕ)
      (e : api.EncodedCollab)
      → disk_get env db params retries n ≡ ok e
      → (row : Row api) × (Map.get db.rows params.object_id ≡ some row)
        × (api.decode_from_bytes row.blob ≡ some e)
  unfolding disk_get
  disk_get-IsRow env db params zero n e h = attempt-IsRow env db params n e h
  disk_get-IsRow env db params (suc retries) n e h = elim (Bool-cases (times_out env n)) [
    | inl late ↦ disk_get-IsRow env db params retries (n + 1) e (ground arith)
    | inr answered ↦ attempt-IsRow env db params n e (ground arith)
  ]

  insert_into-row :
      (env : Env api) (db tx : Database api) (uid : ℤ) (workspace_id : Text) (params : CollabParams)
      → insert_into_af_collab env db uid workspace_id params ≡ ok tx
      → (row : Row api) × (tx.rows ≡ Map.insert db.rows params.object_id row)
        × (row.blob ≡ params.encoded_collab_v1)
  unfolding insert_into_af_collab
  insert_into-row env db tx uid workspace_id params h =
      elim (Option-cases (api.parse_uuid workspace_id)) [
        | inl bad ↦ absurd (ground arith)
        | inr (workspace, parsed) ↦ elim (Option-cases (Map.get db.rows params.object_id)) [
          | inl absent ↦ (
            record {
              blob = params.encoded_collab_v1;
              partition_key = params.collab_type;
              owner_uid = uid;
              workspace_id = workspace;
              is_deleted = false;
            },
            ground arith,
            refl,
          )
          | inr (row, found) ↦ (
            record row {
              blob = params.encoded_collab_v1;
              partition_key = params.collab_type;
              owner_uid = uid;
            },
            ground arith,
            refl,
          )
        ]
      ]

  -- Writing the same bytes to the row and to the cache.
  AreCoherent-insert :
      (mem : Map Text Bytes) (db tx : Database api) (object_id : Text) (row : Row api)
      (bytes : Bytes)
      → tx.rows ≡ Map.insert db.rows object_id row
      → row.blob ≡ bytes
      → AreCoherent mem db
      → AreCoherent (Map.insert mem object_id bytes) tx
  AreCoherent-insert mem db tx object_id row bytes rows same h j b found =
      elim (Bool-cases (object_id == j)) [
        | inl here ↦
            let written : bytes ≡ b =
              some_injective (ground (arith, get-insert mem object_id bytes j)) in
            let read : Map.get tx.rows j ≡ some row =
              rw rows (ground (arith, get-insert db.rows object_id row j)) in
            subst (λ o. StandsFor o b) (sym read) (ap api.decode_from_bytes (same ∙ written))
        | inr other ↦
            let read : Map.get tx.rows j ≡ Map.get db.rows j =
              rw rows (ground (arith, get-insert db.rows object_id row j)) in
            subst (λ o. StandsFor o b) (sym read)
              (h j b (ground (arith, get-insert mem object_id bytes j)))
      ]

  pub insert_collab-AreCoherent :
      (env : Env api) (s s' : CollabCache api) (uid : ℤ) (workspace_id : Text)
      (params : CollabParams) (tx : Database api)
      → env.set_works ≡ true
      → AreCoherent s.mem s.database
      → insert_collab_encoded env s s.database uid workspace_id params ≡ ok (s', tx)
      → AreCoherent s'.mem tx
  unfolding insert_collab_encoded insert_encode_collab_bytes
  insert_collab-AreCoherent env s s' uid workspace_id params tx works h e =
      let written : insert_into_af_collab env s.database uid workspace_id params ≡ ok tx =
        ground arith in
      let cached : s'.mem ≡ Map.insert s.mem params.object_id params.encoded_collab_v1 =
        ground arith in
      let (row, rows, same) = insert_into-row env s.database tx uid workspace_id params written in
      subst (λ m. AreCoherent m tx) (sym cached)
        (AreCoherent-insert s.mem s.database tx params.object_id row params.encoded_collab_v1 rows
          same h)

  database-insert_encode_collab :
      (env : Env api) (s : CollabCache api) (object_id : Text) (e : api.EncodedCollab)
      → (insert_encode_collab env s object_id e).database ≡ s.database
  unfolding insert_encode_collab insert_encode_collab_bytes
  database-insert_encode_collab env s object_id e = ground arith

  insert_encode-AreCoherent :
      (env : Env api) (s : CollabCache api) (object_id : Text) (row : Row api)
      (e : api.EncodedCollab)
      → RoundTrips api
      → Map.get s.database.rows object_id ≡ some row
      → api.decode_from_bytes row.blob ≡ some e
      → AreCoherent s.mem s.database
      → AreCoherent (insert_encode_collab env s object_id e).mem s.database
  unfolding insert_encode_collab insert_encode_collab_bytes
  insert_encode-AreCoherent env s object_id row e trips found same h =
      elim (Option-cases (api.encode_to_bytes e)) [
        | inl none_made ↦ rw (insert_encode_collab, none_made) h
        | inr (bytes, made) ↦ elim (Bool-cases env.set_works) [
          | inl works ↦
              rw (insert_encode_collab, made, insert_encode_collab_bytes, works)
                (Holds-insert (λ k b. StandsFor (Map.get s.database.rows k) b) s.mem object_id bytes
                  (subst (λ o. StandsFor o bytes) (sym found) (same ∙ sym (trips e bytes made))) h)
          | inr fails ↦ rw (insert_encode_collab, made, insert_encode_collab_bytes, fails) h
        ]
      ]

  pub get_collab-AreCoherent :
      (env : Env api) (s : CollabCache api) (params : QueryCollabParams)
      → RoundTrips api
      → AreCoherent s.mem s.database
      → AreCoherent
          (get_collab_encoded env s params).0.mem
          (get_collab_encoded env s params).0.database
  unfolding get_collab_encoded
  get_collab-AreCoherent env s params trips h =
      let s' : CollabCache api = record s { total_attempts = (s.total_attempts + 1) % 2 ^ 64 } in
      elim (Option-cases (get_encode_collab env s' params.object_id)) [
        | inr (e, hit) ↦ rw (get_collab_encoded, hit) h
        | inl miss ↦ elim (Result-cases (disk_get env s.database params (max_attempts - 1) 0)) [
          | inr (x, failed) ↦ rw (get_collab_encoded, miss, failed) h
          | inl (e, got) ↦
              let (row, found, same) = disk_get-IsRow env s.database params _ 0 e got in
              rw (get_collab_encoded, miss, got)
                (subst (AreCoherent (insert_encode_collab env s' params.object_id e).mem)
                  (sym (database-insert_encode_collab env s' params.object_id e))
                  (insert_encode-AreCoherent env s' params.object_id row e trips found same h))
        ]
      ]

  delete_row-StandsFor :
      (db : Database api) (object_id k : Text) (b : Bytes)
      → StandsFor (Map.get db.rows k) b
      → StandsFor (Map.get (delete_row db object_id).rows k) b
  unfolding delete_row
  delete_row-StandsFor db object_id k b h = elim (Option-cases (Map.get db.rows object_id)) [
    | inl absent ↦ rw (delete_row, absent) h
    | inr (row, found) ↦
        rw (delete_row, found)
          (rw (get-insert db.rows object_id (record row { is_deleted = true }) k)
            (deleted row found (object_id == k) refl))
  ]
    where
      deleted :
          (row : Row api)
          → Map.get db.rows object_id ≡ some row
          → (here : Bool) → (object_id == k) ≡ here
          → StandsFor
              (if here then some (record row { is_deleted = true }) else Map.get db.rows k)
              b
      deleted row found true e =
          let same = ap (Map.get db.rows) (sym ((list_beq_iff object_id k).0 e)) ∙ found in
          let kept : StandsFor (some row) b = subst (λ o. StandsFor o b) same h in kept
      deleted row found false e = h

  pub remove_collab-AreCoherent :
      (env : Env api) (s : CollabCache api) (object_id : Text)
      → AreCoherent s.mem s.database
      → AreCoherent (remove_collab env s object_id).0.mem (remove_collab env s object_id).0.database
  unfolding remove_collab remove_encode_collab
  remove_collab-AreCoherent env s object_id h = elim (Bool-cases env.del_works) [
    | inr fails ↦ rw (remove_collab, remove_encode_collab, fails) h
    | inl works ↦
        let less =
          Holds-remove (λ k b. StandsFor (Map.get s.database.rows k) b) s.mem object_id h in
        elim (Bool-cases env.delete_works) [
          | inr lost ↦ rw (remove_collab, remove_encode_collab, works, lost) less
          | inl done ↦
              rw (remove_collab, remove_encode_collab, works, done)
                (λ k b found. delete_row-StandsFor s.database object_id k b (less k b found))
        ]
  ]
