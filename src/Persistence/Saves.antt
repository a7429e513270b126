-- ===== src/Persistence/Saves.antt =====
-- When `CollabStoragePlugin` of lib/realtime/src/server/collaborate/plugin.rs saves a document.
use flow_cloud.Base.{
  ℕ, ◌+◌, ◌-◌, ◌%◌, ◌^◌, ◌≡◌, ◌≤◌, ◌<◌, refl, true, none, some, List, [], ◌∷◌, Text, leb, ltb,
  false, nat_eq, if◌then◌else◌, option_beq, length, arith, Option-cases, Bool-cases, inl, inr,
  subst, beq_refl,
}
use flow_cloud.Storage.Cache.{StorageApi, Env}
use flow_cloud.Storage.Documents.{Enforcers, CollabStorage, insert_or_update_collab}
use flow_cloud.Persistence.{
  PluginApi, CollabEditState, new_edit_state, set_did_load, increment_edit_count, tick,
  should_flush, receive_update, CollabStoragePlugin, flush,
}

-- Updates, by the times at which they are received.
unfoldable pub receive_updates : List ℕ → CollabEditState → CollabEditState
receive_updates [] e = e
receive_updates (now ∷ nows) e = receive_updates nows (receive_update now e)

-- The count after which the first flush is noted, when there were some updates before the load.
abbrev pub first_flush : ℕ → ℕ
first_flush earlier = if ltb earlier 100 then 100 else earlier + 1

-- The last count, up to `n`, at which a flush is noted: the first, or a multiple of 100 after it.
abbrev pub last_flush : ℕ → ℕ → ℕ
last_flush first n = if ltb n first then 0 else n - (n - first) % 100

-- While the document is not loaded, updates are counted only.
record IsWaiting (n : ℕ) (e : CollabEditState) : Type 0 where
  counted : e.edit_count ≡ n
  waiting : e.did_load_collab ≡ false
  unflushed : e.prev_edit_count ≡ 0

receive_updates-IsWaiting :
    (nows : List ℕ) (n : ℕ) (e : CollabEditState)
    → n + length nows < 2 ^ 32
    → IsWaiting n e
    → IsWaiting (n + length nows) (receive_updates nows e)
unfolding receive_updates receive_update increment_edit_count
receive_updates-IsWaiting [] n e small h =
    let same : n ≡ n + length {A = ℕ} [] = omega arith in subst (λ m. IsWaiting m e) same h
receive_updates-IsWaiting (now ∷ nows) n e small h =
    let same : n + 1 + length nows ≡ n + length (now ∷ nows) = omega arith in
    subst (λ m. IsWaiting m (receive_updates nows (receive_update now e))) same
      (receive_updates-IsWaiting nows (n + 1) (receive_update now e) (omega arith) (
        rw (receive_update, increment_edit_count, h.waiting)
          (record { counted = omega (arith, h.counted); waiting = refl; unflushed = h.unflushed })))

-- After the load, before which there were `earlier` updates.
record IsCounted (earlier n : ℕ) (e : CollabEditState) : Type 0 where
  counted : e.edit_count ≡ n
  loaded : e.did_load_collab ≡ true
  late : earlier ≤ n
  noted : e.prev_edit_count ≡ last_flush (first_flush earlier) n

last_flush-before : (first n : ℕ) → last_flush first n ≤ n
last_flush-before first n = ground arith

-- A flush is noted at the next count exactly if it is 100 more than that of the last.
last_flush-next :
    (earlier n : ℕ)
    → earlier ≤ n
    → last_flush (first_flush earlier) (n + 1) ≡ (
        if leb 100 (n + 1 - last_flush (first_flush earlier) n)
        then n + 1
        else last_flush (first_flush earlier) n)
last_flush-next earlier n h = ground arith

-- What an update does before the count has gone past 2^32: the time makes no difference.
receive_update_lem :
    (n now : ℕ) (e : CollabEditState)
    → n + 1 < 2 ^ 32
    → e.edit_count ≡ n
    → e.did_load_collab ≡ true
    → e.prev_edit_count ≤ n
    → receive_update now e ≡ (
        if leb 100 (n + 1 - e.prev_edit_count)
        then record e { edit_count = n + 1; prev_edit_count = n + 1; prev_flush_timestamp = now }
        else record e { edit_count = n + 1 })
unfolding receive_update increment_edit_count should_flush tick
receive_update_lem n now e small counted loaded before =
    let wrapped : (e.edit_count + 1) % 2 ^ 32 ≡ n + 1 = omega (arith, counted) in
    rw (receive_update, increment_edit_count, wrapped) (ground arith)

receive_update-IsCounted :
    (earlier n now : ℕ) (e : CollabEditState)
    → n + 1 < 2 ^ 32
    → IsCounted earlier n e
    → IsCounted earlier (n + 1) (receive_update now e)
receive_update-IsCounted earlier n now e small h =
    let before : e.prev_edit_count ≤ n =
      omega (arith, h.noted, last_flush-before (first_flush earlier) n) in
    let next : last_flush (first_flush earlier) (n + 1)
        ≡ (if leb 100 (n + 1 - e.prev_edit_count) then n + 1 else e.prev_edit_count) =
      rw h.noted (last_flush-next earlier n h.late) in
    elim (Bool-cases (leb 100 (n + 1 - e.prev_edit_count))) [
      | inl full ↦
          rw (receive_update_lem n now e small h.counted h.loaded before, full)
            (record {
              counted = refl;
              loaded = h.loaded;
              late = omega (arith, h.late);
              noted = rw (next, full) refl;
            })
      | inr room ↦
          rw (receive_update_lem n now e small h.counted h.loaded before, room)
            (record {
              counted = refl;
              loaded = h.loaded;
              late = omega (arith, h.late);
              noted = rw (next, room) refl;
            })
    ]

receive_updates-IsCounted :
    (earlier : ℕ) (nows : List ℕ) (n : ℕ) (e : CollabEditState)
    → n + length nows < 2 ^ 32
    → IsCounted earlier n e
    → IsCounted earlier (n + length nows) (receive_updates nows e)
unfolding receive_updates
receive_updates-IsCounted earlier [] n e small h =
    let same : n ≡ n + length {A = ℕ} [] = omega arith in subst (λ m. IsCounted earlier m e) same h
receive_updates-IsCounted earlier (now ∷ nows) n e small h =
    let same : n + 1 + length nows ≡ n + length (now ∷ nows) = omega arith in
    subst (λ m. IsCounted earlier m (receive_updates nows (receive_update now e))) same
      (receive_updates-IsCounted earlier nows (n + 1) (receive_update now e) (omega arith)
        (receive_update-IsCounted earlier n now e (omega arith) h))

-- Of fewer than 2^32 updates before and after a document is loaded, whenever they are received, all
-- are counted. Before the load no flush is noted. After it, the first flush is noted at the hundredth
-- update of all, or, when a hundred came before the load, at the first after it, and from there on
-- exactly at every hundredth; no interval of time makes a difference.
pub receive_updates-ByHundreds :
    (created : ℕ) (earlier nows : List ℕ)
    → length earlier + length nows < 2 ^ 32
    → let waiting = receive_updates earlier (new_edit_state created) in
      let e = receive_updates nows (set_did_load waiting) in
      (waiting.prev_edit_count ≡ 0)
      × (e.edit_count ≡ length earlier + length nows)
      × (e.prev_edit_count
          ≡ last_flush (first_flush (length earlier)) (length earlier + length nows))
unfolding set_did_load new_edit_state
receive_updates-ByHundreds created earlier nows small =
    let start : IsWaiting 0 (new_edit_state created) = record {
      counted = refl;
      waiting = refl;
      unflushed = refl;
    } in
    let waited = receive_updates-IsWaiting earlier 0 (new_edit_state created) (omega arith) start in
    let loaded : IsCounted (length earlier) (length earlier)
        (set_did_load (receive_updates earlier (new_edit_state created))) =
      record {
        counted = omega (arith, waited.counted);
        loaded = refl;
        late = omega arith;
        noted = ground (arith, waited.unflushed);
      } in
    let end =
      receive_updates-IsCounted (length earlier) nows (length earlier)
        (set_did_load (receive_updates earlier (new_edit_state created))) small loaded in
    (waited.unflushed, end.counted, end.noted)

module _ {api : StorageApi} (p : PluginApi api) (ac : Enforcers) where
  -- `flush` with the task that it starts.
  unfoldable pub flush_and_save :
      Env api
      → CollabStoragePlugin p × CollabStorage api ac
      → Text
      → p.Doc
      → CollabStoragePlugin p × CollabStorage api ac
  flush_and_save env (s, storage) object_id doc =
      let flushed = flush p s object_id doc in
      (
        flushed.0,
        elim flushed.1 [
          | none ↦ storage
          | some params ↦ (insert_or_update_collab ac env storage s.workspace_id s.uid params).0
        ],
      )

  flush-Once :
      (s : CollabStoragePlugin p) (object_id : Text) (doc : p.Doc)
      → flush p (flush p s object_id doc).0 object_id doc ≡ ((flush p s object_id doc).0, none)
  unfolding flush
  flush-Once s object_id doc =
      elim (Option-cases (api.encode_to_bytes (p.get_encoded_collab_v1 doc))) [
        | inl failed ↦
            let first : flush p s object_id doc ≡ (s, none) = rw (flush, failed) refl in
            rw first first
        | inr (bytes, encoded) ↦
            let same : p.digest_eq.beq (p.md5 bytes) (p.md5 bytes) ≡ true =
              beq_refl ⦃e = p.digest_eq⦄ (p.md5 bytes) in
            elim (Bool-cases
              (option_beq ⦃e = p.digest_eq⦄ s.latest_collab_md5 (some (p.md5 bytes)))) [
                | inl old ↦
                    let first : flush p s object_id doc ≡ (s, none) =
                      rw (flush, encoded, old) refl in
                    rw first first
                | inr new ↦
                    let s' : CollabStoragePlugin p = record s {
                      latest_collab_md5 = some (p.md5 bytes);
                    } in
                    let first : (flush p s object_id doc).0 ≡ s' = rw (flush, encoded, new) refl in
                    rw first (rw (flush, encoded, same) refl)
              ]
      ]

  -- Once a document has been flushed, a second flush of it saves nothing and changes nothing,
  -- whatever became of the first save.
  pub flush_and_save-Once :
      (env later : Env api) (s : CollabStoragePlugin p) (storage : CollabStorage api ac)
      (object_id : Text) (doc : p.Doc)
      → flush_and_save later (flush_and_save env (s, storage) object_id doc) object_id doc
        ≡ flush_and_save env (s, storage) object_id doc
  unfolding flush_and_save
  flush_and_save-Once env later s storage object_id doc =
      rw (flush_and_save, flush-Once s object_id doc) refl
