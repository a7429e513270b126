-- ===== src/Storage/Attempts.antt =====
-- The loop of `CollabDiskCache::get_collab_encoded_from_disk` in src/biz/collab/disk_cache.rs.
use flow_cloud.Base.{ℕ, zero, suc, ◌+◌, ◌≡◌, ◌≤◌, ◌⊎◌, true, false, Bool-cases, inl, inr, arith}
use flow_cloud.Storage.Cache.{
  StorageApi, Database, Env, QueryCollabParams, attempt, times_out, disk_get,
}

module _ {api : StorageApi} where
  -- The attempts that time out, counted from the first.
  abbrev pub TimeOut : Env api → ℕ → ℕ → Type 0
  TimeOut env first zero = Unit {0}
  TimeOut env first (suc n) = (times_out env first ≡ true) × TimeOut env (first + 1) n

  -- The loop answers what one attempt answers. Every attempt before that one timed out, there are
  -- at most as many of them as the retries left, and that one did not time out unless it is the
  -- last that the retries allow.
  pub disk_get-IsAttempt :
      (env : Env api) (db : Database api) (params : QueryCollabParams) (retries first : ℕ)
      → (n : ℕ) × (n ≤ retries)
        × (disk_get env db params retries first ≡ attempt env db params (first + n))
        × TimeOut env first n
        × ((n ≡ retries) ⊎ (times_out env (first + n) ≡ false))
  unfolding disk_get
  disk_get-IsAttempt env db params zero first = (0, ground arith, ground arith, tt, inl (λ i. zero))
  disk_get-IsAttempt env db params (suc retries) first = elim (Bool-cases (times_out env first)) [
    | inr answered ↦ (0, ground arith, ground arith, tt, inr (ground arith))
    | inl late ↦
        let (n, few, same, before, last) = disk_get-IsAttempt env db params retries (first + 1) in
        (
          suc n,
          ground arith,
          ground arith,
          (late, before),
          elim last [ inl e ↦ inl (ground arith) | inr e ↦ inr (ground arith) ],
        )
  ]
