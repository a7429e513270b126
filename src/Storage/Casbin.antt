-- ===== src/Storage/Casbin.antt =====
-- The storage of src/biz/collab with the access control of src/biz/casbin: collab_ac.rs and
-- workspace_ac.rs, as `CollabStorageAccessControlImpl` of src/biz/collab/access_control.rs has them.
use flow_cloud.Base.{
  ◌≡◌, refl, sym, ap, ◌∙◌, Bool, true, false, Text, Result, ok, err, ◌>>=◌, List, [], ◌∷◌, ◌++◌,
  list_eq, nat_eq, if◌then◌else◌, arith, Result-cases, inl, inr,
}
use flow_cloud.Base.Int.{ℤ}
use flow_cloud.Dto.{AccessLevel, can_write, can_delete}
use flow_cloud.Access.Casbin.{Casbin, IsLawful}
use flow_cloud.Access.Action.{
  Action, collab, from_access_level, from_action, to_action, object_id, level_text, action_text,
}
use flow_cloud.Access.Groups.{level_may, grants_exact}
use flow_cloud.Access.Control.{
  AccessControl, update_change, enforce_collab_action, enforce_access_level, enforce_role,
  update_access_level_policy, updated, update_policy, enforce,
}
use flow_cloud.Access.Control.Roles.{HasGroups}
use flow_cloud.Access.Enforcer.{AppError, AfEnforcer}
use flow_cloud.Access.Enforcer as Enforcer
use flow_cloud.Access.Enforcer.Updates.{update_policy-Grants, update_policy-Keeps}
use flow_cloud.Storage.Cache.{
  StorageApi, Database, StorageError, database_failed, not_enough_permissions, access_failed, Env,
  CollabCache, CollabParams, is_collab_exists, insert_collab_encoded,
}
use flow_cloud.Storage.Runs.{Call, calls}
use flow_cloud.Storage.Policies.{calls-Keeps}
use flow_cloud.Storage.Documents.{
  Enforcers, CollabStorage, validate_params, Outcome, and_then, check_collab_permission, grant,
  insert_or_update_collab_with_transaction, insert_or_update_collab,
}

-- An enforcement counts its call in the enforcer, which no decision reads.
abbrev pub casbin_enforcers : Casbin → Bool → Enforcers
casbin_enforcers c enable = record {
  State = AccessControl c;
  update_access_level_policy = update_access_level_policy enable;
  enforce_action = λ ac workspace_id uid oid action.
      (enforce_collab_action enable ac workspace_id uid oid action).1;
  enforce_access_level = λ ac workspace_id uid oid level.
      (enforce_access_level enable ac workspace_id uid oid level).1;
  enforce_role = λ ac uid workspace_id role. (enforce_role enable ac uid workspace_id role).1;
}

module _ {api : StorageApi} (ac : Enforcers) where
  -- After the policy of a new document, nothing else in an insertion touches the policies.
  transaction-Keeps :
      (env : Env api) (s : CollabStorage api ac) (access_control : ac.State)
      (granted : Result Unit AppError) (workspace_id : Text) (uid : ℤ) (params : CollabParams)
      → validate_params params ≡ ok tt
      → is_collab_exists env s.cache.database params.object_id ≡ ok false
      → ac.update_access_level_policy s.access_control uid params.object_id AccessLevel.full_access
        ≡ (access_control, granted)
      → (insert_or_update_collab_with_transaction ac env s s.cache.database workspace_id uid
          params).0.access_control
        ≡ access_control
  unfolding insert_or_update_collab_with_transaction grant
  transaction-Keeps env s access_control (err x) workspace_id uid params valid absent h =
      rw (insert_or_update_collab_with_transaction, valid, absent) (rw (grant, h) refl)
  transaction-Keeps env s access_control (ok unit) workspace_id uid params valid absent h =
      rw (insert_or_update_collab_with_transaction, valid, absent)
        (rw (grant, h)
          (kept (record s { access_control = access_control })
            (check_collab_permission ac env (record s { access_control = access_control })
                workspace_id uid params false
              >>= λ _. insert_collab_encoded env s.cache s.cache.database uid workspace_id params)))
    where
      kept :
          (s' : CollabStorage api ac) (r : Result (CollabCache api × Database api) StorageError)
          → (elim r as (λ _. Outcome api ac (Database api)) [
            | err x ↦ (s', err x)
            | ok done ↦ (record s' { cache = done.0 }, ok done.1)
          ]).0.access_control
            ≡ s'.access_control
      kept s' (err x) = refl
      kept s' (ok done) = refl

  insert-Keeps :
      (env : Env api) (s : CollabStorage api ac) (access_control : ac.State)
      (granted : Result Unit AppError) (workspace_id : Text) (uid : ℤ) (params : CollabParams)
      → validate_params params ≡ ok tt
      → env.begin_works ≡ true
      → is_collab_exists env s.cache.database params.object_id ≡ ok false
      → ac.update_access_level_policy s.access_control uid params.object_id AccessLevel.full_access
        ≡ (access_control, granted)
      → (insert_or_update_collab ac env s workspace_id uid params).0.access_control ≡ access_control
  unfolding insert_or_update_collab
  insert-Keeps env s access_control granted workspace_id uid params valid begins absent h =
      rw (insert_or_update_collab, valid, begins)
        (kept (
            insert_or_update_collab_with_transaction ac env s s.cache.database workspace_id uid
              params)
          ∙ transaction-Keeps env s access_control granted workspace_id uid params valid absent h)
    where
      kept :
          (o : Outcome api ac (Database api))
          → (and_then o λ s' tx.
              if env.commit_works
              then (record s' { cache = record s'.cache { database = tx } }, ok tt)
              else (s', err database_failed)).0.access_control
            ≡ o.0.access_control
      kept (s', err x) = refl
      kept (s', ok tx) = ground arith

  insert-Fails :
      (env : Env api) (s : CollabStorage api ac) (access_control : ac.State) (x : AppError)
      (workspace_id : Text) (uid : ℤ) (params : CollabParams)
      → validate_params params ≡ ok tt
      → env.begin_works ≡ true
      → is_collab_exists env s.cache.database params.object_id ≡ ok false
      → ac.update_access_level_policy s.access_control uid params.object_id AccessLevel.full_access
        ≡ (access_control, err x)
      → (insert_or_update_collab ac env s workspace_id uid params).1 ≡ err (access_failed x)
  unfolding insert_or_update_collab insert_or_update_collab_with_transaction grant
  insert-Fails env s access_control x workspace_id uid params valid begins absent h =
      let failed : insert_or_update_collab_with_transaction ac env s s.cache.database workspace_id
            uid params
          ≡ (record s { access_control = access_control }, err (access_failed x)) =
        rw (insert_or_update_collab_with_transaction, valid, absent) (rw (grant, h) refl) in
      rw (insert_or_update_collab, valid, begins, failed) refl

full_access_may : (action : Action) → level_may AccessLevel.full_access action ≡ true
unfolding can_write can_delete
full_access_may Action.read = refl
full_access_may Action.write = refl
full_access_may Action.delete = refl

-- What somebody may do is not taken away by a grant of full access to anybody.
grant-Grows :
    (c : Casbin)
    → IsLawful c
    → (workspace_id oid : Text) (uid : ℤ) (action : Action) (ac : AccessControl c) (other : ℤ)
      (object : Text)
    → (enforce_collab_action true ac workspace_id uid oid action).1 ≡ ok true
    → (enforce_collab_action true
        (update_access_level_policy true ac other object AccessLevel.full_access).0
        workspace_id
        uid
        oid
        action).1
      ≡ ok true
unfolding update_access_level_policy update_policy updated object_id enforce_collab_action enforce
grant-Grows c lawful workspace_id oid uid action ac other object h =
    elim (Result-cases (
      Enforcer.update_policy ac.enforcer other (collab object)
        (from_access_level AccessLevel.full_access))) [
          | inr (x, failed) ↦ rw (update_access_level_policy, update_policy, failed) h
          | inl (e, done) ↦
              rw (update_access_level_policy, update_policy, done)
                (update_policy-Keeps c lawful ac.enforcer e other (collab object)
                  (from_access_level AccessLevel.full_access) done workspace_id uid (collab oid)
                  (from_action action) h)
        ]

-- After the refusal the user has the full access that was granted first.
refused-Grants :
    (c : Casbin)
    → IsLawful c
    → {api : StorageApi} (env : Env api) (s s' : CollabStorage api (casbin_enforcers c true))
      (workspace_id : Text) (uid : ℤ) (params : CollabParams)
    → HasGroups c s.access_control.enforcer.enforcer
    → validate_params params ≡ ok tt
    → env.begin_works ≡ true
    → is_collab_exists env s.cache.database params.object_id ≡ ok false
    → insert_or_update_collab (casbin_enforcers c true) env s workspace_id uid params
      ≡ (s', err not_enough_permissions)
    → (action : Action) (other : Text)
    → (enforce_collab_action true s'.access_control other uid params.object_id action).1 ≡ ok true
unfolding update_access_level_policy update_policy updated object_id enforce_collab_action enforce
    to_action
refused-Grants c lawful {api} env s s' workspace_id uid params groups valid begins absent h action
      other =
    elim (Result-cases (
      Enforcer.update_policy s.access_control.enforcer uid (collab params.object_id)
        (from_access_level AccessLevel.full_access))) [
          | inr (x, failed) ↦
              let called : update_access_level_policy true s.access_control uid params.object_id
                    AccessLevel.full_access
                  ≡ (logged s.access_control, err x) =
                rw (update_access_level_policy, update_policy, failed) refl in
              let broken : err not_enough_permissions ≡ err (access_failed x) =
                sym (ap (λ (o : Outcome api (casbin_enforcers c true) Unit). o.1) h)
                ∙ insert-Fails (casbin_enforcers c true) env s (logged s.access_control) x
                    workspace_id uid params valid begins absent called in
              absurd (cc)
          | inl (e, done) ↦
              let after : AccessControl c = record (logged s.access_control) { enforcer = e } in
              let called : update_access_level_policy true s.access_control uid params.object_id
                    AccessLevel.full_access
                  ≡ (after, ok tt) =
                rw (update_access_level_policy, update_policy, done) refl in
              let kept : s'.access_control ≡ after =
                sym (ap (λ (o : Outcome api (casbin_enforcers c true) Unit). o.0.access_control) h)
                ∙ insert-Keeps (casbin_enforcers c true) env s after (ok tt) workspace_id uid params
                    valid begins absent called in
              rw kept (
                update_policy-Grants c lawful s.access_control.enforcer e uid
                  (collab params.object_id) (from_access_level AccessLevel.full_access) done
                  (from_action action)
                  (groups (level_text AccessLevel.full_access) (action_text action)
                    (grants_exact.0 AccessLevel.full_access action ∙ full_access_may action))
                  other)
        ]
  where
    logged : AccessControl c → AccessControl c
    logged ac = record ac { sent = ac.sent ++ update_change uid params.object_id ∷ [] }

-- With a lawful casbin that has the groups: when the insertion of a new document is refused to a
-- user for want of permission, the user may afterwards do every action on the document that has
-- this id, in any workspace, also after any later calls of the storage, as the one by which somebody
-- else creates the document.
pub insert-Escalates :
    (c : Casbin)
    → IsLawful c
    → {api : StorageApi} (env : Env api) (s s' : CollabStorage api (casbin_enforcers c true))
      (workspace_id : Text) (uid : ℤ) (params : CollabParams)
    → HasGroups c s.access_control.enforcer.enforcer
    → validate_params params ≡ ok tt
    → env.begin_works ≡ true
    → is_collab_exists env s.cache.database params.object_id ≡ ok false
    → insert_or_update_collab (casbin_enforcers c true) env s workspace_id uid params
      ≡ (s', err not_enough_permissions)
    → (later : List (Env api × Call)) (action : Action) (other : Text)
    → (enforce_collab_action true
        (calls (casbin_enforcers c true) s' later).access_control
        other
        uid
        params.object_id
        action).1
      ≡ ok true
insert-Escalates c lawful env s s' workspace_id uid params groups valid begins absent h later action
      other =
    calls-Keeps (casbin_enforcers c true)
      (λ ac. (enforce_collab_action true ac other uid params.object_id action).1 ≡ ok true)
      (grant-Grows c lawful other params.object_id uid action) s' later
      (refused-Grants c lawful env s s' workspace_id uid params groups valid begins absent h action
        other)
