-- ===== src/Access/Control.antt =====
-- src/biz/casbin/access_control.rs: `AccessControl`, with its clients of workspace_ac.rs and of
-- collab_ac.rs that keep no state of their own. A call returns the state afterwards and the result.
pub mod Roles
use flow_cloud.Base.{Bool, true, false, List, [], ◌∷◌, ◌++◌, Text, Result, ok, err, if◌then◌else◌}
use flow_cloud.Base.Int.{ℤ}
use flow_cloud.Dto.{Role, AccessLevel, level_from_role}
use flow_cloud.Access.Casbin.{Casbin}
use flow_cloud.Access.Action.{
  ObjectType, workspace, collab, object_id, Action, ActionVariant, from_role, from_access_level,
  from_action,
}
use flow_cloud.Access.Enforcer.{AppError, AfEnforcer}
use flow_cloud.Access.Enforcer as Enforcer

pub data AccessControlChange : Type 0 where
  update_change remove_change : (uid : ℤ) (oid : Text) → AccessControlChange

-- `sent` is what `change_tx` has been given, the oldest first.
pub record AccessControl (c : Casbin) : Type 0 where
  pub enforcer : AfEnforcer c
  pub sent : List AccessControlChange

abbrev pub Outcome : Casbin → Type 0
Outcome c = AccessControl c × Result (Unit {0}) AppError

-- `?`
abbrev pub and_then : {c : Casbin} → Outcome c → (AccessControl c → Outcome c) → Outcome c
and_then (ac, ok x) f = f ac
and_then (ac, err x) f = (ac, err x)

-- `enable` is what `enable_access_control` reads from the environment.
module _ {c : Casbin} (enable : Bool) where
  unfoldable pub updated :
      AccessControl c → AccessControlChange → Result (AfEnforcer c) AppError → Outcome c
  updated ac change (ok e) = (record { enforcer = e; sent = ac.sent ++ change ∷ [] }, ok tt)
  updated ac change (err x) = (record ac { sent = ac.sent ++ change ∷ [] }, err x)

  -- The change is sent also when the update failed.
  unfoldable pub update_policy : AccessControl c → ℤ → ObjectType → ActionVariant → Outcome c
  unfolding updated
  update_policy ac uid obj act =
      if enable
      then updated ac (update_change uid (object_id obj))
          (Enforcer.update_policy ac.enforcer uid obj act)
      else (ac, ok tt)

  unfoldable pub removed :
      AccessControl c → AccessControlChange → Result (AfEnforcer c) AppError → Outcome c
  removed ac change (ok e) = (record { enforcer = e; sent = ac.sent ++ change ∷ [] }, ok tt)
  removed ac change (err x) = (ac, err x)

  unfoldable pub remove_policy : AccessControl c → ℤ → ObjectType → Outcome c
  unfolding removed
  remove_policy ac uid obj =
      if enable
      then removed ac (remove_change uid (object_id obj))
          (Enforcer.remove_policy ac.enforcer uid obj)
      else (ac, ok tt)

  enforced :
      AccessControl c → AfEnforcer c × Result Bool AppError → AccessControl c × Result Bool AppError
  enforced ac (e, r) = (record ac { enforcer = e }, r)

  unfoldable pub enforce :
      AccessControl c
      → Text
      → ℤ
      → ObjectType
      → ActionVariant
      → AccessControl c × Result Bool AppError
  unfolding enforced
  enforce ac workspace_id uid obj act =
      if enable
      then enforced ac (Enforcer.enforce_policy ac.enforcer workspace_id uid obj act)
      else (ac, ok true)

  -- `WorkspaceAccessControlImpl`; a Uuid is its text.
  unfoldable pub enforce_role :
      AccessControl c → ℤ → Text → Role → AccessControl c × Result Bool AppError
  enforce_role ac uid workspace_id role =
      enforce ac workspace_id uid (workspace workspace_id) (from_role role)

  unfoldable pub enforce_action :
      AccessControl c → ℤ → Text → Action → AccessControl c × Result Bool AppError
  enforce_action ac uid workspace_id action =
      enforce ac workspace_id uid (workspace workspace_id) (from_action action)

  unfoldable pub insert_role : AccessControl c → ℤ → Text → Role → Outcome c
  insert_role ac uid workspace_id role =
      and_then (update_policy ac uid (workspace workspace_id) (from_role role)) (λ ac'.
        update_policy ac' uid (collab workspace_id) (from_access_level (level_from_role role)))

  unfoldable pub remove_role : AccessControl c → ℤ → Text → Outcome c
  remove_role ac uid workspace_id =
      and_then (remove_policy ac uid (workspace workspace_id))
        (λ ac'. remove_policy ac' uid (collab workspace_id))

  -- `CollabAccessControlImpl`
  unfoldable pub enforce_collab_action :
      AccessControl c → Text → ℤ → Text → Action → AccessControl c × Result Bool AppError
  enforce_collab_action ac workspace_id uid oid action =
      enforce ac workspace_id uid (collab oid) (from_action action)

  unfoldable pub enforce_access_level :
      AccessControl c → Text → ℤ → Text → AccessLevel → AccessControl c × Result Bool AppError
  enforce_access_level ac workspace_id uid oid level =
      enforce ac workspace_id uid (collab oid) (from_access_level level)

  unfoldable pub update_access_level_policy : AccessControl c → ℤ → Text → AccessLevel → Outcome c
  update_access_level_policy ac uid oid level =
      update_policy ac uid (collab oid) (from_access_level level)

  unfoldable pub remove_access_level : AccessControl c → ℤ → Text → Outcome c
  remove_access_level ac uid oid = remove_policy ac uid (collab oid)
