-- ===== src/Access/Request.antt =====
-- src/biz/casbin/request.rs: the segments of the requests to the enforcer.
use flow_cloud.Base.{List, [], ◌∷◌, Text}
use flow_cloud.Base.Int.{ℤ}
use flow_cloud.Base.Decimal.{print_ℤ}
use flow_cloud.Access.Action.{
  ObjectType, workspace, collab, ActionVariant, policy_object, to_action,
}

pub record GroupPolicyRequest : Type 0 where
  pub guid : Text
  pub object_type : ObjectType
  pub action : ActionVariant

unfoldable pub group_segments : GroupPolicyRequest → List Text
group_segments r = r.guid ∷ policy_object r.object_type ∷ to_action r.action ∷ []

pub record WorkspacePolicyRequest : Type 0 where
  pub workspace_id : Text
  pub uid : ℤ
  pub object_type : ObjectType
  pub action : ActionVariant

-- A collab is checked as its workspace.
abbrev pub in_workspace : Text → ObjectType → ObjectType
in_workspace workspace_id (workspace s) = workspace s
in_workspace workspace_id (collab s) = workspace workspace_id

unfoldable pub workspace_segments : WorkspacePolicyRequest → List Text
workspace_segments r =
    print_ℤ r.uid
    ∷ policy_object (in_workspace r.workspace_id r.object_type)
    ∷ to_action r.action
    ∷ []

pub record PolicyRequest : Type 0 where
  pub uid : ℤ
  pub object_type : ObjectType
  pub action : ActionVariant

unfoldable pub policy_segments : PolicyRequest → List Text
policy_segments r = print_ℤ r.uid ∷ policy_object r.object_type ∷ to_action r.action ∷ []
