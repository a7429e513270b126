-- ===== src/Middleware.antt =====
-- src/middleware/access_control_mw.rs, `AccessControlMiddleware`, with the controllers for workspaces,
-- from src/biz/workspace/access_control.rs, and for collabs, from src/biz/collab/access_control.rs.
pub mod Permits
use flow_cloud.Base.{
  Bool, true, false, not, ◌&&◌, Option, none, some, List, [], ◌∷◌, Text, Result, ok, err, codes,
  if◌then◌else◌,
}
use flow_cloud.Base.Int.{ℤ}
use flow_cloud.Dto.{Role, AccessLevel}
use flow_cloud.Access.Casbin.{Casbin}
use flow_cloud.Access.Action.{
  Method, get_method, post, put, delete_method, other_method, action_from_method,
}
use flow_cloud.Access.Enforcer.{AppError}
use flow_cloud.Access.Control.{
  AccessControl, enforce_role, enforce_action, enforce_collab_action, enforce_access_level,
}

abbrev pub workspace_pattern : Text
workspace_pattern = codes "/api/workspace"

abbrev pub workspace_member_pattern : Text
workspace_member_pattern = codes "/api/workspace/{workspace_id}/member"

abbrev pub workspace_invite_pattern : Text
workspace_invite_pattern = codes "/api/workspace/{workspace_id}/invite"

abbrev pub collab_pattern : Text
collab_pattern = codes "/api/workspace/{workspace_id}/collab/{object_id}"

-- `ResourceDef::is_match` of the crate actix-router, and `Uuid::parse_str` with the text of what it
-- parses.
pub record Router : Type 0 where
  pub is_match : Text → Text → Bool
  pub parse_str : Text → Option Text

-- A request for a resource: its path, the parameters that the pattern of the path captures, and what
-- the cache of users and the database of collabs answer.
pub record ServiceRequest : Type 0 where
  pub method : Method
  pub path : Text
  pub is_matched : Bool
  pub workspace_id : Option Text
  pub object_id : Option Text
  pub uid : Result ℤ Unit
  pub is_exist : Result Bool Unit

pub data Refusal : Type 0 where
  no_user database_failed record_not_found not_enough_permissions : Refusal
  access_failed : AppError → Refusal

abbrev is_post : Method → Bool
is_post post = true
is_post get_method = false
is_post put = false
is_post delete_method = false
is_post other_method = false

-- `None` passes to the next rule.
abbrev pub role_of_member_rule : Method → Option Role
role_of_member_rule post = some Role.owner
role_of_member_rule delete_method = some Role.owner
role_of_member_rule put = some Role.owner
role_of_member_rule get_method = some Role.owner
role_of_member_rule other_method = none

abbrev pub role_of_invite_rule : Method → Option Role
role_of_invite_rule post = some Role.owner
role_of_invite_rule get_method = none
role_of_invite_rule put = none
role_of_invite_rule delete_method = none
role_of_invite_rule other_method = none

abbrev pub level_of_collab_rule : Method → Option AccessLevel
level_of_collab_rule delete_method = some AccessLevel.full_access
level_of_collab_rule post = none
level_of_collab_rule get_method = none
level_of_collab_rule put = none
level_of_collab_rule other_method = none

abbrev pub Outcome : Casbin → Type 0
Outcome c = AccessControl c × Result Unit Refusal

unfoldable pub decided : {c : Casbin} → AccessControl c × Result Bool AppError → Outcome c
decided (ac, ok true) = (ac, ok tt)
decided (ac, ok false) = (ac, err not_enough_permissions)
decided (ac, err e) = (ac, err (access_failed e))

module _ (r : Router) where
  abbrev pub parsed_workspace : ServiceRequest → Option Text
  parsed_workspace req = elim req.workspace_id [ none ↦ none | some id ↦ r.parse_str id ]

  unfoldable pub workspace_should_skip : Method → Text → Bool
  workspace_should_skip method path = is_post method && r.is_match workspace_pattern path

  unfoldable pub require_role : Method → Text → Option Role
  require_role method path =
      let invite =
        if r.is_match workspace_invite_pattern path then role_of_invite_rule method else none in
      if r.is_match workspace_member_pattern path
      then elim (role_of_member_rule method) [ some role ↦ some role | none ↦ invite ]
      else invite

  unfoldable pub collab_should_skip : Method → Text → Bool
  collab_should_skip method path = is_post method && r.is_match collab_pattern path

  unfoldable pub require_access_level : Method → Text → Option AccessLevel
  require_access_level method path =
      if r.is_match collab_pattern path then level_of_collab_rule method else none

  module _ {c : Casbin} (enable : Bool) where
    -- `check_resource_permission` of a workspace.
    unfoldable pub check_workspace_permission :
        AccessControl c → Text → ℤ → Method → Text → Outcome c
    check_workspace_permission ac workspace_id uid method path =
        if workspace_should_skip method path
        then (ac, ok tt)
        else decided (elim (require_role method path) [
          | some role ↦ enforce_role enable ac uid workspace_id role
          | none ↦ enforce_action enable ac uid workspace_id (action_from_method method)
        ])

    -- `check_resource_permission` of a collab.
    unfoldable pub check_collab_permission :
        AccessControl c → Text → ℤ → Text → Method → Text → Result Bool Unit → Outcome c
    check_collab_permission ac workspace_id uid oid method path is_exist =
        if collab_should_skip method path then (ac, ok tt) else elim is_exist [
          | err e ↦ (ac, err database_failed)
          | ok false ↦ (ac, err record_not_found)
          | ok true ↦ decided (elim (require_access_level method path) [
            | some level ↦ enforce_access_level enable ac workspace_id uid oid level
            | none ↦
                enforce_collab_action enable ac workspace_id uid oid (action_from_method method)
          ])
        ]

    -- The collab is checked only behind the workspace.
    unfoldable pub check_permissions : AccessControl c → ServiceRequest → Text → ℤ → Outcome c
    check_permissions ac req workspace_id uid =
        let first = check_workspace_permission ac workspace_id uid req.method req.path in
        elim first.1 [
          | err e ↦ first
          | ok unit ↦ elim req.object_id [
            | none ↦ first
            | some oid ↦
                check_collab_permission first.0 workspace_id uid oid req.method req.path
                  req.is_exist
          ]
        ]

    -- `call`; `ok` hands the request on to the service.
    unfoldable pub call : AccessControl c → ServiceRequest → Outcome c
    call ac req =
        if not enable
        then (ac, ok tt)
        else if not req.is_matched
        then (ac, ok tt)
        else elim (parsed_workspace req) [
          | some workspace_id ↦ elim req.uid [
            | err e ↦ (ac, err no_user)
            | ok uid ↦ check_permissions ac req workspace_id uid
          ]
          | none ↦ elim req.object_id [
            | none ↦ (ac, ok tt)
            | some oid ↦ elim req.uid [ err e ↦ (ac, err no_user) | ok uid ↦ (ac, ok tt) ]
          ]
        ]
