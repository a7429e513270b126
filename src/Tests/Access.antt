-- ===== src/Tests/Access.antt =====
-- Runs of the theorems on access control.
use flow_cloud.Base.{◌≡◌, refl, inl, true, [], ◌∷◌, Text, ok, codes, contains, list_eq, nat_eq}
use flow_cloud.Base.Int.{ℤ, pos, increment_i64}
use flow_cloud.Base.Decimal.{print_ℤ, print_ℕ, digits}
use flow_cloud.Dto.{member, guest, can_write, can_delete}
use flow_cloud.Access.Request.{workspace_segments}
use flow_cloud.Access.Action.{
  workspace, collab, from_role, from_action, read, write, policy_object, to_action, role_text,
  action_text,
}
use flow_cloud.Access.Groups.{grouping_policies}
use flow_cloud.Access.Enforcer.{
  decide, AfEnforcer, enforce_policy, update_policy, remove_policy, no_enforce_group,
  validate_obj_action,
}
use flow_cloud.Access.Enforcer.Decisions.{permits, enforce_policy-Exact}
use flow_cloud.Access.Enforcer.Updates.{update_policy-Grants}
use flow_cloud.Access.Enforcer.Removal.{remove_policy-Keeps}
use flow_cloud.Access.Control.{
  AccessControl, update_change, remove_change, insert_role, remove_role, enforce_action,
  enforce_collab_action, enforce, and_then, updated,
}
use flow_cloud.Access.Control as Control
use flow_cloud.Access.Control.Roles.{insert_role-Grants}
use flow_cloud.Access.Cache.{
  RealtimeAccessControl, handle_change, can_perform_action, can_read_collab, lookup_or_enforce,
  remember,
}
use flow_cloud.Access.Cache.Staleness.{handle_change-Fresh}
use flow_cloud.Tests.Data.{tiny_casbin, tiny_casbin-IsLawful, tiny_groups}

abbrev user : ℤ
user = pos 7

-- No policy, and the groups of the program.
abbrev bare_enforcer : AfEnforcer tiny_casbin
bare_enforcer = record {
  enforcer = ([], grouping_policies);
  total_read_enforce_result = pos 0;
  enforce_group = no_enforce_group;
}

-- The user is a member of the workspace "w".
abbrev member_enforcer : AfEnforcer tiny_casbin
member_enforcer = record bare_enforcer {
  enforcer = (
    (print_ℤ user ∷ policy_object (workspace (codes "w")) ∷ to_action (from_role member) ∷ []) ∷ [],
    grouping_policies,
  );
}

enforce_policy-Exact_example :
    enforce_policy member_enforcer (codes "w") user (collab (codes "d")) (from_action read) ≡ (
      record member_enforcer {
        total_read_enforce_result = increment_i64 member_enforcer.total_read_enforce_result;
      },
      ok (
          permits tiny_casbin member_enforcer
            (codes "w")
            user
            (collab (codes "d"))
            (from_action read)),
    )
enforce_policy-Exact_example =
    enforce_policy-Exact tiny_casbin tiny_casbin-IsLawful member_enforcer (codes "w") user
      (collab (codes "d")) (from_action read)

bare_update :
    update_policy bare_enforcer user (workspace (codes "w")) (from_role member) ≡ ok member_enforcer
unfolding update_policy validate_obj_action
bare_update = refl

member_may_read :
    contains grouping_policies (to_action (from_role member) ∷ to_action (from_action read) ∷ [])
    ≡ true
unfolding grouping_policies to_action role_text action_text can_write can_delete
member_may_read = refl

update_policy-Grants_example :
    (enforce_policy member_enforcer (codes "w") user (workspace (codes "w")) (from_action read)).1
    ≡ ok true
update_policy-Grants_example =
    update_policy-Grants tiny_casbin tiny_casbin-IsLawful bare_enforcer member_enforcer user
      (workspace (codes "w")) (from_role member) bare_update (from_action read)
      (tiny_groups [] _ _ member_may_read) (codes "w")

-- The user becomes a guest, by an update.
abbrev demoted_enforcer : AfEnforcer tiny_casbin
demoted_enforcer = record bare_enforcer {
  enforcer = (
    (print_ℤ user ∷ policy_object (workspace (codes "w")) ∷ to_action (from_role member) ∷ [])
        ∷ (print_ℤ user ∷ policy_object (workspace (codes "w")) ∷ to_action (from_role guest) ∷ [])
        ∷ [],
    grouping_policies,
  );
}

demotion :
    update_policy member_enforcer user (workspace (codes "w")) (from_role guest)
    ≡ ok demoted_enforcer
unfolding update_policy validate_obj_action policy_object to_action role_text print_ℤ print_ℕ digits
demotion = refl

member_may_write :
    contains grouping_policies (to_action (from_role member) ∷ to_action (from_action write) ∷ [])
    ≡ true
unfolding grouping_policies to_action role_text action_text can_write can_delete
member_may_write = refl

remove_policy-Keeps_example :
    remove_policy member_enforcer user (workspace (codes "w")) ≡ ok member_enforcer
remove_policy-Keeps_example =
    remove_policy-Keeps tiny_casbin tiny_casbin-IsLawful member_enforcer user
      (workspace (codes "w"))

abbrev bare_control : AccessControl tiny_casbin
bare_control = record { enforcer = bare_enforcer; sent = [] }

abbrev member_control : AccessControl tiny_casbin
member_control = (insert_role true bare_control user (codes "w") member).0

bare_insert : insert_role true bare_control user (codes "w") member ≡ (member_control, ok tt)
unfolding insert_role Control.update_policy updated update_policy validate_obj_action
bare_insert = refl

insert_role-Grants_example :
    ((enforce_action true member_control user (codes "w") read).1 ≡ ok true)
    × ((oid : Text)
        → (enforce_collab_action true member_control (codes "w") user oid read).1 ≡ ok true)
insert_role-Grants_example =
    insert_role-Grants tiny_casbin tiny_casbin-IsLawful bare_control member_control user (codes "w")
      member (tiny_groups []) bare_insert read refl

-- The cache, before the user has asked for anything, and after a read of the collab "d".
abbrev new_cache : RealtimeAccessControl tiny_casbin
new_cache = record {
  access_control = record { enforcer = member_enforcer; sent = [] };
  action_by_oid = [];
}

abbrev read_cache : RealtimeAccessControl tiny_casbin
read_cache = (can_read_collab true new_cache (codes "w") user (codes "d")).0

first_read : can_read_collab true new_cache (codes "w") user (codes "d") ≡ (read_cache, ok true)
unfolding can_read_collab can_perform_action lookup_or_enforce remember enforce enforce_policy
    decide workspace_segments policy_object to_action role_text action_text print_ℤ print_ℕ digits
    grouping_policies can_write can_delete
first_read = refl

handle_change-Fresh_example :
    (can_perform_action true
      (record read_cache {
        action_by_oid = handle_change read_cache.action_by_oid (update_change user (codes "d"));
      })
      (codes "w")
      user
      (codes "d")
      write).1
    ≡ (enforce true read_cache.access_control
        (codes "w")
        user
        (collab (codes "d"))
        (from_action write)).1
handle_change-Fresh_example =
    handle_change-Fresh tiny_casbin read_cache (codes "w") user (codes "d") write
      (update_change user (codes "d")) (inl refl)
