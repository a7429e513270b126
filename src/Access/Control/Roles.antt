-- ===== src/Access/Control/Roles.antt =====
-- What `insert_role` and `remove_role` of src/biz/casbin/workspace_ac.rs do for a user.
use flow_cloud.Base.{
  ◌≡◌, refl, ◌∙◌, ap, true, [], ◌∷◌, ◌++◌, Text, contains, list_eq, nat_eq, arith, Result, ok, err,
}
use flow_cloud.Base.Int.{ℤ}
use flow_cloud.Base.Decimal.{print_ℤ}
use flow_cloud.Dto.{Role, level_from_role}
use flow_cloud.Access.Casbin.{Casbin, IsLawful, allows}
use flow_cloud.Access.Action.{
  ObjectType, object_id, workspace, collab, ActionVariant, from_role, from_access_level,
  from_action, Action, policy_object, to_action, role_text, action_text,
}
use flow_cloud.Access.Request.{in_workspace}
use flow_cloud.Access.Groups.{grouping_policies, level_may, grants_exact}
use flow_cloud.Access.Enforcer.{AppError, AfEnforcer, enforce_policy}
use flow_cloud.Access.Enforcer as Enforcer
use flow_cloud.Access.Enforcer.Decisions.{permitted}
use flow_cloud.Access.Enforcer.Updates.{update_policy-grows, update_policy-allows}
use flow_cloud.Access.Enforcer.Removal.{remove_policy-Keeps}
use flow_cloud.Access.Control.{
  AccessControl, AccessControlChange, update_change, remove_change, and_then, update_policy,
  updated, removed, remove_policy, insert_role, remove_role, enforce, enforce_action,
  enforce_collab_action,
}

-- The two updates of an insertion that succeeds.
insert_cases :
    {c : Casbin} (ac ac' : AccessControl c) (uid : ℤ) (workspace_id : Text) (role : Role)
    → insert_role true ac uid workspace_id role ≡ (ac', ok tt)
    → (mid : AfEnforcer c) × (Enforcer.update_policy ac.enforcer uid
          (workspace workspace_id)
          (from_role role)
        ≡ ok mid)
      × (Enforcer.update_policy mid uid
            (collab workspace_id)
            (from_access_level (level_from_role role))
          ≡ ok ac'.enforcer)
unfolding insert_role update_policy updated object_id
insert_cases {c} ac ac' uid workspace_id role =
    first (Enforcer.update_policy ac.enforcer uid (workspace workspace_id) (from_role role))
  where
    second :
        (ac1 : AccessControl c) (change : AccessControlChange) (r : Result (AfEnforcer c) AppError)
        → updated true ac1 change r ≡ (ac', ok tt)
        → r ≡ ok ac'.enforcer
    second ac1 change (ok e) h = ap (λ o. ok (o.0.enforcer)) h
    second ac1 change (err y) h = ground (arith, h)

    first :
        (r : Result (AfEnforcer c) AppError)
        → and_then (updated true ac (update_change uid workspace_id) r) (λ ac1.
          update_policy true ac1 uid
            (collab workspace_id)
            (from_access_level (level_from_role role)))
          ≡ (ac', ok tt)
        → (mid : AfEnforcer c) × (r ≡ ok mid)
          × (Enforcer.update_policy mid uid
                (collab workspace_id)
                (from_access_level (level_from_role role))
              ≡ ok ac'.enforcer)
    first (ok e) h = (e, refl, second _ _ _ h)
    first (err y) h = ground (arith, h)

-- The relation of the groups holds at least what `load_group_policies` has added.
abbrev pub HasGroups : (c : Casbin) → c.Enforcer → Type 0
HasGroups c e = (x y : Text) → contains grouping_policies (x ∷ y ∷ []) ≡ true → c.g e x y ≡ true

allowed_in_workspace :
    (c : Casbin)
    → IsLawful c
    → (e : AfEnforcer c) (workspace_id : Text) (uid : ℤ) (obj : ObjectType) (act : ActionVariant)
    → allows c e.enforcer
        (print_ℤ uid)
        (policy_object (in_workspace workspace_id obj))
        (to_action act)
      ≡ true
    → (enforce_policy e workspace_id uid obj act).1 ≡ ok true
allowed_in_workspace c lawful e workspace_id uid obj act h =
    (permitted c lawful e workspace_id uid obj act).1 (rw h refl)

-- With a lawful casbin that has the groups, once `insert_role` has succeeded, the user may do every
-- action of the level of the role in the workspace, and on every collab that is asked for in it.
pub insert_role-Grants :
    (c : Casbin)
    → IsLawful c
    → (ac ac' : AccessControl c) (uid : ℤ) (workspace_id : Text) (role : Role)
    → HasGroups c ac.enforcer.enforcer
    → insert_role true ac uid workspace_id role ≡ (ac', ok tt)
    → (action : Action) → level_may (level_from_role role) action ≡ true
    → ((enforce_action true ac' uid workspace_id action).1 ≡ ok true)
      × ((oid : Text) → (enforce_collab_action true ac' workspace_id uid oid action).1 ≡ ok true)
unfolding to_action enforce_action enforce_collab_action enforce
insert_role-Grants c lawful ac ac' uid workspace_id role groups h action may =
    let (mid, first, second) = insert_cases ac ac' uid workspace_id role h in
    let granted =
      update_policy-allows c lawful ac.enforcer mid uid (workspace workspace_id) (from_role role)
        first (from_action action)
        (groups (role_text role) (action_text action) (grants_exact.1 role action ∙ may)) in
    let kept =
      update_policy-grows c lawful mid ac'.enforcer uid (collab workspace_id)
        (from_access_level (level_from_role role)) second _ _ _ granted in
    (
      allowed_in_workspace c lawful ac'.enforcer workspace_id uid (workspace workspace_id)
          (from_action action) kept,
      λ oid.
          allowed_in_workspace c lawful ac'.enforcer workspace_id uid (collab oid)
            (from_action action) kept,
    )

-- With a lawful casbin, `remove_role` succeeds and sends its two changes, but leaves every policy:
-- the user may afterwards what the user could before.
pub remove_role-Keeps :
    (c : Casbin)
    → IsLawful c
    → (ac : AccessControl c) (uid : ℤ) (workspace_id : Text)
    → remove_role true ac uid workspace_id ≡ (
      record ac {
        sent =
            (ac.sent ++ remove_change uid workspace_id ∷ []) ++ remove_change uid workspace_id ∷ [];
      },
      ok tt,
    )
unfolding remove_role remove_policy removed object_id
remove_role-Keeps c lawful ac uid workspace_id =
    rw
      (
        remove_policy-Keeps c lawful ac.enforcer uid (workspace workspace_id),
        remove_policy-Keeps c lawful ac.enforcer uid (collab workspace_id),
      )
      refl
