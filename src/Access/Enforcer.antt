-- ===== src/Access/Enforcer.antt =====
-- src/biz/casbin/enforcer.rs: `AFEnforcer`.
pub mod Decisions
pub mod Removal
pub mod Updates
use flow_cloud.Base.{
  ℕ, ◌+◌, Bool, true, false, not, Option, none, some, List, [], ◌∷◌, Text, Result, ok, err, ◌>>=◌,
  ◌>>◌, retain, if◌then◌else◌,
}
use flow_cloud.Base.Int.{ℤ, pos, negsuc, increment_i64}
use flow_cloud.Base.Decimal.{print_ℤ}
use flow_cloud.Access.Casbin.{Casbin, Policy, field_is}
use flow_cloud.Access.Action.{
  ObjectType, workspace, collab, ActionVariant, from_role, from_access_level, policy_object,
  to_action,
}
use flow_cloud.Access.Groups.{load_group_policies}
use flow_cloud.Access.Request.{workspace_segments, group_segments, policy_segments}

abbrev pub policy_field_index_subject : ℕ
policy_field_index_subject = 0

abbrev pub policy_field_index_object : ℕ
policy_field_index_object = 1

-- The `AppError::Internal`s, by their cause.
pub data AppError : Type 0 where
  invalid_combination casbin_failed : AppError

abbrev pub internal : {A : Type 0} (c : Casbin) → Result A c.Error → Result A AppError
internal c (ok a) = ok a
internal c (err e) = err casbin_failed

-- `enforce_group` is the method of the trait `EnforcerGroup`.
pub record AfEnforcer (c : Casbin) : Type 0 where
  pub enforcer : c.Enforcer
  pub total_read_enforce_result : ℤ
  pub enforce_group : ℤ → Option Text

unfoldable pub no_enforce_group : ℤ → Option Text
no_enforce_group uid = none

unfoldable pub validate_obj_action : ObjectType → ActionVariant → Result (Unit {0}) AppError
validate_obj_action (workspace s) (from_role role) = ok tt
validate_obj_action (collab s) (from_access_level level) = ok tt
validate_obj_action _ _ = err invalid_combination

abbrev pub policy_of : ℤ → ObjectType → ActionVariant → Policy
policy_of uid obj act = print_ℤ uid ∷ policy_object obj ∷ to_action act ∷ []

-- One more check, made only if those before it denied.
abbrev pub or_else : Bool → Result Bool AppError → Result Bool AppError
or_else true r = ok true
or_else false r = r

-- The code compares the field of the object, not that of the subject, with the subject.
unfoldable pub policies_for_subject_with_given_object :
    (c : Casbin) → ℤ → ObjectType → c.Enforcer → List Policy
policies_for_subject_with_given_object c uid obj enforcer =
    retain (field_is policy_field_index_object (print_ℤ uid))
      (c.get_filtered_policy enforcer policy_field_index_object (policy_object obj ∷ []))

module _ {c : Casbin} where
  unfoldable pub new : c.Enforcer → (ℤ → Option Text) → Result (AfEnforcer c) AppError
  new enforcer enforce_group = do
    (loaded, added) ← internal c (load_group_policies c enforcer)
    ok (record {
      enforcer = loaded;
      total_read_enforce_result = pos 0;
      enforce_group = enforce_group;
    })

  -- The enforcer afterwards; an error leaves it as it was.
  unfoldable pub update_policy :
      AfEnforcer c → ℤ → ObjectType → ActionVariant → Result (AfEnforcer c) AppError
  update_policy e uid obj act = validate_obj_action obj act >> (do
    (enforcer, added) ← internal c (c.add_policy e.enforcer (policy_of uid obj act))
    ok (record e { enforcer = enforcer }))

  unfoldable pub remove_found : AfEnforcer c → List Policy → Result (AfEnforcer c) AppError
  remove_found e [] = ok e
  remove_found e (p ∷ ps) = do
    (enforcer, removed) ← internal c (c.remove_policies e.enforcer (p ∷ ps))
    ok (record e { enforcer = enforcer })

  -- `remove_policy`, by `remove_with_enforcer`.
  unfoldable pub remove_policy : AfEnforcer c → ℤ → ObjectType → Result (AfEnforcer c) AppError
  unfolding remove_found
  remove_policy e uid obj =
      remove_found e (policies_for_subject_with_given_object c uid obj e.enforcer)

  -- 2. the group's policies, if the user has a group
  unfoldable pub enforce_for_group :
      AfEnforcer c → Option Text → ObjectType → ActionVariant → Result Bool AppError
  enforce_for_group e none obj act = ok false
  enforce_for_group e (some guid) obj act = internal c (
      c.enforce e.enforcer
        (group_segments (record { guid = guid; object_type = obj; action = act })))

  unfoldable pub decide :
      AfEnforcer c → Text → ℤ → ObjectType → ActionVariant → Result Bool AppError
  unfolding enforce_for_group
  decide e workspace_id uid obj act = do
    in_ws ← internal c (
        c.enforce e.enforcer (
          workspace_segments
            (record { workspace_id = workspace_id; uid = uid; object_type = obj; action = act })))
    in_group ← or_else in_ws (enforce_for_group e (e.enforce_group uid) obj act)
    or_else in_group (
        internal c (
          c.enforce e.enforcer
            (policy_segments (record { uid = uid; object_type = obj; action = act }))))

  -- The decision, and the enforcer with the call counted.
  unfoldable pub enforce_policy :
      AfEnforcer c → Text → ℤ → ObjectType → ActionVariant → AfEnforcer c × Result Bool AppError
  unfolding decide
  enforce_policy e workspace_id uid obj act = (
    record e { total_read_enforce_result = increment_i64 e.total_read_enforce_result },
    decide e workspace_id uid obj act,
  )
