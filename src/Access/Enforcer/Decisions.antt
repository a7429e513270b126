-- ===== src/Access/Enforcer/Decisions.antt =====
-- What `enforce_policy` of src/biz/casbin/enforcer.rs decides.
use flow_cloud.Base.{
  ◌≡◌, ◌↔◌, refl, sym, ◌∙◌, ap, Bool, true, false, ◌||◌, Option, none, some, Text, list_eq, nat_eq,
  ok, err, Result, ◌>>=◌,
}
use flow_cloud.Base.Int.{ℤ, increment_i64}
use flow_cloud.Base.Decimal.{print_ℤ}
use flow_cloud.Access.Casbin.{Casbin, IsLawful, allows}
use flow_cloud.Access.Action.{ObjectType, ActionVariant, policy_object, to_action}
use flow_cloud.Access.Request.{in_workspace, workspace_segments, group_segments, policy_segments}
use flow_cloud.Access.Enforcer.{
  AppError, AfEnforcer, internal, enforce_policy, decide, enforce_for_group, or_else,
}

-- What the group of a user, if there is one, is allowed.
abbrev pub group_allows : (c : Casbin) → c.Enforcer → Option Text → Text → Text → Bool
group_allows c e none obj act = false
group_allows c e (some guid) obj act = allows c e guid obj act

-- What one of the three requests is allowed.
abbrev pub permits : (c : Casbin) → AfEnforcer c → Text → ℤ → ObjectType → ActionVariant → Bool
permits c e workspace_id uid obj act =
    allows c e.enforcer (print_ℤ uid) (policy_object (in_workspace workspace_id obj))
      (to_action act)
    || (group_allows c e.enforcer (e.enforce_group uid) (policy_object obj) (to_action act)
        || allows c e.enforcer (print_ℤ uid) (policy_object obj) (to_action act))

or_else-ok : (a b : Bool) → or_else a (ok b) ≡ ok (a || b)
or_else-ok true b = refl
or_else-ok false b = refl

enforce_for_group-ok :
    (c : Casbin)
    → IsLawful c
    → (e : AfEnforcer c) (group : Option Text) (obj : ObjectType) (act : ActionVariant)
    → enforce_for_group e group obj act
      ≡ ok (group_allows c e.enforcer group (policy_object obj) (to_action act))
unfolding enforce_for_group group_segments
enforce_for_group-ok c lawful e none obj act = refl
enforce_for_group-ok c lawful e (some guid) obj act =
    ap (internal c) (lawful.enforce_lem e.enforcer guid (policy_object obj) (to_action act))

-- With a lawful casbin a request is decided without an error: it is permitted exactly if the user
-- may do it in the workspace, or the user's group, or the user on the object itself, may. The
-- policies stay as they are, and the counter of calls goes up by one, or from the greatest value of
-- an i64 to the least.
pub enforce_policy-Exact :
    (c : Casbin)
    → IsLawful c
    → (e : AfEnforcer c) (workspace_id : Text) (uid : ℤ) (obj : ObjectType) (act : ActionVariant)
    → enforce_policy e workspace_id uid obj act ≡ (
      record e { total_read_enforce_result = increment_i64 e.total_read_enforce_result },
      ok (permits c e workspace_id uid obj act),
    )
unfolding enforce_policy decide workspace_segments policy_segments
enforce_policy-Exact c lawful e workspace_id uid obj act =
    ap
      (λ r. (record e { total_read_enforce_result = increment_i64 e.total_read_enforce_result }, r))
      (go (ap (internal c) (lawful.enforce_lem e.enforcer _ _ _))
        (enforce_for_group-ok c lawful e (e.enforce_group uid) obj act)
        (ap (internal c) (lawful.enforce_lem e.enforcer _ _ _)))
  where
    go :
        {x y z : Result Bool AppError} {a b d : Bool}
        → x ≡ ok a
        → y ≡ ok b
        → z ≡ ok d
        → (do in_ws ← x; in_group ← or_else in_ws y; or_else in_group z) ≡ ok (a || (b || d))
    go {a = true} h k l = rw h refl
    go {a = false} {b = true} h k l = rw (h, k) refl
    go {a = false} {b = false} h k l = rw (h, k, l) refl

-- The decision and `permits`.
pub permitted :
    (c : Casbin) (lawful : IsLawful c) (e : AfEnforcer c) (workspace_id : Text) (uid : ℤ)
    (obj : ObjectType) (act : ActionVariant)
    → ((enforce_policy e workspace_id uid obj act).1 ≡ ok true)
      ↔ (permits c e workspace_id uid obj act ≡ true)
permitted c lawful e workspace_id uid obj act =
    let exact = ap (λ r. r.1) (enforce_policy-Exact c lawful e workspace_id uid obj act) in
    (λ h. ap (λ r. elim r [ ok b ↦ b | err x ↦ true ]) (sym exact ∙ h), λ h. exact ∙ ap ok h)
