-- ===== src/Middleware/Permits.antt =====
-- What the middleware of src/middleware/access_control_mw.rs lets through.
use flow_cloud.Base.{
  ◌≡◌, ◌↔◌, refl, sym, ap, ◌∙◌, Bool, true, false, ◌&&◌, ◌||◌, Option, none, some, Text, Result, ok,
  err, if◌then◌else◌, Option-cases, Bool-cases, inl, inr,
}
use flow_cloud.Base.Int.{ℤ, increment_i64}
use flow_cloud.Access.Casbin.{Casbin, IsLawful}
use flow_cloud.Access.Action.{
  Method, ObjectType, workspace, collab, ActionVariant, from_role, from_access_level, from_action,
  action_from_method,
}
use flow_cloud.Access.Enforcer.{AppError}
use flow_cloud.Access.Enforcer.Decisions.{permits, enforce_policy-Exact}
use flow_cloud.Access.Control.{
  AccessControl, enforce, enforce_role, enforce_action, enforce_collab_action, enforce_access_level,
}
use flow_cloud.Middleware.{
  Router, ServiceRequest, Refusal, not_enough_permissions, Outcome, decided, parsed_workspace,
  workspace_should_skip, require_role, collab_should_skip, require_access_level,
  check_workspace_permission, check_collab_permission, check_permissions, call,
}

-- What is asked of the policies.
abbrev pub workspace_variant : Router → Method → Text → ActionVariant
workspace_variant r method path = elim (require_role r method path) [
  | some role ↦ from_role role
  | none ↦ from_action (action_from_method method)
]

abbrev pub collab_variant : Router → Method → Text → ActionVariant
collab_variant r method path = elim (require_access_level r method path) [
  | some level ↦ from_access_level level
  | none ↦ from_action (action_from_method method)
]

module _ (r : Router) (c : Casbin) where
  -- What the rules for the path and the policies permit the user.
  abbrev pub workspace_may : AccessControl c → Text → ℤ → Method → Text → Bool
  workspace_may ac workspace_id uid method path =
      workspace_should_skip r method path
      || permits c ac.enforcer workspace_id uid (workspace workspace_id)
          (workspace_variant r method path)

  abbrev pub collab_may : AccessControl c → Text → ℤ → Text → Method → Text → Bool
  collab_may ac workspace_id uid oid method path =
      collab_should_skip r method path
      || permits c ac.enforcer workspace_id uid (collab oid) (collab_variant r method path)

  abbrev pub object_may : AccessControl c → Text → ℤ → Option Text → Method → Text → Bool
  object_may ac workspace_id uid none method path = true
  object_may ac workspace_id uid (some oid) method path =
      collab_may ac workspace_id uid oid method path

  -- The call is counted, and nothing else of the access control changes.
  abbrev counted : AccessControl c → AccessControl c
  counted ac = record ac {
    enforcer = record ac.enforcer {
      total_read_enforce_result = increment_i64 ac.enforcer.total_read_enforce_result;
    };
  }

  abbrev answer : Bool → Result Unit Refusal
  answer true = ok tt
  answer false = err not_enough_permissions

  decided-answer : (ac : AccessControl c) (b : Bool) → decided (ac, ok b) ≡ (ac, answer b)
  unfolding decided
  decided-answer ac true = refl
  decided-answer ac false = refl

  enforce-permits :
      IsLawful c
      → (ac : AccessControl c) (workspace_id : Text) (uid : ℤ) (obj : ObjectType)
        (act : ActionVariant)
      → enforce true ac workspace_id uid obj act
        ≡ (counted ac, ok (permits c ac.enforcer workspace_id uid obj act))
  unfolding enforce
  enforce-permits lawful ac workspace_id uid obj act =
      rw (enforce, enforce_policy-Exact c lawful ac.enforcer workspace_id uid obj act) refl

  workspace-asked :
      (ac : AccessControl c) (workspace_id : Text) (uid : ℤ) (method : Method) (path : Text)
      → elim (require_role r method path) as (λ _. AccessControl c × Result Bool AppError) [
        | some role ↦ enforce_role true ac uid workspace_id role
        | none ↦ enforce_action true ac uid workspace_id (action_from_method method)
      ]
        ≡ enforce true ac workspace_id uid
            (workspace workspace_id)
            (workspace_variant r method path)
  unfolding enforce_role enforce_action
  workspace-asked ac workspace_id uid method path =
      elim (Option-cases (require_role r method path)) [
        | inr (role, found) ↦ rw (workspace_variant, found) refl
        | inl free ↦ rw (workspace_variant, free) refl
      ]

  collab-asked :
      (ac : AccessControl c) (workspace_id : Text) (uid : ℤ) (oid : Text) (method : Method)
      (path : Text)
      → elim (require_access_level r method path) as (λ _. AccessControl c × Result Bool AppError) [
        | some level ↦ enforce_access_level true ac workspace_id uid oid level
        | none ↦ enforce_collab_action true ac workspace_id uid oid (action_from_method method)
      ]
        ≡ enforce true ac workspace_id uid (collab oid) (collab_variant r method path)
  unfolding enforce_access_level enforce_collab_action
  collab-asked ac workspace_id uid oid method path =
      elim (Option-cases (require_access_level r method path)) [
        | inr (level, found) ↦ rw (collab_variant, found) refl
        | inl free ↦ rw (collab_variant, free) refl
      ]

  check_workspace-Exact :
      IsLawful c
      → (ac : AccessControl c) (workspace_id : Text) (uid : ℤ) (method : Method) (path : Text)
      → check_workspace_permission r true ac workspace_id uid method path ≡ (
        if workspace_should_skip r method path then ac else counted ac,
        answer (workspace_may ac workspace_id uid method path),
      )
  unfolding check_workspace_permission
  check_workspace-Exact lawful ac workspace_id uid method path =
      let asked : decided (
            enforce true ac workspace_id uid (workspace workspace_id)
              (workspace_variant r method path))
          ≡ (
            counted ac,
            answer (
                permits c ac.enforcer workspace_id uid (workspace workspace_id)
                  (workspace_variant r method path)),
          ) =
        rw
          (enforce-permits lawful ac workspace_id uid (workspace workspace_id)
            (workspace_variant r method path))
          (decided-answer (counted ac) _) in
      elim (Bool-cases (workspace_should_skip r method path)) [
        | inl skip ↦ rw (check_workspace_permission, skip) refl
        | inr checked ↦
            rw (check_workspace_permission, checked)
              (ap decided (workspace-asked ac workspace_id uid method path) ∙ asked)
      ]

  check_collab-Exact :
      IsLawful c
      → (ac : AccessControl c) (workspace_id : Text) (uid : ℤ) (oid : Text) (method : Method)
        (path : Text)
      → (check_collab_permission r true ac workspace_id uid oid method path (ok true)).1
        ≡ answer (collab_may ac workspace_id uid oid method path)
  unfolding check_collab_permission
  check_collab-Exact lawful ac workspace_id uid oid method path =
      let asked : decided
            (enforce true ac workspace_id uid (collab oid) (collab_variant r method path))
          ≡ (
            counted ac,
            answer (
                permits c ac.enforcer workspace_id uid (collab oid) (collab_variant r method path)),
          ) =
        rw (enforce-permits lawful ac workspace_id uid (collab oid) (collab_variant r method path))
          (decided-answer (counted ac) _) in
      elim (Bool-cases (collab_should_skip r method path)) [
        | inl skip ↦ rw (check_collab_permission, skip) refl
        | inr checked ↦
            rw (check_collab_permission, checked)
              (ap (λ o. (decided o).1) (collab-asked ac workspace_id uid oid method path)
                ∙ ap (λ (o : Outcome c). o.1) asked)
      ]

  -- What a call permits does not depend on the count of calls.
  check_permissions-Exact :
      IsLawful c
      → (ac : AccessControl c) (req : ServiceRequest) (workspace_id : Text) (uid : ℤ)
      → req.is_exist ≡ ok true
      → (check_permissions r true ac req workspace_id uid).1
        ≡ answer (
            workspace_may ac workspace_id uid req.method req.path
            && object_may ac workspace_id uid req.object_id req.method req.path)
  unfolding check_permissions
  check_permissions-Exact lawful ac req workspace_id uid there =
      let first = check_workspace-Exact lawful ac workspace_id uid req.method req.path in
      elim (Bool-cases (workspace_may ac workspace_id uid req.method req.path)) [
        | inr denied ↦
            rw (check_permissions, first, denied)
              (ap (λ (o : Outcome c). o.1) first ∙ ap answer denied)
        | inl allowed ↦ elim (Option-cases req.object_id) [
          | inl no_object ↦
              rw (check_permissions, first, allowed, no_object)
                (ap (λ (o : Outcome c). o.1) first ∙ ap answer allowed)
          | inr (oid, object) ↦
              rw (check_permissions, first, allowed, object, there)
                (elim (Bool-cases (workspace_should_skip r req.method req.path)) [
                  | inl skip ↦
                      rw (first, skip)
                        (check_collab-Exact lawful ac workspace_id uid oid req.method req.path)
                  | inr asked ↦
                      rw (first, asked)
                        (check_collab-Exact lawful (counted ac) workspace_id uid oid req.method
                          req.path)
                ])
        ]
      ]

  -- With a lawful casbin, a request that names a workspace is let through exactly if the rules for
  -- its path and the policies permit it to the user: on the workspace, and on the collab, when it
  -- names one. This is said of a path that a route matches, a user that is known, and a collab that
  -- exists, while access control is enabled.
  pub call-Exact :
      IsLawful c
      → (ac : AccessControl c) (req : ServiceRequest) (workspace_id : Text) (uid : ℤ)
      → req.is_matched ≡ true
      → parsed_workspace r req ≡ some workspace_id
      → req.uid ≡ ok uid
      → req.is_exist ≡ ok true
      → ((call r true ac req).1 ≡ ok tt) ↔ (
          (workspace_may ac workspace_id uid req.method req.path
            && object_may ac workspace_id uid req.object_id req.method req.path)
          ≡ true)
  unfolding call
  call-Exact lawful ac req workspace_id uid matched parsed known there =
      let same : (call r true ac req).1
          ≡ answer (
              workspace_may ac workspace_id uid req.method req.path
              && object_may ac workspace_id uid req.object_id req.method req.path) =
        rw (call, matched, parsed, known)
          (check_permissions-Exact lawful ac req workspace_id uid there) in
      (λ h. answered _ (sym same ∙ h), λ h. same ∙ ap answer h)
    where
      answered : (b : Bool) → answer b ≡ ok tt → b ≡ true
      answered true h = refl
      answered false h = absurd (cc)
