-- ===== src/Access/Enforcer/Updates.antt =====
-- What `update_policy` of src/biz/casbin/enforcer.rs changes of the decisions.
use flow_cloud.Base.{
  ◌≡◌, refl, sym, ◌∙◌, ap, Bool, true, false, ◌||◌, Option, none, some, List, [], ◌∷◌, ◌++◌, Text,
  any, contains, list_eq, nat_eq, ◌==◌, beq_refl, list_beq_iff, arith, inl, inr, Bool-cases, ok,
  err, if◌then◌else◌, Result, if_split, subst, false≢true, ◌>>=◌, ◌>>◌, contains-append,
}
use flow_cloud.Base.Int.{ℤ}
use flow_cloud.Base.Decimal.{print_ℤ}
use flow_cloud.Access.Casbin.{Casbin, IsLawful, Policy, allows, matches, allowed_by}
use flow_cloud.Access.Action.{ObjectType, ActionVariant, policy_object, to_action}
use flow_cloud.Access.Enforcer.{
  AppError, AfEnforcer, internal, enforce_policy, update_policy, policy_of, validate_obj_action,
}
use flow_cloud.Access.Enforcer.Decisions.{permits, group_allows, permitted}

any-append : {A : Type 0} (f : A → Bool) (xs ys : List A) → any f (xs ++ ys) ≡ any f xs || any f ys
any-append f [] ys = refl
any-append f (x ∷ xs) ys = ground (arith, any-append f xs ys)

any-contains :
    (f : Policy → Bool) (p : Policy) (xs : List Policy)
    → contains xs p ≡ true
    → f p ≡ true
    → any f xs ≡ true
any-contains f p [] h k = absurd (false≢true h)
any-contains f p (x ∷ xs) h k = elim (Bool-cases (x == p)) [
  | inl same ↦ rw ((list_beq_iff x p).0 same, k)
  | inr other ↦
      let later = any-contains f p xs (subst (λ b. b || contains xs p ≡ true) other h) k in
      ground (arith, later)
]

-- The policies and the groups after an update.
abbrev UpdateCase : (c : Casbin) → AfEnforcer c → Policy → AfEnforcer c → Type 0
UpdateCase c e p e' =
    (enforcer : c.Enforcer) × (added : Bool) × (c.add_policy e.enforcer p ≡ ok (enforcer, added))
    × (e' ≡ record e { enforcer = enforcer })

update_cases :
    (c : Casbin) (e : AfEnforcer c) (uid : ℤ) (obj : ObjectType) (act : ActionVariant)
    (e' : AfEnforcer c)
    → update_policy e uid obj act ≡ ok e'
    → UpdateCase c e (policy_of uid obj act) e'
unfolding update_policy
update_cases c e uid obj act e' =
    go (validate_obj_action obj act) (c.add_policy e.enforcer (policy_of uid obj act))
  where
    go :
        (v : Result (Unit {0}) AppError) (r : Result (c.Enforcer × Bool) c.Error)
        → (v >> (do (enforcer, added) ← internal c r; ok (record e { enforcer = enforcer })))
          ≡ ok e'
        → (enforcer : c.Enforcer) × (added : Bool) × (r ≡ ok (enforcer, added))
          × (e' ≡ record e { enforcer = enforcer })
    go (err x) r h = ground (arith, h)
    go (ok x) (err y) h = ground (arith, h)
    go (ok x) (ok (enforcer, added)) h =
        (enforcer, added, refl, sym (ap (λ r. elim r [ ok a ↦ a | err y ↦ e' ]) h))

contains-added :
    (ps : List Policy) (p : Policy) → contains (if contains ps p then ps else ps ++ p ∷ []) p ≡ true
contains-added ps p = go (contains ps p) refl
  where
    go : (b : Bool) → contains ps p ≡ b → contains (if b then ps else ps ++ p ∷ []) p ≡ true
    go true h = h
    go false h = contains-append ps (p ∷ []) p ∙ rw (h, beq_refl p) refl

any-added :
    (f : Policy → Bool) (ps : List Policy) (p : Policy)
    → any f ps ≡ true
    → any f (if contains ps p then ps else ps ++ p ∷ []) ≡ true
any-added f ps p h =
    if_split (λ r. any f r ≡ true) (contains ps p) ps (ps ++ p ∷ []) (λ _. h)
      (λ _. any-append f ps (p ∷ []) ∙ rw h refl)

matches-policy :
    (g : Text → Text → Bool) (uid : ℤ) (obj : ObjectType) (act a : ActionVariant)
    → g (to_action act) (to_action a) ≡ true
    → matches g (print_ℤ uid) (policy_object obj) (to_action a) (policy_of uid obj act) ≡ true
matches-policy g uid obj act a h = rw (beq_refl (print_ℤ uid), beq_refl (policy_object obj)) h

module _ (c : Casbin) (lawful : IsLawful c) {e e' : c.Enforcer} {p : Policy} {b : Bool}
    (h : c.add_policy e p ≡ ok (e', b)) where
  -- What the enforcer allows after an addition.
  allows-added :
      (sub obj act : Text)
      → allows c e' sub obj act
        ≡ allowed_by
            (c.g e)
            (if contains (c.policies e) p then c.policies e else c.policies e ++ p ∷ [])
            sub
            obj
            act
  allows-added sub obj act =
      let (policies, groups) = lawful.added e p e' b h in rw (policies, groups) refl

  allows-Grows :
      (sub obj act : Text) → allows c e sub obj act ≡ true → allows c e' sub obj act ≡ true
  allows-Grows sub obj act k =
      allows-added sub obj act ∙ any-added (matches (c.g e) sub obj act) (c.policies e) p k

  allows-new :
      (sub obj act : Text) → matches (c.g e) sub obj act p ≡ true → allows c e' sub obj act ≡ true
  allows-new sub obj act k =
      allows-added sub obj act
      ∙ any-contains (matches (c.g e) sub obj act) p _ (contains-added (c.policies e) p) k

  group_allows-Grows :
      (group : Option Text) (obj act : Text)
      → group_allows c e group obj act ≡ true
      → group_allows c e' group obj act ≡ true
  group_allows-Grows none obj act k = k
  group_allows-Grows (some guid) obj act k = allows-Grows guid obj act k

or_grows :
    (x y z x' y' z' : Bool)
    → (x ≡ true → x' ≡ true)
    → (y ≡ true → y' ≡ true)
    → (z ≡ true → z' ≡ true)
    → (x || (y || z)) ≡ true
    → (x' || (y' || z')) ≡ true
or_grows true y z x' y' z' h k l m = ground (arith, h refl)
or_grows false true z x' y' z' h k l m = ground (arith, k refl)
or_grows false false z x' y' z' h k l m = ground (arith, l m)

or_last : (x y z : Bool) → z ≡ true → (x || (y || z)) ≡ true
or_last x y z h = ground (arith, h)

permits-Grows :
    (c : Casbin) (lawful : IsLawful c) (e : AfEnforcer c) {enforcer : c.Enforcer} {p : Policy}
    {b : Bool}
    → c.add_policy e.enforcer p ≡ ok (enforcer, b)
    → (workspace_id : Text) (uid : ℤ) (obj : ObjectType) (act : ActionVariant)
    → permits c e workspace_id uid obj act ≡ true
    → permits c (record e { enforcer = enforcer }) workspace_id uid obj act ≡ true
permits-Grows c lawful e h workspace_id uid obj act =
    or_grows _ _ _ _ _ _ (allows-Grows c lawful h _ _ _)
      (group_allows-Grows c lawful h (e.enforce_group uid) _ _) (allows-Grows c lawful h _ _ _)

-- With a lawful casbin, what was permitted before an update is permitted after it, to any user on
-- any object: an update revokes nothing, also when it gives a user a weaker role or level.
pub update_policy-Keeps :
    (c : Casbin)
    → IsLawful c
    → (e e' : AfEnforcer c) (uid : ℤ) (obj : ObjectType) (act : ActionVariant)
    → update_policy e uid obj act ≡ ok e'
    → (workspace_id : Text) (other : ℤ) (object : ObjectType) (asked : ActionVariant)
    → (enforce_policy e workspace_id other object asked).1 ≡ ok true
    → (enforce_policy e' workspace_id other object asked).1 ≡ ok true
update_policy-Keeps c lawful e e' uid obj act h workspace_id other object asked k =
    let (enforcer, added, added_is, after) = update_cases c e uid obj act e' h in
    (permitted c lawful e' workspace_id other object asked).1 (
      rw after (
        permits-Grows c lawful e added_is workspace_id other object asked
          ((permitted c lawful e workspace_id other object asked).0 k)))

module _ (c : Casbin) (lawful : IsLawful c) (e e' : AfEnforcer c) (uid : ℤ) (obj : ObjectType)
    (act : ActionVariant) (h : update_policy e uid obj act ≡ ok e') where
  pub update_policy-grows :
      (sub o a : Text) → allows c e.enforcer sub o a ≡ true → allows c e'.enforcer sub o a ≡ true
  update_policy-grows sub o a k =
      let (enforcer, added, added_is, after) = update_cases c e uid obj act e' h in
      rw after (allows-Grows c lawful added_is sub o a k)

  pub update_policy-allows :
      (asked : ActionVariant)
      → c.g e.enforcer (to_action act) (to_action asked) ≡ true
      → allows c e'.enforcer (print_ℤ uid) (policy_object obj) (to_action asked) ≡ true
  update_policy-allows asked grant =
      let (enforcer, added, added_is, after) = update_cases c e uid obj act e' h in
      rw after (
        allows-new c lawful added_is _ _ _
          (matches-policy (c.g e.enforcer) uid obj act asked grant))

-- With a lawful casbin, once an update has succeeded, the user is permitted on the object every
-- action that the groups grant to the role or level of the update.
pub update_policy-Grants :
    (c : Casbin)
    → IsLawful c
    → (e e' : AfEnforcer c) (uid : ℤ) (obj : ObjectType) (act : ActionVariant)
    → update_policy e uid obj act ≡ ok e'
    → (asked : ActionVariant) → c.g e.enforcer (to_action act) (to_action asked) ≡ true
    → (workspace_id : Text) → (enforce_policy e' workspace_id uid obj asked).1 ≡ ok true
update_policy-Grants c lawful e e' uid obj act h asked grant workspace_id =
    (permitted c lawful e' workspace_id uid obj asked).1
      (or_last _ _ _ (update_policy-allows c lawful e e' uid obj act h asked grant))
