-- ===== src/Access/Enforcer/Removal.antt =====
-- What `remove_policy` of src/biz/casbin/enforcer.rs removes.
use flow_cloud.Base.{
  ℕ, ◌<◌, ◌≡◌, ◌≢◌, refl, ◌∙◌, ap, Bool, true, false, Option, none, some, List, [], ◌∷◌, ◌++◌, Text,
  codes, retain, list_eq, nat_eq, ◌==◌, list_beq_iff, arith, inl, inr, Bool-cases, ok,
}
use flow_cloud.Base.Int.{ℤ, pos, negsuc}
use flow_cloud.Base.Decimal.{print_ℤ, print_ℕ_head, IsDigit}
use flow_cloud.Access.Casbin.{Casbin, IsLawful, Policy, field, field_is}
use flow_cloud.Access.Action.{ObjectType, workspace, collab, policy_object}
use flow_cloud.Access.Enforcer.{
  AfEnforcer, remove_policy, remove_found, policies_for_subject_with_given_object,
  policy_field_index_object,
}

digits_differ : (d : ℕ) (ds s : Text) (o : ℕ) → IsDigit d → 57 < o → ((o ∷ s) == (d ∷ ds)) ≡ false
digits_differ d ds s o h k = ground (arith, h)

-- No object has the text of a user.
object_differs : (obj : ObjectType) (uid : ℤ) → (policy_object obj == print_ℤ uid) ≡ false
unfolding policy_object print_ℤ
object_differs (collab s) (pos n) =
    let (d, ds, e, digit) = print_ℕ_head n in
    rw e (digits_differ d ds (codes "ollab::" ++ s) 99 digit (omega arith))
object_differs (workspace s) (pos n) =
    let (d, ds, e, digit) = print_ℕ_head n in
    rw e (digits_differ d ds (codes "orkspace::" ++ s) 119 digit (omega arith))
object_differs (collab s) (negsuc n) = refl
object_differs (workspace s) (negsuc n) = refl

object_fills : (obj : ObjectType) → policy_object obj ≢ []
unfolding policy_object
object_fills (collab s) h = ground (arith, h)
object_fills (workspace s) h = ground (arith, h)

module _ {ℓ} {A : Type ℓ} (p q : A → Bool) (apart : (x : A) → q x ≡ true → p x ≡ false) where
  retain-retain : (xs : List A) → retain p (retain q xs) ≡ []
  retain-retain [] = refl
  retain-retain (x ∷ xs) = elim (Bool-cases (q x)) [
    | inl q_yes ↦ rw (q_yes, apart x q_yes, retain-retain xs)
    | inr q_no ↦ rw (q_no, retain-retain xs)
  ]

field_is-apart :
    (i : ℕ) (v w : Text)
    → (v == w) ≡ false
    → (p : Policy) → field_is i v p ≡ true
    → field_is i w p ≡ false
field_is-apart i v w differ p = go (field p i)
  where
    go :
        (o : Option Text)
        → elim o [ none ↦ false | some t ↦ t == v ] ≡ true
        → elim o [ none ↦ false | some t ↦ t == w ] ≡ false
    go none h = refl
    go (some t) h = rw ((list_beq_iff t v).0 h, differ)

-- With a lawful casbin, removing a policy removes none, whatever the user and the object: no policy
-- passes the comparison of its object with the user.
pub remove_policy-Keeps :
    (c : Casbin)
    → IsLawful c
    → (e : AfEnforcer c) (uid : ℤ) (obj : ObjectType) → remove_policy e uid obj ≡ ok e
unfolding remove_policy policies_for_subject_with_given_object remove_found
remove_policy-Keeps c lawful e uid obj = ap (remove_found e) (
    ap (retain (field_is policy_field_index_object (print_ℤ uid)))
      (lawful.filtered e.enforcer policy_field_index_object (policy_object obj) (object_fills obj))
    ∙ retain-retain _ _
        (field_is-apart policy_field_index_object (policy_object obj) (print_ℤ uid)
          (object_differs obj uid))
        (c.policies e.enforcer))
