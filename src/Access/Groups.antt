-- ===== src/Access/Groups.antt =====
-- src/biz/casbin/access_control.rs: `load_group_policies`, which actions a role or level may do.
use flow_cloud.Base.{
  ◌≡◌, refl, Bool, true, List, [], ◌∷◌, ◌++◌, Text, Result, contains, list_eq, nat_eq,
  if◌then◌else◌,
}
use flow_cloud.Dto.{
  Role, owner, member, guest, AccessLevel, read_only, read_and_comment, read_and_write, full_access,
  can_write, can_delete, level_from_role,
}
use flow_cloud.Access.Casbin.{Casbin, Policy}
use flow_cloud.Access.Action.{Action, read, write, delete, action_text, level_text, role_text}

abbrev grant : Text → Action → Policy
grant name action = name ∷ action_text action ∷ []

-- The pushes of one round of the first loop.
level_grants : AccessLevel → List Policy
level_grants level =
    grant (level_text level) read
    ∷ ((if can_write level then grant (level_text level) write ∷ [] else [])
        ++ (if can_delete level then grant (level_text level) delete ∷ [] else []))

-- The pushes of one round of the second loop.
role_grants : Role → List Policy
role_grants owner =
    grant (role_text owner) delete
    ∷ grant (role_text owner) write
    ∷ grant (role_text owner) read
    ∷ []
role_grants member = grant (role_text member) write ∷ grant (role_text member) read ∷ []
role_grants guest = grant (role_text guest) read ∷ []

flat_grants {ℓ} : {A : Type ℓ} → (A → List Policy) → List A → List Policy
flat_grants f [] = []
flat_grants f (a ∷ more) = f a ++ flat_grants f more

unfoldable pub grouping_policies : List Policy
unfolding level_grants role_grants flat_grants
grouping_policies =
    flat_grants level_grants (read_only ∷ read_and_comment ∷ read_and_write ∷ full_access ∷ [])
    ++ flat_grants role_grants (owner ∷ member ∷ guest ∷ [])

unfoldable pub load_group_policies : (c : Casbin) → c.Enforcer → Result (c.Enforcer × Bool) c.Error
load_group_policies c enforcer = c.add_grouping_policies enforcer grouping_policies

-- What a level may do.
abbrev pub level_may : AccessLevel → Action → Bool
level_may level read = true
level_may level write = can_write level
level_may level delete = can_delete level

-- A level is granted exactly the actions that `can_write` and `can_delete` say, and reading; and a
-- role exactly those of the level that `AFAccessLevel::from` makes of it.
pub grants_exact :
    ((l : AccessLevel) (a : Action)
      → contains grouping_policies (level_text l ∷ action_text a ∷ []) ≡ level_may l a)
    × ((r : Role) (a : Action)
        → contains grouping_policies (role_text r ∷ action_text a ∷ [])
          ≡ level_may (level_from_role r) a)
unfolding grouping_policies level_text role_text action_text can_write can_delete level_from_role
grants_exact = (level_exact, role_exact)
  where
    level_exact :
        (l : AccessLevel) (a : Action)
        → contains grouping_policies (level_text l ∷ action_text a ∷ []) ≡ level_may l a
    level_exact read_only read = refl
    level_exact read_only write = refl
    level_exact read_only delete = refl
    level_exact read_and_comment read = refl
    level_exact read_and_comment write = refl
    level_exact read_and_comment delete = refl
    level_exact read_and_write read = refl
    level_exact read_and_write write = refl
    level_exact read_and_write delete = refl
    level_exact full_access read = refl
    level_exact full_access write = refl
    level_exact full_access delete = refl

    role_exact :
        (r : Role) (a : Action)
        → contains grouping_policies (role_text r ∷ action_text a ∷ [])
          ≡ level_may (level_from_role r) a
    role_exact owner read = refl
    role_exact owner write = refl
    role_exact owner delete = refl
    role_exact member read = refl
    role_exact member write = refl
    role_exact member delete = refl
    role_exact guest read = refl
    role_exact guest write = refl
    role_exact guest delete = refl
