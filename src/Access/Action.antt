-- ===== src/Access/Action.antt =====
-- src/biz/casbin/access_control.rs: objects, actions, roles and levels as the texts of policies.
use flow_cloud.Base.{
  ◌≡◌, refl, Option, none, some, ◌++◌, Text, codes, nat_eq, list_eq, ◌==◌, if◌then◌else◌, arith,
}
use flow_cloud.Base.Heap.{Ordering, less, equal, greater, IsPreorder}
use flow_cloud.Base.Decimal.{parse_i32}
use flow_cloud.Dto.{
  Role, owner, member, guest, AccessLevel, read_only, read_and_comment, read_and_write, full_access,
  role_from_str, level_from_str, role_from_i32, level_from_i32,
}

pub data ObjectType : Type 0 where
  workspace collab : Text → ObjectType

unfoldable pub policy_object : ObjectType → Text
policy_object (collab s) = codes "collab::" ++ s
policy_object (workspace s) = codes "workspace::" ++ s

unfoldable pub object_id : ObjectType → Text
object_id (collab s) = s
object_id (workspace s) = s

pub data Action : Type 0 where
  read write delete : Action

-- `Ord`
unfoldable pub cmp : Action → Action → Ordering
cmp read read = equal
cmp read _ = less
cmp _ read = greater
cmp write write = equal
cmp write delete = less
cmp delete write = greater
cmp delete delete = equal

unfoldable pub action_text : Action → Text
action_text read = codes "read"
action_text write = codes "write"
action_text delete = codes "delete"

-- `FromRedisValue`, from the text of the value; `none` is its type error.
unfoldable pub action_from_text : Text → Option Action
action_from_text s =
    if s == codes "read"
    then some read
    else if s == codes "write"
    then some write
    else if s == codes "delete"
    then some delete
    else none

pub data Method : Type 0 where
  get_method post put delete_method other_method : Method

unfoldable pub action_from_method : Method → Action
action_from_method post = write
action_from_method put = write
action_from_method delete_method = delete
action_from_method get_method = read
action_from_method other_method = read

unfoldable pub level_text : AccessLevel → Text
level_text read_only = codes "10"
level_text read_and_comment = codes "20"
level_text read_and_write = codes "30"
level_text full_access = codes "50"

unfoldable pub role_text : Role → Text
role_text owner = codes "1"
role_text member = codes "2"
role_text guest = codes "3"

pub data ActionType : Type 0 where
  role_type : Role → ActionType
  level_type : AccessLevel → ActionType

unfoldable pub action_type_text : ActionType → Text
unfolding level_text role_text
action_type_text (role_type role) = role_text role
action_type_text (level_type level) = level_text level

pub data ActionVariant : Type 0 where
  from_role : Role → ActionVariant
  from_access_level : AccessLevel → ActionVariant
  from_action : Action → ActionVariant

-- `ToACAction::to_action`
unfoldable pub to_action : ActionVariant → Text
unfolding level_text role_text action_text
to_action (from_role role) = role_text role
to_action (from_access_level level) = level_text level
to_action (from_action action) = action_text action

-- The texts of roles, levels and actions are read back as what they were written from.
pub texts_read_back :
    ((r : Role) → role_from_str (role_text r) ≡ r)
    × ((l : AccessLevel) → level_from_str (level_text l) ≡ l)
    × ((a : Action) → action_from_text (action_text a) ≡ some a)
unfolding role_from_str level_from_str role_text level_text action_text action_from_text parse_i32
    role_from_i32 level_from_i32
texts_read_back = (role_back, level_back, action_back)
  where
    role_back : (r : Role) → role_from_str (role_text r) ≡ r
    role_back owner = refl
    role_back member = refl
    role_back guest = refl

    level_back : (l : AccessLevel) → level_from_str (level_text l) ≡ l
    level_back read_only = refl
    level_back read_and_comment = refl
    level_back read_and_write = refl
    level_back full_access = refl

    action_back : (a : Action) → action_from_text (action_text a) ≡ some a
    action_back read = refl
    action_back write = refl
    action_back delete = refl

-- `Ord` of actions is a total preorder in which only equal actions compare equal.
pub action_cmp_lem : IsPreorder cmp × ((a b : Action) → cmp a b ≡ equal → a ≡ b)
unfolding cmp
action_cmp_lem = (
  record { swapped = λ a b. ground arith; transitive = λ a b c h k. ground arith },
  λ a b h. ground arith,
)
