-- ===== src/Dto.antt =====
-- lib/database-entity/src/dto.rs: roles, access levels and invitation states.
use flow_cloud.Base.{ℕ, Bool, true, false, Option, none, some, Text, nat_beq, if◌then◌else◌}
use flow_cloud.Base.Int.{ℤ, pos, negsuc}
use flow_cloud.Base.Decimal.{parse_i32}

pub data Role : Type 0 where
  owner member guest : Role

unfoldable pub can_create_collab : Role → Bool
can_create_collab owner = true
can_create_collab member = true
can_create_collab guest = false

-- `as i32`
unfoldable pub role_to_i32 : Role → ℤ
role_to_i32 owner = pos 1
role_to_i32 member = pos 2
role_to_i32 guest = pos 3

role_from_ℕ : ℕ → Role
role_from_ℕ n =
    if nat_beq n 1
    then owner
    else if nat_beq n 2
    then member
    else if nat_beq n 3
    then guest
    else guest

unfoldable pub role_from_i32 : ℤ → Role
unfolding role_from_ℕ
role_from_i32 (pos n) = role_from_ℕ n
role_from_i32 (negsuc n) = guest

unfoldable pub role_from_str : Text → Role
role_from_str value = elim (parse_i32 value) [ none ↦ guest | some n ↦ role_from_i32 n ]

pub data AccessLevel : Type 0 where
  read_only read_and_comment read_and_write full_access : AccessLevel

unfoldable pub can_write : AccessLevel → Bool
can_write read_only = false
can_write read_and_comment = false
can_write read_and_write = true
can_write full_access = true

unfoldable pub can_delete : AccessLevel → Bool
can_delete read_only = false
can_delete read_and_comment = false
can_delete read_and_write = false
can_delete full_access = true

unfoldable pub level_from_role : Role → AccessLevel
level_from_role owner = full_access
level_from_role member = read_and_write
level_from_role guest = read_only

unfoldable pub level_to_i32 : AccessLevel → ℤ
level_to_i32 read_only = pos 10
level_to_i32 read_and_comment = pos 20
level_to_i32 read_and_write = pos 30
level_to_i32 full_access = pos 50

level_from_ℕ : ℕ → AccessLevel
level_from_ℕ n =
    if nat_beq n 10
    then read_only
    else if nat_beq n 20
    then read_and_comment
    else if nat_beq n 30
    then read_and_write
    else if nat_beq n 50
    then full_access
    else read_only

unfoldable pub level_from_i32 : ℤ → AccessLevel
unfolding level_from_ℕ
level_from_i32 (pos n) = level_from_ℕ n
level_from_i32 (negsuc n) = read_only

unfoldable pub level_from_str : Text → AccessLevel
level_from_str value = elim (parse_i32 value) [ none ↦ read_only | some n ↦ level_from_i32 n ]

pub record WorkspaceMember : Type 0 where
  pub name : Text
  pub email : Text
  pub role : Role
  pub avatar_url : Option Text

pub data InvitationStatus : Type 0 where
  pending accepted rejected : InvitationStatus

status_from_ℕ : ℕ → InvitationStatus
status_from_ℕ n =
    if nat_beq n 0
    then pending
    else if nat_beq n 1
    then accepted
    else if nat_beq n 2
    then rejected
    else pending

unfoldable pub status_from_i16 : ℤ → InvitationStatus
unfolding status_from_ℕ
status_from_i16 (pos n) = status_from_ℕ n
status_from_i16 (negsuc n) = pending
