-- ===== src/Access/Cache.antt =====
-- src/biz/casbin/collab_ac.rs: `RealtimeCollabAccessControlImpl`, which remembers permitted actions.
pub mod Staleness
use flow_cloud.Base.{
  Bool, true, false, not, Option, none, some, List, [], ◌∷◌, ◌++◌, Text, Result, ok, err,
  if◌then◌else◌, list_eq, nat_eq, codes,
}
use flow_cloud.Base.Int.{ℤ}
use flow_cloud.Base.Decimal.{print_ℤ}
use flow_cloud.Base.Map.{Map, get, insert, remove}
use flow_cloud.Base.Heap.{Ordering, less, equal, greater}
use flow_cloud.Access.Casbin.{Casbin}
use flow_cloud.Access.Action.{Action, read, write, cmp, collab, from_action}
use flow_cloud.Access.Enforcer.{AppError}
use flow_cloud.Access.Control.{
  AccessControl, AccessControlChange, update_change, remove_change, enforce,
}

-- The two are shared: `access_control` with the other clients, and `action_by_oid` with the task that
-- receives the changes.
pub record RealtimeAccessControl (c : Casbin) : Type 0 where
  pub access_control : AccessControl c
  pub action_by_oid : Map Text Action

unfoldable pub cache_key : ℤ → Text → Text
cache_key uid oid = print_ℤ uid ++ codes ":" ++ oid

-- `*action >= required_action`
abbrev pub at_least : Action → Action → Bool
at_least a b = elim (cmp a b) [ less ↦ false | _ ↦ true ]

-- What `recv` of the broadcast channel returns: a change, or an error when the receiver has lagged
-- behind by more than the channel holds, or when the sender is gone.
pub data Received : Type 0 where
  change : AccessControlChange → Received
  lagged closed : Received

unfoldable pub handle_change : Map Text Action → AccessControlChange → Map Text Action
handle_change m (update_change uid oid) = remove m (cache_key uid oid)
handle_change m (remove_change uid oid) = remove m (cache_key uid oid)

-- The task of `new`, while its owner lives: it ends at the first error.
unfoldable pub receive_loop : Map Text Action → List Received → Map Text Action
receive_loop m [] = m
receive_loop m (change x ∷ more) = receive_loop (handle_change m x) more
receive_loop m (lagged ∷ more) = m
receive_loop m (closed ∷ more) = m

module _ {c : Casbin} where
  unfoldable pub new : AccessControl c → RealtimeAccessControl c
  new ac = record { access_control = ac; action_by_oid = [] }

  unfoldable pub remember :
      Map Text Action
      → Text
      → Action
      → AccessControl c × Result Bool AppError
      → RealtimeAccessControl c × Result Bool AppError
  remember m key action (ac, ok true) =
      (record { access_control = ac; action_by_oid = insert m key action }, ok true)
  remember m key action (ac, r) = (record { access_control = ac; action_by_oid = m }, r)

  unfoldable pub lookup_or_enforce :
      Option Action
      → RealtimeAccessControl c
      → Text
      → ℤ
      → Text
      → Action
      → RealtimeAccessControl c × Result Bool AppError
  lookup_or_enforce (some action) s workspace_id uid oid required =
      (s, ok (at_least action required))
  lookup_or_enforce none s workspace_id uid oid required =
      remember s.action_by_oid (cache_key uid oid) required
        (enforce true s.access_control workspace_id uid (collab oid) (from_action required))

  unfoldable pub can_perform_action :
      Bool
      → RealtimeAccessControl c
      → Text
      → ℤ
      → Text
      → Action
      → RealtimeAccessControl c × Result Bool AppError
  unfolding lookup_or_enforce remember
  can_perform_action enable s workspace_id uid oid required =
      if enable
      then lookup_or_enforce (get s.action_by_oid (cache_key uid oid)) s workspace_id uid oid
          required
      else (s, ok true)

  unfoldable pub can_write_collab :
      Bool
      → RealtimeAccessControl c
      → Text
      → ℤ
      → Text
      → RealtimeAccessControl c × Result Bool AppError
  can_write_collab enable s workspace_id uid oid =
      can_perform_action enable s workspace_id uid oid write

  unfoldable pub can_read_collab :
      Bool
      → RealtimeAccessControl c
      → Text
      → ℤ
      → Text
      → RealtimeAccessControl c × Result Bool AppError
  can_read_collab enable s workspace_id uid oid =
      can_perform_action enable s workspace_id uid oid read
