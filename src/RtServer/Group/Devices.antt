-- ===== src/RtServer/Group/Devices.antt =====
-- A device has one subscriber in a group: lib/realtime/src/server/collaborate/group.rs.
use flow_cloud.Base.{
  ℕ, ◌≡◌, true, false, none, some, Text, Eq, ◌==◌, list_eq, nat_eq, arith, list_beq_iff,
  Option-cases, inl, inr, if◌then◌else◌,
}
use flow_cloud.Base.Map
use flow_cloud.Base.Map.{get-insert, get-remove}
use flow_cloud.Entity.Payload.{CollabApi}
use flow_cloud.RtServer.Group.{
  RtApi, CollabGroup, user_device, new_group, group_contains_user, group_remove_user,
  remove_old_user, subscribe, subscription,
}

module _ {U : Type 0} ⦃user_eq : Eq U⦄ {c : CollabApi} (r : RtApi U c) where
  -- Every subscriber is the one that the group remembers for its device, and the group remembers
  -- users for their own devices.
  pub record IsOneEach (g : CollabGroup r) : Type 0 where
    pub remembered :
        (user : U)
        → group_contains_user r g user ≡ true
        → Map.get g.user_by_user_device (user_device r user) ≡ some user
    pub own_device :
        (device : Text) (user : U)
        → Map.get g.user_by_user_device device ≡ some user
        → user_device r user ≡ device

  pub new_group-IsOneEach :
      (now : ℕ) (workspace_id object_id : Text) (t : c.CollabType) (doc : r.Doc)
      → IsOneEach (new_group r now workspace_id object_id t doc)
  unfolding new_group group_contains_user
  new_group-IsOneEach now workspace_id object_id t doc = record {
    remembered = λ user h. cc;
    own_device = λ device user h. cc;
  }

  pub group_remove_user-IsOneEach :
      (g : CollabGroup r) (old : U) → IsOneEach g → IsOneEach (group_remove_user r g old)
  unfolding group_remove_user group_contains_user
  group_remove_user-IsOneEach g old h = record {
    remembered = λ user m. h.remembered user (ground (arith, get-remove g.subscribers old user));
    own_device = h.own_device;
  }

  -- Once the old user of a device is taken out, only users of other devices are left.
  remove_old_user-contains :
      (g : CollabGroup r) (device : Text) (v : U)
      → IsOneEach g
      → group_contains_user r (remove_old_user r g device) v
        ≡ (if device == user_device r v then false else group_contains_user r g v)
  unfolding remove_old_user group_contains_user
  remove_old_user-contains g device v h =
      elim (Option-cases (Map.get g.user_by_user_device device)) [
        | inl e ↦
            rw (remove_old_user, e)
              (ground (arith, h.remembered v, list_beq_iff device (user_device r v)))
        | inr (old, e) ↦
            rw (remove_old_user, e)
              (ground (
                arith,
                h.remembered v,
                h.own_device device old e,
                get-remove g.subscribers old v,
                user_eq.beq_iff old v,
                list_beq_iff device (user_device r v),
              ))
      ]

  -- Whom a group contains after a subscription: the new subscriber, and those of other devices that it
  -- has contained before.
  pub subscribe-contains :
      (g : CollabGroup r) (user : U) (origin : c.Origin) (v : U)
      → IsOneEach g
      → group_contains_user r (subscribe r g user origin) v ≡ (
          if user == v
          then true
          else if user_device r user == user_device r v
          then false
          else group_contains_user r g v)
  unfolding subscribe group_contains_user
  subscribe-contains g user origin v h =
      let g' = remove_old_user r g (user_device r user) in
      ground (
        arith,
        get-insert g'.subscribers user (subscription origin) v,
        remove_old_user-contains g (user_device r user) v h,
      )

  -- The device itself is forgotten, or was not known; the other devices keep their users.
  remove_old_user-device :
      (g : CollabGroup r) (device other : Text)
      → Map.get (remove_old_user r g device).user_by_user_device other
        ≡ (if device == other then none else Map.get g.user_by_user_device other)
  unfolding remove_old_user
  remove_old_user-device g device other =
      elim (Option-cases (Map.get g.user_by_user_device device)) [
        | inl e ↦ rw (remove_old_user, e) (ground (arith, list_beq_iff device other))
        | inr (old, e) ↦
            rw (remove_old_user, e) (ground (arith, get-remove g.user_by_user_device device other))
      ]

  pub subscribe-IsOneEach :
      (g : CollabGroup r) (user : U) (origin : c.Origin)
      → IsOneEach g
      → IsOneEach (subscribe r g user origin)
  unfolding subscribe
  subscribe-IsOneEach g user origin h =
      let device = user_device r user in
      let g' = remove_old_user r g device in
      record {
        remembered = λ v m. ground (
          arith,
          get-insert g'.user_by_user_device device user (user_device r v),
          list_beq_iff device (user_device r v),
          user_eq.beq_iff user v,
          remove_old_user-device g device (user_device r v),
          subscribe-contains g user origin v h,
          h.remembered v,
        );
        own_device = λ d v m. ground (
          arith,
          get-insert g'.user_by_user_device device user d,
          list_beq_iff device d,
          remove_old_user-device g device d,
          h.own_device d v,
        );
      }
