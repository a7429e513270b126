-- ===== src/RtServer/Group/Members.antt =====
-- Who is in which group after an operation of lib/realtime/src/server/collaborate/all_group.rs.
use flow_cloud.Base.{
  ℕ, ◌≡◌, true, false, not, ◌&&◌, ◌||◌, some, List, [], ◌∷◌, Text, Eq, ◌==◌, list_eq, nat_eq, arith,
  list_beq_iff, Option-cases, inl, inr, if◌then◌else◌, contains,
}
use flow_cloud.Base.Int.{ℤ}
use flow_cloud.Base.Map
use flow_cloud.Base.Map.{get-insert, get-remove, Holds, Holds-insert, Holds-remove}
use flow_cloud.Entity.Payload.{CollabApi}
use flow_cloud.RtServer.Group.{
  RtApi, CollabGroup, Groups, new_group, group_contains_user, group_remove_user, subscribe,
  contains_user, remove_user, create_group, remove_groups,
}
use flow_cloud.RtServer.Group.Devices.{
  IsOneEach, new_group-IsOneEach, group_remove_user-IsOneEach, subscribe-contains,
}

module _ {U : Type 0} ⦃user_eq : Eq U⦄ {c : CollabApi} (r : RtApi U c) where
  pub contains_user-insert :
      (groups : Groups r) (key : Text) (g : CollabGroup r) (object_id : Text) (v : U)
      → contains_user r (Map.insert groups key g) object_id v ≡ (
          if key == object_id
          then group_contains_user r g v
          else contains_user r groups object_id v)
  unfolding contains_user
  contains_user-insert groups key g object_id v = ground (arith, get-insert groups key g object_id)

  -- A group with the same subscribers in place of one.
  pub contains_user-replace :
      (groups : Groups r) (key : Text) (g g' : CollabGroup r) (object_id : Text) (v : U)
      → Map.get groups key ≡ some g
      → group_contains_user r g' v ≡ group_contains_user r g v
      → contains_user r (Map.insert groups key g') object_id v ≡ contains_user r groups object_id v
  unfolding contains_user
  contains_user-replace groups key g g' object_id v e h =
      ground (arith, get-insert groups key g' object_id, list_beq_iff key object_id)

  pub contains_user-remove_user :
      (groups : Groups r) (key : Text) (user : U) (object_id : Text) (v : U)
      → contains_user r (remove_user r groups key user) object_id v
        ≡ contains_user r groups object_id v && not (key == object_id && user == v)
  unfolding remove_user contains_user
  contains_user-remove_user groups key user object_id v = elim (Option-cases (Map.get groups key)) [
    | inl e ↦ rw (remove_user, e) (ground (arith, list_beq_iff key object_id))
    | inr (g, e) ↦
        rw (remove_user, e)
          (unfold group_remove_user group_contains_user in
            ground (
              arith,
              get-insert groups key (group_remove_user r g user) object_id,
              get-remove g.subscribers user v,
              list_beq_iff key object_id,
            ))
  ]

  pub contains_user-create_group :
      (groups : Groups r) (now : ℕ) (uid : ℤ) (workspace_id key : Text) (t : c.CollabType)
      (object_id : Text) (v : U)
      → contains_user r (create_group r groups now uid workspace_id key t) object_id v
        ≡ (if key == object_id then false else contains_user r groups object_id v)
  unfolding create_group new_group group_contains_user
  contains_user-create_group groups now uid workspace_id key t object_id v =
      contains_user-insert groups key
        (new_group r now workspace_id key t (r.open_collab uid workspace_id key t)) object_id v

  pub contains_user-subscribe :
      (groups : Groups r) (key : Text) (g : CollabGroup r) (user : U) (origin : c.Origin)
      (object_id : Text) (v : U)
      → IsOneEach r g
      → Map.get groups key ≡ some g
      → contains_user r (Map.insert groups key (subscribe r g user origin)) object_id v ≡ true
      → ((key == object_id && user == v) || contains_user r groups object_id v) ≡ true
  unfolding contains_user
  contains_user-subscribe groups key g user origin object_id v h e m = ground (
    arith,
    get-insert groups key (subscribe r g user origin) object_id,
    subscribe-contains r g user origin v h,
    list_beq_iff key object_id,
  )

  contains_user-remove :
      (groups : Groups r) (key object_id : Text) (v : U)
      → contains_user r (Map.remove groups key) object_id v
        ≡ contains_user r groups object_id v && not (key == object_id)
  unfolding contains_user
  contains_user-remove groups key object_id v = ground (arith, get-remove groups key object_id)

  pub contains_user-remove_groups :
      (groups : Groups r) (ids : List Text) (object_id : Text) (v : U)
      → contains_user r (remove_groups r groups ids).0 object_id v
        ≡ contains_user r groups object_id v && not (contains ids object_id)
  unfolding remove_groups
  contains_user-remove_groups groups [] object_id v = ground arith
  contains_user-remove_groups groups (id ∷ ids) object_id v = ground (
    arith,
    contains_user-remove_groups (Map.remove groups id) ids object_id v,
    contains_user-remove groups id object_id v,
  )

  abbrev pub AreOneEach : Groups r → Type 0
  AreOneEach groups = Holds (λ object_id g. IsOneEach r g) groups

  pub remove_user-AreOneEach :
      (groups : Groups r) (key : Text) (user : U)
      → AreOneEach groups
      → AreOneEach (remove_user r groups key user)
  unfolding remove_user
  remove_user-AreOneEach groups key user h = elim (Option-cases (Map.get groups key)) [
    | inl e ↦ rw (remove_user, e) h
    | inr (g, e) ↦
        rw (remove_user, e)
          (Holds-insert _ groups key (group_remove_user r g user)
            (group_remove_user-IsOneEach r g user (h key g e)) h)
  ]

  pub create_group-AreOneEach :
      (groups : Groups r) (now : ℕ) (uid : ℤ) (workspace_id key : Text) (t : c.CollabType)
      → AreOneEach groups
      → AreOneEach (create_group r groups now uid workspace_id key t)
  unfolding create_group
  create_group-AreOneEach groups now uid workspace_id key t h =
      Holds-insert _ groups key _ (new_group-IsOneEach r now workspace_id key t _) h

  pub remove_groups-AreOneEach :
      (groups : Groups r) (ids : List Text)
      → AreOneEach groups
      → AreOneEach (remove_groups r groups ids).0
  unfolding remove_groups
  remove_groups-AreOneEach groups [] h = h
  remove_groups-AreOneEach groups (id ∷ ids) h =
      remove_groups-AreOneEach (Map.remove groups id) ids (Holds-remove _ groups id h)
