-- ===== src/RtServer/Invariant/Leaving.antt =====
-- Users who leave, and messages that are handed to the runners, keep the invariant.
use flow_cloud.Base.{
  ◌≡◌, refl, sym, subst, true, not, ◌&&◌, List, [], ◌∷◌, Text, Eq, ◌==◌, list_eq, nat_eq, arith,
  any, Option-cases, inl, inr,
}
use flow_cloud.Base.Int.{ℤ}
use flow_cloud.Base.Map
use flow_cloud.Base.Map.{get-insert, get-remove, Holds-insert}
use flow_cloud.Entity.Payload.{CollabApi}
use flow_cloud.Entity.Client.{ClientCollabMessage}
use flow_cloud.Entity.Realtime.{MessageByObjectId}
use flow_cloud.RtServer.Group
use flow_cloud.RtServer.Group.{RtApi, CollabGroup, Groups, contains_user, group_contains_user}
use flow_cloud.RtServer.Group.Members.{
  AreOneEach, contains_user-remove_user, remove_user-AreOneEach,
}
use flow_cloud.RtServer.State.{UserDevice, device_eq, Editing, RealtimeServer}
use flow_cloud.RtServer.Handlers.{
  remove_from_groups, remove_user, enqueue, get_sender, process_client_collab_message, process_all,
  device_of, process_stream,
}
use flow_cloud.RtServer.Invariant.{is_about, edits, IsSound}

module _ {U : Type 0} ⦃user_eq : Eq U⦄ {c : CollabApi} (r : RtApi U c) where
  pub contains_user-remove_from_groups :
      (groups : Groups r) (user : U) (set : List (Editing c)) (object_id : Text) (v : U)
      → contains_user r (remove_from_groups r groups user set) object_id v
        ≡ contains_user r groups object_id v && not (user == v && any (is_about object_id) set)
  unfolding remove_from_groups
  contains_user-remove_from_groups groups user [] object_id v = ground arith
  contains_user-remove_from_groups groups user (e ∷ set) object_id v = ground (
    arith,
    contains_user-remove_from_groups (Group.remove_user r groups e.object_id user) user set
        object_id v,
    contains_user-remove_user r groups e.object_id user object_id v,
  )

  remove_from_groups-AreOneEach :
      (groups : Groups r) (user : U) (set : List (Editing c))
      → AreOneEach r groups
      → AreOneEach r (remove_from_groups r groups user set)
  unfolding remove_from_groups
  remove_from_groups-AreOneEach groups user [] h = h
  remove_from_groups-AreOneEach groups user (e ∷ set) h =
      remove_from_groups-AreOneEach (Group.remove_user r groups e.object_id user) user set
        (remove_user-AreOneEach r groups e.object_id user h)

  -- A user who leaves is in no group any more; for the others nothing changes.
  pub contains_user-leaving :
      (s : RealtimeServer r) (user : U) (object_id : Text) (v : U)
      → IsSound r s
      → contains_user r (remove_user r s user).groups object_id v
        ≡ contains_user r s.groups object_id v && not (user == v)
  unfolding remove_user
  contains_user-leaving s user object_id v h =
      elim (Option-cases (Map.get s.editing_collab_by_user user)) [
        | inl e ↦
            rw (remove_user, e) (ground (arith, h.tracked object_id v, user_eq.beq_iff user v))
        | inr (set, e) ↦
            rw (remove_user, e)
              (ground (
                arith,
                contains_user-remove_from_groups s.groups user set object_id v,
                h.tracked object_id v,
                user_eq.beq_iff user v,
              ))
      ]

  pub remove_user-IsSound :
      (s : RealtimeServer r) (user : U) → IsSound r s → IsSound r (remove_user r s user)
  unfolding remove_user
  remove_user-IsSound s user h = elim (Option-cases (Map.get s.editing_collab_by_user user)) [
    | inl e ↦ rw (remove_user, e) h
    | inr (set, e) ↦
        rw (remove_user, e)
          (record {
            tracked = λ object_id v m. ground (
              arith,
              contains_user-remove_from_groups s.groups user set object_id v,
              h.tracked object_id v,
              user_eq.beq_iff user v,
              get-remove s.editing_collab_by_user user v,
            );
            one_each = remove_from_groups-AreOneEach s.groups user set h.one_each;
          })
  ]

  -- What leaves the groups and what is edited alone keeps the invariant.
  abbrev pub SameGroups : RealtimeServer r → RealtimeServer r → Type 0
  SameGroups s s' = (s'.groups ≡ s.groups) × (s'.editing_collab_by_user ≡ s.editing_collab_by_user)

  pub SameGroups-IsSound : (s s' : RealtimeServer r) → SameGroups s s' → IsSound r s → IsSound r s'
  SameGroups-IsSound s s' e h = record {
    tracked = λ object_id v m.
        subst (λ m'. edits r m' v object_id ≡ true) (sym e.1)
          (h.tracked object_id v (subst (λ g. contains_user r g object_id v ≡ true) e.0 m));
    one_each = subst (AreOneEach r) (sym e.0) h.one_each;
  }

  process-SameGroups :
      (s : RealtimeServer r) (user : U) (object_id : Text) (msgs : List (ClientCollabMessage c))
      → SameGroups s (process_client_collab_message r s user object_id msgs)
  unfolding process_client_collab_message get_sender enqueue
  process-SameGroups s user object_id msgs =
      elim (Option-cases (Map.get s.group_sender_by_object_id object_id)) [
        | inl e ↦ rw (process_client_collab_message, get_sender, e) (refl, refl)
        | inr (runner, e) ↦ rw (process_client_collab_message, get_sender, e) (refl, refl)
      ]

  pub process-IsSound :
      (s : RealtimeServer r) (user : U) (object_id : Text) (msgs : List (ClientCollabMessage c))
      → IsSound r s
      → IsSound r (process_client_collab_message r s user object_id msgs)
  process-IsSound s user object_id msgs =
      SameGroups-IsSound s _ (process-SameGroups s user object_id msgs)

  pub process_all-IsSound :
      (s : RealtimeServer r) (user : U) (m : MessageByObjectId c)
      → IsSound r s
      → IsSound r (process_all r s user m)
  unfolding process_all
  process_all-IsSound s user [] h = h
  process_all-IsSound s user ((object_id, msgs) ∷ m) h =
      process_all-IsSound (process_client_collab_message r s user object_id msgs) user m
        (process-IsSound s user object_id msgs h)

  pub process_stream-IsSound :
      (s : RealtimeServer r) (uid : ℤ) (device : Text) (m : MessageByObjectId c)
      → IsSound r s
      → IsSound r (process_stream r s uid device m)
  unfolding process_stream
  process_stream-IsSound s uid device [] h = h
  process_stream-IsSound s uid device ((object_id, msgs) ∷ m) h =
      let d : UserDevice = record { device_id = device_of r device msgs; uid = uid } in
      elim (Option-cases (Map.get s.user_by_device d)) [
        | inl e ↦
            rw (process_stream, e) (process_stream-IsSound s uid (device_of r device msgs) m h)
        | inr (user, e) ↦
            rw (process_stream, e)
              (process_stream-IsSound (process_client_collab_message r s user object_id msgs) uid
                (device_of r device msgs) m (process-IsSound s user object_id msgs h))
      ]
