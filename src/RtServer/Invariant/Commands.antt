-- ===== src/RtServer/Invariant/Commands.antt =====
-- The commands of a document's runner keep the invariant.
use flow_cloud.Base.{
  ℕ, ◌≡◌, not, some, List, [], ◌∷◌, Text, Eq, list_eq, nat_eq, arith, Option-cases, Bool-cases,
  Result, ok, err, inl, inr, if◌then◌else◌, if_split, ◌>>=◌,
}
use flow_cloud.Base.Map
use flow_cloud.Base.Map.{Holds-insert}
use flow_cloud.Entity.Payload.{CollabApi}
use flow_cloud.Entity.Client
use flow_cloud.Entity.Client.{ClientCollabMessage, client_init_sync}
use flow_cloud.RtServer.Group
use flow_cloud.RtServer.Group.{RtApi, CollabGroup, contains_user, subscribe}
use flow_cloud.RtServer.Group.Devices.{subscribe-IsOneEach}
use flow_cloud.RtServer.Group.Members.{
  contains_user-remove_user, contains_user-create_group, contains_user-subscribe,
  remove_user-AreOneEach, create_group-AreOneEach,
}
use flow_cloud.RtServer.State.{
  RealtimeServer, Effect, GroupCommand, handle_client_collab_message, encode_collab,
}
use flow_cloud.RtServer.Commands.{
  RealtimeError, Moment, Outcome, subscribe_group, create_group, broadcast_client_collab_message,
  resubscribe, handle_collab_message, run_command, add_editing,
}
use flow_cloud.RtServer.Invariant.{edits-add_editing, IsSound}

module _ {U : Type 0} ⦃user_eq : Eq U⦄ {c : CollabApi} (r : RtApi U c) where
  -- Taking a user out of a group.
  pub remove_user-IsSound :
      (s : RealtimeServer r) (key : Text) (user : U)
      → IsSound r s
      → IsSound r (record s { groups = Group.remove_user r s.groups key user })
  remove_user-IsSound s key user h = record {
    tracked = λ object_id v m.
        h.tracked object_id v
          (ground (arith, contains_user-remove_user r s.groups key user object_id v));
    one_each = remove_user-AreOneEach r s.groups key user h.one_each;
  }

  subscribe_group-IsSound :
      (s : RealtimeServer r) (user : U) (msg : ClientCollabMessage c)
      → IsSound r s
      → IsSound r (subscribe_group r s user msg)
  unfolding subscribe_group
  subscribe_group-IsSound s user msg h =
      elim (Option-cases (Map.get s.client_stream_by_user user)) [
        | inl e ↦ rw (subscribe_group, e) h
        | inr (stream, e) ↦ elim (Option-cases (Map.get s.groups (Client.object_id msg))) [
          | inl no_group ↦ rw (subscribe_group, e, no_group) h
          | inr (g, found) ↦ elim (Bool-cases (Group.group_contains_user r g user)) [
            | inl member ↦ rw (subscribe_group, e, found, member) h
            | inr outside ↦ rw (subscribe_group, e, found, outside) (subscribed g found)
          ]
        ]
      ]
    where
      subscribed :
          (g : CollabGroup r)
          → Map.get s.groups (Client.object_id msg) ≡ some g
          → IsSound r (record s {
            editing_collab_by_user =
                add_editing r s.editing_collab_by_user user
                  (record { object_id = Client.object_id msg; origin = Client.origin msg });
            groups =
                Map.insert s.groups (Client.object_id msg) (subscribe r g user (Client.origin msg));
          })
      subscribed g found = record {
        tracked = λ object_id v m. ground (
          arith,
          contains_user-subscribe r s.groups (Client.object_id msg) g user (Client.origin msg)
              object_id v (h.one_each (Client.object_id msg) g found) found,
          edits-add_editing r s.editing_collab_by_user user
              (record { object_id = Client.object_id msg; origin = Client.origin msg }) v object_id,
          h.tracked object_id v,
        );
        one_each =
            Holds-insert _ s.groups (Client.object_id msg) _
              (subscribe-IsOneEach r g user (Client.origin msg)
                (h.one_each (Client.object_id msg) g found))
              h.one_each;
      }

  abbrev IsSoundResult : Result (RealtimeServer r) RealtimeError → Type 0
  IsSoundResult (ok s) = IsSound r s
  IsSoundResult (err e) = Unit

  create_group-IsSound :
      (s : RealtimeServer r) (now : ℕ) (msg : ClientCollabMessage c)
      → IsSound r s
      → IsSoundResult (create_group r s now msg)
  unfolding create_group
  create_group-IsSound s now (client_init_sync d) h =
      elim (Option-cases (c.client_user_id d.origin)) [
        | inl e ↦ rw (create_group, e) tt
        | inr (uid, e) ↦
            rw (create_group, e)
              (record {
                tracked = λ object_id v m. h.tracked object_id v (
                    ground (
                      arith,
                      contains_user-create_group r s.groups now uid d.workspace_id d.object_id
                          d.collab_type object_id v,
                    ));
                one_each =
                    create_group-AreOneEach r s.groups now uid d.workspace_id d.object_id
                      d.collab_type h.one_each;
              })
      ]
  create_group-IsSound s now _ h = tt

  broadcast-IsSound :
      (s : RealtimeServer r) (m : Moment) (user : U) (object_id : Text)
      (msgs : List (ClientCollabMessage c))
      → IsSound r s
      → IsSound r (broadcast_client_collab_message r s m user object_id msgs).0
  unfolding broadcast_client_collab_message
  broadcast-IsSound s m user object_id msgs h =
      elim (Option-cases (Map.get s.client_stream_by_user user)) [
        | inl e ↦ rw (broadcast_client_collab_message, e) h
        | inr (stream, e) ↦ elim (Bool-cases m.has_receiver) [
          | inl sent ↦ rw (broadcast_client_collab_message, e, sent) h
          | inr lost ↦
              rw (broadcast_client_collab_message, e, lost)
                (record { tracked = h.tracked; one_each = h.one_each })
        ]
      ]

  resubscribe-IsSound :
      (s : RealtimeServer r) (user : U) (object_id : Text) (first : ClientCollabMessage c)
      → IsSound r s
      → IsSound r (resubscribe r s user object_id first)
  unfolding resubscribe
  resubscribe-IsSound s user object_id first h =
      let left = record s { groups = Group.remove_user r s.groups object_id user } in
      let h' =
        if_split (IsSound r) (Client.is_init_sync first) left s
          (λ _. remove_user-IsSound s object_id user h) (λ _. h) in
      let s' = if Client.is_init_sync first then left else s in
      if_split (IsSound r) (contains_user r s'.groups object_id user) s'
        (subscribe_group r s' user first) (λ _. h') (λ _. subscribe_group-IsSound s' user first h')

  abbrev IsSoundOutcome : Outcome r → Type 0
  IsSoundOutcome (ok done) = IsSound r done.0
  IsSoundOutcome (err e) = Unit

  begin-IsSound :
      (made : Result (RealtimeServer r) RealtimeError) (m : Moment) (user : U) (object_id : Text)
      (first : ClientCollabMessage c) (more : List (ClientCollabMessage c))
      → IsSoundResult made
      → IsSoundOutcome (
          made >>= λ s'. ok (
            broadcast_client_collab_message r
              (subscribe_group r s' user first)
              m
              user
              object_id
              (first ∷ more)))
  begin-IsSound (ok s') m user object_id first more h =
      broadcast-IsSound (subscribe_group r s' user first) m user object_id (first ∷ more)
        (subscribe_group-IsSound s' user first h)
  begin-IsSound (err e) m user object_id first more h = tt

  handle_collab_message-IsSound :
      (s : RealtimeServer r) (m : Moment) (user : U) (object_id : Text)
      (msgs : List (ClientCollabMessage c))
      → IsSound r s
      → IsSoundOutcome (handle_collab_message r s m user object_id msgs)
  unfolding handle_collab_message
  handle_collab_message-IsSound s m user object_id [] h = h
  handle_collab_message-IsSound s m user object_id (first ∷ more) h =
      if_split IsSoundOutcome (not (Map.contains_key s.client_stream_by_user user)) _ _ (λ _. h)
        (λ _.
          if_split IsSoundOutcome (Group.contains_group r s.groups object_id) _ _
            (λ _.
              broadcast-IsSound (resubscribe r s user object_id first) m user object_id
                (first ∷ more) (resubscribe-IsSound s user object_id first h))
            (λ _.
              if_split IsSoundOutcome (Client.is_init_sync first) _ _
                (λ _.
                  begin-IsSound (create_group r s m.now first) m user object_id first more
                    (create_group-IsSound s m.now first h))
                (λ _. h)))

  -- A command that a runner has received.
  pub run_command-IsSound :
      (s : RealtimeServer r) (m : Moment) (command : GroupCommand r)
      → IsSound r s
      → IsSound r (run_command r s m command).0
  unfolding run_command
  run_command-IsSound s m (handle_client_collab_message user object_id msgs) h =
      go (handle_collab_message r s m user object_id msgs)
        (handle_collab_message-IsSound s m user object_id msgs h)
    where
      go :
          (o : Outcome r)
          → IsSoundOutcome o
          → IsSound r
              (elim o as (λ _. RealtimeServer r × List (Effect r)) [
                | ok done ↦ done
                | err e ↦ (s, [])
              ]).0
      go (ok done) k = k
      go (err e) k = h
  run_command-IsSound s m (encode_collab object_id) h =
      elim (Option-cases (Map.get s.groups object_id)) [
        | inl e ↦ rw (run_command, e) h
        | inr (g, e) ↦ rw (run_command, e) h
      ]
