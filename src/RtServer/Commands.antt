-- ===== src/RtServer/Commands.antt =====
-- lib/realtime/src/server/collaborate/group_cmd.rs and group_sub.rs: what the runner of a document does
-- with a command.
use flow_cloud.Base.{
  ℕ, Bool, not, none, some, List, [], ◌∷◌, Text, Result, ok, err, ◌>>=◌, list_eq, nat_eq,
  if◌then◌else◌, Eq,
}
use flow_cloud.Base.Map
use flow_cloud.Base.Map.{Map}
use flow_cloud.Entity.Payload.{CollabApi}
use flow_cloud.Entity.Client
use flow_cloud.Entity.Client.{ClientCollabMessage, client_init_sync}
use flow_cloud.Entity.Realtime.{client_collab_v2}
use flow_cloud.RtServer.Group
use flow_cloud.RtServer.Group.{RtApi, Groups, CollabGroup}
use flow_cloud.RtServer.State.{
  Editing, insert_editing, RealtimeServer, Effect, stream_send, answer, GroupCommand,
  handle_client_collab_message, encode_collab,
}

pub data RealtimeError : Type 0 where
  expect_init_sync : RealtimeError

-- Whether the stream of the user has a receiver, and the time in seconds.
pub record Moment : Type 0 where
  pub has_receiver : Bool
  pub now : ℕ

module _ {U : Type 0} ⦃user_eq : Eq U⦄ {c : CollabApi} (r : RtApi U c) where
  abbrev pub Outcome : Type 0
  Outcome = Result (RealtimeServer r × List (Effect r)) RealtimeError

  abbrev pub add_editing : Map U (List (Editing c)) → U → Editing c → Map U (List (Editing c))
  add_editing m user e =
      Map.insert m user (elim (Map.get m user) [ none ↦ e ∷ [] | some set ↦ insert_editing set e ])

  -- `SubscribeGroup::run`.
  unfoldable pub subscribe_group : RealtimeServer r → U → ClientCollabMessage c → RealtimeServer r
  subscribe_group s user msg = elim (Map.get s.client_stream_by_user user) [
    | none ↦ s
    | some stream ↦ elim (Map.get s.groups (Client.object_id msg)) [
      | none ↦ s
      | some g ↦ if Group.group_contains_user r g user then s else record s {
        editing_collab_by_user =
            add_editing s.editing_collab_by_user user
              (record { object_id = Client.object_id msg; origin = Client.origin msg });
        groups =
            Map.insert s.groups (Client.object_id msg)
              (Group.subscribe r g user (Client.origin msg));
      }
    ]
  ]

  unfoldable pub create_group :
      RealtimeServer r → ℕ → ClientCollabMessage c → Result (RealtimeServer r) RealtimeError
  create_group s now (client_init_sync data_) = elim (c.client_user_id data_.origin) [
    | none ↦ err expect_init_sync
    | some uid ↦ ok (record s {
      groups =
          Group.create_group r s.groups now uid data_.workspace_id data_.object_id
            data_.collab_type;
    })
  ]
  create_group s now _ = err expect_init_sync

  unfoldable pub broadcast_client_collab_message :
      RealtimeServer r
      → Moment
      → U
      → Text
      → List (ClientCollabMessage c)
      → RealtimeServer r × List (Effect r)
  broadcast_client_collab_message s m user object_id msgs =
      elim (Map.get s.client_stream_by_user user) [
        | none ↦ (s, [])
        | some stream ↦
            if m.has_receiver
            then (s, stream_send user (client_collab_v2 ((object_id, msgs) ∷ [])) ∷ [])
            else (record s { client_stream_by_user = Map.remove s.client_stream_by_user user }, [])
      ]

  -- The user is taken out of the group, if it begins anew.
  unfoldable pub resubscribe :
      RealtimeServer r → U → Text → ClientCollabMessage c → RealtimeServer r
  resubscribe s user object_id first =
      let s' =
        if Client.is_init_sync first
        then record s { groups = Group.remove_user r s.groups object_id user }
        else s in
      if Group.contains_user r s'.groups object_id user then s' else subscribe_group s' user first

  unfoldable pub handle_collab_message :
      RealtimeServer r → Moment → U → Text → List (ClientCollabMessage c) → Outcome
  handle_collab_message s m user object_id [] = ok (s, [])
  handle_collab_message s m user object_id (first ∷ more) =
      if not (Map.contains_key s.client_stream_by_user user)
      then ok (s, [])
      else if Group.contains_group r s.groups object_id
      then ok (
          broadcast_client_collab_message (resubscribe s user object_id first) m user object_id
            (first ∷ more))
      else if Client.is_init_sync first
      then (do
        s' ← create_group s m.now first
        ok (
            broadcast_client_collab_message (subscribe_group s' user first) m user object_id
              (first ∷ more)))
      else ok (s, [])

  -- An error is logged.
  unfoldable pub run_command :
      RealtimeServer r → Moment → GroupCommand r → RealtimeServer r × List (Effect r)
  run_command s m (handle_client_collab_message user object_id msgs) =
      elim (handle_collab_message s m user object_id msgs) [ ok done ↦ done | err e ↦ (s, []) ]
  run_command s m (encode_collab object_id) = elim (Map.get s.groups object_id) [
    | none ↦ (s, answer none ∷ [])
    | some g ↦ (s, answer (some (r.encode_collab_v1 g.collab)) ∷ [])
  ]
