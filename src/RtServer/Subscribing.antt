-- ===== src/RtServer/Subscribing.antt =====
-- What lib/realtime/src/server/collaborate/group_cmd.rs does with the messages of a client.
pub mod Sync
use flow_cloud.Base.{
  ℕ, ◌≡◌, refl, sym, Bool, true, false, not, ◌&&◌, none, some, List, [], ◌∷◌, Text, Eq, ◌==◌,
  list_eq, nat_eq, arith, Option, Option-cases, Bool-cases, inl, inr, Result, ok, err,
  if◌then◌else◌, list_beq_iff, beq_refl, ap, ◌∙◌,
}
use flow_cloud.Base.Int.{ℤ}
use flow_cloud.Base.Map
use flow_cloud.Base.Map.{get-insert, get-remove}
use flow_cloud.Entity.Payload.{CollabApi, InitSync}
use flow_cloud.Entity.Client
use flow_cloud.Entity.Client.{ClientCollabMessage, client_init_sync}
use flow_cloud.Entity.Realtime.{client_collab_v2}
use flow_cloud.RtServer.Group
use flow_cloud.RtServer.Group.{RtApi, CollabGroup, contains_user, subscribe, subscription}
use flow_cloud.RtServer.Group.Members.{contains_user-remove_user}
use flow_cloud.RtServer.State.{RealtimeServer, Effect, stream_send, CollabClientStream}
use flow_cloud.RtServer.Commands.{
  RealtimeError, expect_init_sync, Moment, Outcome, subscribe_group, create_group,
  broadcast_client_collab_message, resubscribe, handle_collab_message,
}

module _ {U : Type 0} ⦃user_eq : Eq U⦄ {c : CollabApi} (r : RtApi U c) where
  subscribe-subscribers :
      (g : CollabGroup r) (user : U) (origin : c.Origin)
      → Map.get (subscribe r g user origin).subscribers user ≡ some (subscription origin)
  unfolding subscribe
  subscribe-subscribers g user origin = ground (
    arith,
    user_eq.beq_iff user user,
    get-insert (Group.remove_old_user r g (Group.user_device r user)).subscribers user
        (subscription origin) user,
  )

  -- How a user is subscribed to a document, if at all.
  abbrev pub subscription_of : RealtimeServer r → Text → U → Option (Group.Subscription c)
  subscription_of s object_id user = elim (Map.get s.groups object_id) [
    | none ↦ none
    | some g ↦ Map.get g.subscribers user
  ]

  absent-outside :
      (g : CollabGroup r) (user : U)
      → Map.get g.subscribers user ≡ none
      → Group.group_contains_user r g user ≡ false
  unfolding Group.group_contains_user
  absent-outside g user h = ground arith

  -- A user without a subscription gets one with the origin of the message.
  pub subscribe_group-subscribes :
      (s : RealtimeServer r) (user : U) (msg : ClientCollabMessage c)
      (stream : CollabClientStream r) (g : CollabGroup r)
      → Map.get s.client_stream_by_user user ≡ some stream
      → Map.get s.groups (Client.object_id msg) ≡ some g
      → Map.get g.subscribers user ≡ none
      → subscription_of (subscribe_group r s user msg) (Client.object_id msg) user
        ≡ some (subscription (Client.origin msg))
  unfolding subscribe_group
  subscribe_group-subscribes s user msg stream g e found absent =
      rw (subscribe_group, e, found, absent-outside g user absent)
        (ground (
          arith,
          get-insert s.groups (Client.object_id msg) (subscribe r g user (Client.origin msg))
              (Client.object_id msg),
          list_beq_iff (Client.object_id msg) (Client.object_id msg),
          subscribe-subscribers g user (Client.origin msg),
        ))

  pub streams-subscribe_group :
      (s : RealtimeServer r) (user : U) (msg : ClientCollabMessage c)
      → (subscribe_group r s user msg).client_stream_by_user ≡ s.client_stream_by_user
  unfolding subscribe_group
  streams-subscribe_group s user msg = ground arith

  abbrev pub sent : Moment → U → Text → List (ClientCollabMessage c) → List (Effect r)
  sent m user object_id msgs =
      if m.has_receiver
      then stream_send user (client_collab_v2 ((object_id, msgs) ∷ [])) ∷ []
      else []

  -- A broadcast to a user with a stream leaves the groups alone.
  pub broadcast-Sends :
      (s : RealtimeServer r) (m : Moment) (user : U) (object_id : Text)
      (msgs : List (ClientCollabMessage c)) (stream : CollabClientStream r)
      → Map.get s.client_stream_by_user user ≡ some stream
      → let done = broadcast_client_collab_message r s m user object_id msgs in
        (done.0.groups ≡ s.groups) × (done.1 ≡ sent m user object_id msgs)
  unfolding broadcast_client_collab_message
  broadcast-Sends s m user object_id msgs stream e = elim (Bool-cases m.has_receiver) [
    | inl yes_sent ↦ rw (broadcast_client_collab_message, e, yes_sent) (refl, refl)
    | inr lost ↦ rw (broadcast_client_collab_message, e, lost) (refl, refl)
  ]
