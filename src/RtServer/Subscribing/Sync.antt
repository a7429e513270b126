-- ===== src/RtServer/Subscribing/Sync.antt =====
-- How lib/realtime/src/server/collaborate/group_cmd.rs begins a sync of a document.
use flow_cloud.Base.{
  ℕ, ◌≡◌, refl, Bool, true, false, not, none, some, List, ◌∷◌, Text, Eq, list_eq, nat_eq, arith,
  Option, Option-cases, inl, inr, ok, if◌then◌else◌, list_beq_iff, ap, ◌∙◌,
}
use flow_cloud.Base.Int.{ℤ}
use flow_cloud.Base.Map
use flow_cloud.Base.Map.{get-insert, get-remove}
use flow_cloud.Entity.Payload.{CollabApi, InitSync}
use flow_cloud.Entity.Client
use flow_cloud.Entity.Client.{ClientCollabMessage, client_init_sync}
use flow_cloud.RtServer.Group
use flow_cloud.RtServer.Group.{RtApi, CollabGroup, contains_user, subscribe, subscription}
use flow_cloud.RtServer.Group.Members.{contains_user-remove_user}
use flow_cloud.RtServer.State.{RealtimeServer, Effect, CollabClientStream}
use flow_cloud.RtServer.Commands.{
  Moment, subscribe_group, create_group, broadcast_client_collab_message, resubscribe,
  handle_collab_message,
}
use flow_cloud.RtServer.Subscribing.{
  subscribe_group-subscribes, subscription_of, streams-subscribe_group, sent, broadcast-Sends,
}

module _ {U : Type 0} ⦃user_eq : Eq U⦄ {c : CollabApi} (r : RtApi U c) where
  -- Subscribing and then handing the messages on.
  abbrev begin :
      RealtimeServer r
      → Moment
      → U
      → InitSync c
      → List (ClientCollabMessage c)
      → RealtimeServer r × List (Effect r)
  begin s m user d more =
      broadcast_client_collab_message r (subscribe_group r s user (client_init_sync d)) m user
        d.object_id (client_init_sync d ∷ more)

  begin-Subscribes :
      (s : RealtimeServer r) (m : Moment) (user : U) (d : InitSync c)
      (more : List (ClientCollabMessage c)) (stream : CollabClientStream r) (g : CollabGroup r)
      → Map.get s.client_stream_by_user user ≡ some stream
      → Map.get s.groups d.object_id ≡ some g
      → Map.get g.subscribers user ≡ none
      → (subscription_of r (begin s m user d more).0 d.object_id user
          ≡ some (subscription d.origin))
        × ((begin s m user d more).1 ≡ sent r m user d.object_id (client_init_sync d ∷ more))
  unfolding Client.object_id Client.origin
  begin-Subscribes s m user d more stream g e found absent =
      let s' = subscribe_group r s user (client_init_sync d) in
      let facts =
        broadcast-Sends r s' m user d.object_id (client_init_sync d ∷ more) stream
          (rw (streams-subscribe_group r s user (client_init_sync d)) e) in
      let subscribed =
        subscribe_group-subscribes r s user (client_init_sync d) stream g e found absent in
      (ap (λ groups. in_groups groups) facts.0 ∙ subscribed, facts.1)
    where
      in_groups : Group.Groups r → Option (Group.Subscription c)
      in_groups groups = elim (Map.get groups d.object_id) [
        | none ↦ none
        | some g' ↦ Map.get g'.subscribers user
      ]

  -- The server whose group of the document the user has left.
  abbrev without : RealtimeServer r → U → Text → RealtimeServer r
  without s user object_id = record s { groups = Group.remove_user r s.groups object_id user }

  resubscribe-init :
      (s : RealtimeServer r) (user : U) (d : InitSync c)
      → resubscribe r s user d.object_id (client_init_sync d)
        ≡ subscribe_group r (without s user d.object_id) user (client_init_sync d)
  unfolding resubscribe Client.is_init_sync
  resubscribe-init s user d = ground (
    arith,
    contains_user-remove_user r s.groups d.object_id user d.object_id user,
    list_beq_iff d.object_id d.object_id,
    user_eq.beq_iff user user,
  )

  -- The group of the document, old or new, in which the user is not subscribed.
  record IsReady (s : RealtimeServer r) (user : U) (object_id : Text) : Type 0 where
    group : CollabGroup r
    found : Map.get s.groups object_id ≡ some group
    absent : Map.get group.subscribers user ≡ none

  without-IsReady :
      (s : RealtimeServer r) (user : U) (object_id : Text) (g : CollabGroup r)
      → Map.get s.groups object_id ≡ some g
      → IsReady (without s user object_id) user object_id
  unfolding Group.remove_user Group.group_remove_user
  without-IsReady s user object_id g e = record {
    group = Group.group_remove_user r g user;
    found =
        rw (Group.remove_user, e)
          (ground (
            arith,
            list_beq_iff object_id object_id,
            get-insert s.groups object_id (Group.group_remove_user r g user) object_id,
          ));
    absent = ground (arith, user_eq.beq_iff user user, get-remove g.subscribers user user);
  }

  abbrev with_new : RealtimeServer r → ℕ → ℤ → InitSync c → RealtimeServer r
  with_new s now uid d = record s {
    groups = Group.create_group r s.groups now uid d.workspace_id d.object_id d.collab_type;
  }

  with_new-IsReady :
      (s : RealtimeServer r) (now : ℕ) (uid : ℤ) (user : U) (d : InitSync c)
      → IsReady (with_new s now uid d) user d.object_id
  unfolding Group.create_group Group.new_group
  with_new-IsReady s now uid user d =
      let g =
        Group.new_group r now d.workspace_id d.object_id d.collab_type
          (r.open_collab uid d.workspace_id d.object_id d.collab_type) in
      record {
        group = g;
        found = ground (
          arith,
          list_beq_iff d.object_id d.object_id,
          get-insert s.groups d.object_id g d.object_id,
        );
        absent = refl;
      }

  has_stream :
      (s : RealtimeServer r) (user : U) (stream : CollabClientStream r)
      → Map.get s.client_stream_by_user user ≡ some stream
      → not (Map.contains_key s.client_stream_by_user user) ≡ false
  has_stream s user stream e = ground arith

  contains_group-get :
      (groups : Group.Groups r) (object_id : Text)
      → Group.contains_group r groups object_id
        ≡ (elim (Map.get groups object_id) as (λ _. Bool) [ none ↦ false | some g ↦ true ])
  unfolding Group.contains_group
  contains_group-get groups object_id = refl

  -- Of a first message of a sync: the group is made if it is not there, and the user begins in it.
  handle-begin :
      (s : RealtimeServer r) (m : Moment) (user : U) (d : InitSync c)
      (more : List (ClientCollabMessage c)) (stream : CollabClientStream r) (uid : ℤ)
      → Map.get s.client_stream_by_user user ≡ some stream
      → c.client_user_id d.origin ≡ some uid
      → handle_collab_message r s m user d.object_id (client_init_sync d ∷ more) ≡ (
          if Group.contains_group r s.groups d.object_id
          then ok (begin (without s user d.object_id) m user d more)
          else ok (begin (with_new s m.now uid d) m user d more))
  unfolding handle_collab_message create_group Client.is_init_sync
  handle-begin s m user d more stream uid e known =
      rw (has_stream s user stream e, resubscribe-init s user d, create_group, known) refl

  -- When a connected user begins a sync of a document, which names a client, then whether or not the
  -- document has a group and whether or not the user is in it: afterwards the user is subscribed anew,
  -- with the origin of the message, and all the messages go to the user's streams, if these have a
  -- receiver.
  pub handle_collab_message-Subscribes :
      (s : RealtimeServer r) (m : Moment) (user : U) (d : InitSync c)
      (more : List (ClientCollabMessage c)) (stream : CollabClientStream r) (uid : ℤ)
      → Map.get s.client_stream_by_user user ≡ some stream
      → c.client_user_id d.origin ≡ some uid
      → (done : RealtimeServer r × List (Effect r)) × (handle_collab_message r s m user d.object_id
            (client_init_sync d ∷ more)
          ≡ ok done)
        × (subscription_of r done.0 d.object_id user ≡ some (subscription d.origin))
        × (done.1 ≡ sent r m user d.object_id (client_init_sync d ∷ more))
  handle_collab_message-Subscribes s m user d more stream uid e known =
      let begun = handle-begin s m user d more stream uid e known in
      let which = contains_group-get s.groups d.object_id in
      elim (Option-cases (Map.get s.groups d.object_id)) [
        | inl none_yet ↦
            let s' = with_new s m.now uid d in
            let ready = with_new-IsReady s m.now uid user d in
            let facts =
              begin-Subscribes s' m user d more stream ready.group e ready.found ready.absent in
            (begin s' m user d more, ground (arith, begun, which), facts.0, facts.1)
        | inr (g, found) ↦
            let s' = without s user d.object_id in
            let ready = without-IsReady s user d.object_id g found in
            let facts =
              begin-Subscribes s' m user d more stream ready.group e ready.found ready.absent in
            (begin s' m user d more, ground (arith, begun, which), facts.0, facts.1)
      ]
