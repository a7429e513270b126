-- ===== src/RtServer/Presence.antt =====
-- Who is where, after any sequence of steps of lib/realtime/src/server/rt_server.rs.
use flow_cloud.Base.{
  ◌≡◌, refl, sym, true, false, not, ◌&&◌, none, some, List, Text, Eq, ◌==◌, list_eq, nat_eq, arith,
  Option-cases, Bool-cases, inl, inr, if◌then◌else◌, ◌∙◌, ap,
}
use flow_cloud.Base.Map
use flow_cloud.Base.Map.{get-insert, get-remove, some_injective}
use flow_cloud.Entity.Payload.{CollabApi}
use flow_cloud.RtServer.Group.{RtApi, contains_user, user_device}
use flow_cloud.RtServer.State.{device_eq, RealtimeServer, new_server}
use flow_cloud.RtServer.Handlers
use flow_cloud.RtServer.Handlers.{
  remove_user, remove_connection, connect, leave, disconnect, Event, run,
}
use flow_cloud.RtServer.Invariant.{IsSound}
use flow_cloud.RtServer.Invariant.Leaving.{contains_user-leaving, SameGroups-IsSound}
use flow_cloud.RtServer.Invariant.Run.{run-IsSound, new_server-IsSound}

module _ {U : Type 0} ⦃user_eq : Eq U⦄ {c : CollabApi} (r : RtApi U c) where
  streams-remove_user :
      (s : RealtimeServer r) (user : U)
      → (remove_user r s user).client_stream_by_user ≡ s.client_stream_by_user
  unfolding remove_user
  streams-remove_user s user = elim (Option-cases (Map.get s.editing_collab_by_user user)) [
    | inl e ↦ rw (remove_user, e)
    | inr (set, e) ↦ rw (remove_user, e)
  ]

  sessions-remove_user :
      (s : RealtimeServer r) (user : U)
      → (remove_user r s user).session_id_by_user ≡ s.session_id_by_user
  unfolding remove_user
  sessions-remove_user s user = elim (Option-cases (Map.get s.editing_collab_by_user user)) [
    | inl e ↦ rw (remove_user, e)
    | inr (set, e) ↦ rw (remove_user, e)
  ]

  streams-leaving :
      (s : RealtimeServer r) (user v : U)
      → Map.get (leave r s user).client_stream_by_user v
        ≡ (if user == v then none else Map.get s.client_stream_by_user v)
  unfolding leave
  streams-leaving s user v =
      rw (streams-remove_user s user) (get-remove s.client_stream_by_user user v)

  -- Whatever happens to a new server: a user who is in the group of a document is among those who are
  -- known to be editing it, and a group knows its subscribers by their devices.
  pub run-new_server-IsSound : (events : List (Event r)) → IsSound r (run r new_server events).0
  run-new_server-IsSound events = run-IsSound r new_server events (new_server-IsSound r)

  -- Whatever happens to a new server, a group does not have two subscribers of one device.
  pub run-one_of_a_device :
      (events : List (Event r)) (object_id : Text) (user other : U)
      → contains_user r (run r new_server events).0.groups object_id user ≡ true
      → contains_user r (run r new_server events).0.groups object_id other ≡ true
      → user_device r user ≡ user_device r other
      → user ≡ other
  unfolding contains_user
  run-one_of_a_device events object_id user other h k same =
      let s = (run r new_server events).0 in
      elim (Option-cases (Map.get s.groups object_id)) [
        | inl e ↦ ground arith
        | inr (g, e) ↦
            let known = ((run-new_server-IsSound events).one_each object_id g e).remembered in
            some_injective (
              sym (known user (ground arith))
              ∙ ap (Map.get g.user_by_user_device) same
              ∙ known other (ground arith))
      ]

  -- When a user disconnects with the session that the server remembers, the user is in no group and
  -- has no stream afterwards. The other users, and a user of another session, stay in their groups
  -- and keep their streams.
  pub disconnect-Leaves :
      (events : List (Event r)) (user : U) (current session_id object_id : Text) (v : U)
      → let s = (run r new_server events).0 in
        Map.get s.session_id_by_user user ≡ some current
        → (contains_user r (disconnect r s user session_id).groups object_id v
            ≡ contains_user r s.groups object_id v && not (current == session_id && user == v))
          × (Map.get (disconnect r s user session_id).client_stream_by_user v ≡ (
              if current == session_id && user == v
              then none
              else Map.get s.client_stream_by_user v))
  unfolding disconnect leave
  disconnect-Leaves events user current session_id object_id v e =
      let s = (run r new_server events).0 in
      elim (Bool-cases (current == session_id)) [
        | inl same ↦
            rw (disconnect, e, same)
              (
                contains_user-leaving r s user object_id v (run-new_server-IsSound events),
                streams-leaving s user v,
              )
        | inr other ↦ rw (disconnect, e, other) (ground arith, refl)
      ]

  remove_connection-Leaves :
      (s : RealtimeServer r) (old v : U) (object_id : Text)
      → IsSound r s
      → let after = (remove_connection r s old).0 in
        (contains_user r after.groups object_id v
          ≡ contains_user r s.groups object_id v && not (old == v))
        × (Map.get after.client_stream_by_user v
            ≡ (if old == v then none else Map.get s.client_stream_by_user v))
        × (after.session_id_by_user ≡ s.session_id_by_user)
  unfolding remove_connection
  remove_connection-Leaves s old v object_id h =
      elim (Option-cases (Map.get s.client_stream_by_user old)) [
        | inl e ↦
            rw (remove_connection, e)
              (
                contains_user-leaving r s old object_id v h,
                rw (streams-remove_user s old) (ground (arith, user_eq.beq_iff old v)),
                sessions-remove_user s old,
              )
        | inr (stream, e) ↦
            let s' : RealtimeServer r = record s {
              client_stream_by_user = Map.remove s.client_stream_by_user old;
            } in
            rw (remove_connection, e)
              (
                contains_user-leaving r s' old object_id v
                    (SameGroups-IsSound r s s' (refl, refl) h),
                rw (streams-remove_user s' old) (get-remove s.client_stream_by_user old v),
                sessions-remove_user s' old,
              )
      ]

  -- Of a new connection: the old user of the device, if it is another one, is in no group and has no
  -- stream any more; the new user has the stream of the new socket, and the session is remembered.
  pub connect-Replaces :
      (events : List (Event r)) (user old : U) (session_id object_id : Text) (socket : r.Socket)
      → let s = (run r new_server events).0 in
        Map.get s.user_by_device (Handlers.user_device r user) ≡ some old
        → (old == user) ≡ false
        → let after = (connect r s user session_id socket).0 in
          (contains_user r after.groups object_id old ≡ false)
          × (Map.get after.client_stream_by_user old ≡ none)
          × (Map.get after.client_stream_by_user user ≡ some (record { sink = socket }))
          × (Map.get after.session_id_by_user user ≡ some session_id)
  unfolding connect
  connect-Replaces events user old session_id object_id socket e n =
      let s = (run r new_server events).0 in
      let s' : RealtimeServer r = record s {
        session_id_by_user = Map.insert s.session_id_by_user user session_id;
        user_by_device = Map.insert s.user_by_device (Handlers.user_device r user) user;
      } in
      let left = (remove_connection r s' old).0 in
      let facts =
        remove_connection-Leaves s' old old object_id
          (SameGroups-IsSound r s s' (refl, refl) (run-new_server-IsSound events)) in
      rw (connect, e)
        (
          ground (arith, user_eq.beq_iff old old),
          ground (
            arith,
            user_eq.beq_iff old old,
            user_eq.beq_iff user old,
            user_eq.beq_iff old user,
            get-insert left.client_stream_by_user user (record { sink = socket }) old,
          ),
          ground (
            arith,
            user_eq.beq_iff user user,
            get-insert left.client_stream_by_user user (record { sink = socket }) user,
          ),
          rw facts.2 (
              ground (
                arith,
                user_eq.beq_iff user user,
                get-insert s.session_id_by_user user session_id user,
              )),
        )
