-- ===== src/RtServer/Invariant/Run.antt =====
-- Every sequence of steps of the server keeps the invariant.
use flow_cloud.Base.{
  ℕ, refl, sym, Bool, List, [], ◌∷◌, Text, Eq, ◌==◌, list_eq, nat_eq, arith, Option-cases,
  Result-cases, inl, inr, if_split, ◌∙◌,
}
use flow_cloud.Base.Int.{ℤ}
use flow_cloud.Base.Map
use flow_cloud.Base.Map.{Holds-insert}
use flow_cloud.Entity.Payload.{CollabApi}
use flow_cloud.Entity.Realtime.{RealtimeMessage, try_into_message_by_object_id}
use flow_cloud.RtServer.Group
use flow_cloud.RtServer.Group.{RtApi, CollabGroup, contains_user, group_contains_user, user_device}
use flow_cloud.RtServer.Group.Members.{
  contains_user-replace, contains_user-remove_groups, remove_groups-AreOneEach,
}
use flow_cloud.RtServer.State.{device_eq, RealtimeServer, new_server}
use flow_cloud.RtServer.Commands.{Moment}
use flow_cloud.RtServer.Handlers
use flow_cloud.RtServer.Handlers.{
  remove_user, remove_connection, connect, leave, disconnect, enqueue, client_message,
  client_stream_message, get_encode_collab, tick_groups, run_next, edit, Event, connected,
  disconnected, received, received_stream, asked_for_collab, ticked, received_command, edited, step,
  run,
}
use flow_cloud.RtServer.Invariant.{IsSound}
use flow_cloud.RtServer.Invariant.Commands.{run_command-IsSound}
use flow_cloud.RtServer.Invariant.Leaving.{
  remove_user-IsSound, SameGroups-IsSound, process_all-IsSound, process_stream-IsSound,
}

module _ {U : Type 0} ⦃user_eq : Eq U⦄ {c : CollabApi} (r : RtApi U c) where
  remove_connection-IsSound :
      (s : RealtimeServer r) (old : U) → IsSound r s → IsSound r (remove_connection r s old).0
  unfolding remove_connection
  remove_connection-IsSound s old h = elim (Option-cases (Map.get s.client_stream_by_user old)) [
    | inl e ↦ rw (remove_connection, e) (remove_user-IsSound r s old h)
    | inr (stream, e) ↦
        rw (remove_connection, e)
          (remove_user-IsSound r _ old (SameGroups-IsSound r s _ (refl, refl) h))
  ]

  connect-IsSound :
      (s : RealtimeServer r) (user : U) (session_id : Text) (socket : r.Socket)
      → IsSound r s
      → IsSound r (connect r s user session_id socket).0
  unfolding connect
  connect-IsSound s user session_id socket h =
      elim (Option-cases (Map.get s.user_by_device (Handlers.user_device r user))) [
        | inl e ↦ rw (connect, e) (SameGroups-IsSound r s _ (refl, refl) h)
        | inr (old, e) ↦
            rw (connect, e)
              (SameGroups-IsSound r _ _ (refl, refl)
                (remove_connection-IsSound _ old (SameGroups-IsSound r s _ (refl, refl) h)))
      ]

  leave-IsSound : (s : RealtimeServer r) (user : U) → IsSound r s → IsSound r (leave r s user)
  unfolding leave
  leave-IsSound s user h =
      SameGroups-IsSound r (remove_user r s user) _ (refl, refl) (remove_user-IsSound r s user h)

  disconnect-IsSound :
      (s : RealtimeServer r) (user : U) (session_id : Text)
      → IsSound r s
      → IsSound r (disconnect r s user session_id)
  unfolding disconnect
  disconnect-IsSound s user session_id h = elim (Option-cases (Map.get s.session_id_by_user user)) [
    | inl e ↦ rw (disconnect, e) (leave-IsSound s user h)
    | inr (current, e) ↦
        rw (disconnect, e)
          (if_split (IsSound r) (current == session_id) _ _ (λ _. leave-IsSound s user h) (λ _. h))
  ]

  client_message-IsSound :
      (s : RealtimeServer r) (user : U) (msg : RealtimeMessage c)
      → IsSound r s
      → IsSound r (client_message r s user msg)
  unfolding client_message
  client_message-IsSound s user msg h = elim (Result-cases (try_into_message_by_object_id msg)) [
    | inl (m, e) ↦ rw (client_message, e) (process_all-IsSound r s user m h)
    | inr (x, e) ↦ rw (client_message, e) h
  ]

  client_stream_message-IsSound :
      (s : RealtimeServer r) (uid : ℤ) (device : Text) (msgs : List (RealtimeMessage c))
      → IsSound r s
      → IsSound r (client_stream_message r s uid device msgs)
  unfolding client_stream_message
  client_stream_message-IsSound s uid device [] h = h
  client_stream_message-IsSound s uid device (msg ∷ more) h =
      elim (Result-cases (try_into_message_by_object_id msg)) [
        | inl (m, e) ↦ rw (client_stream_message, e) (process_stream-IsSound r s uid device m h)
        | inr (x, e) ↦ rw (client_stream_message, e) h
      ]

  get_encode_collab-IsSound :
      (s : RealtimeServer r) (object_id : Text)
      → IsSound r s
      → IsSound r (get_encode_collab r s object_id).0
  unfolding get_encode_collab enqueue
  get_encode_collab-IsSound s object_id h =
      elim (Option-cases (Map.get s.group_sender_by_object_id object_id)) [
        | inl e ↦ rw (get_encode_collab, e) h
        | inr (runner, e) ↦ rw (get_encode_collab, e) (SameGroups-IsSound r s _ (refl, refl) h)
      ]

  tick_groups-IsSound :
      (s : RealtimeServer r) (debug : Bool) (now : ℕ)
      → IsSound r s
      → IsSound r (tick_groups r s debug now).0
  unfolding tick_groups Group.tick
  tick_groups-IsSound s debug now h =
      let ids = Group.find_inactive r debug now [] s.groups in
      record {
        tracked = λ object_id v m.
            h.tracked object_id v
              (ground (arith, contains_user-remove_groups r s.groups ids object_id v));
        one_each = remove_groups-AreOneEach r s.groups ids h.one_each;
      }

  run_next-IsSound :
      (s : RealtimeServer r) (m : Moment) (runner : ℕ)
      → IsSound r s
      → IsSound r (run_next r s m runner).0
  unfolding run_next
  run_next-IsSound s m runner h = elim (Option-cases (Map.get s.runners runner)) [
    | inl e ↦ rw (run_next, e) h
    | inr ([], e) ↦ rw (run_next, e) h
    | inr (command ∷ commands, e) ↦
        rw (run_next, e)
          (run_command-IsSound r _ m command (SameGroups-IsSound r s _ (refl, refl) h))
  ]

  edit-IsSound :
      (s : RealtimeServer r) (now : ℕ) (object_id : Text) (doc : r.Doc)
      → IsSound r s
      → IsSound r (edit r s now object_id doc)
  unfolding edit group_contains_user
  edit-IsSound s now key doc h = elim (Option-cases (Map.get s.groups key)) [
    | inl e ↦ rw (edit, e) h
    | inr (g, e) ↦
        rw (edit, e)
          (record {
            tracked = λ object_id v m.
                h.tracked object_id v
                  (sym (contains_user-replace r s.groups key g _ object_id v e refl) ∙ m);
            one_each =
                Holds-insert _ s.groups key _
                  (let o = h.one_each key g e in
                    record { remembered = o.remembered; own_device = o.own_device })
                  h.one_each;
          })
  ]

  step-IsSound : (s : RealtimeServer r) (e : Event r) → IsSound r s → IsSound r (step r s e).0
  unfolding step
  step-IsSound s (connected user session_id socket) = connect-IsSound s user session_id socket
  step-IsSound s (disconnected user session_id) = disconnect-IsSound s user session_id
  step-IsSound s (received user msg) = client_message-IsSound s user msg
  step-IsSound s (received_stream uid device msgs) = client_stream_message-IsSound s uid device msgs
  step-IsSound s (asked_for_collab object_id) = get_encode_collab-IsSound s object_id
  step-IsSound s (ticked debug now) = tick_groups-IsSound s debug now
  step-IsSound s (received_command m runner) = run_next-IsSound s m runner
  step-IsSound s (edited now object_id doc) = edit-IsSound s now object_id doc

  pub run-IsSound :
      (s : RealtimeServer r) (events : List (Event r)) → IsSound r s → IsSound r (run r s events).0
  unfolding run
  run-IsSound s [] h = h
  run-IsSound s (e ∷ events) h = run-IsSound (step r s e).0 events (step-IsSound s e h)

  pub new_server-IsSound : IsSound r new_server
  unfolding new_server contains_user
  new_server-IsSound = record { tracked = λ object_id v m. cc; one_each = λ key g m. cc }
