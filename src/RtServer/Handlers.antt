-- ===== src/RtServer/Handlers.antt =====
-- lib/realtime/src/server/rt_server.rs: the handlers of the realtime server, and its sequences of steps.
use flow_cloud.Base.{
  ℕ, ◌+◌, Bool, none, some, List, [], ◌∷◌, ◌++◌, Text, ok, err, map, list_eq, nat_eq, if◌then◌else◌,
  Eq, ◌==◌,
}
use flow_cloud.Base.Int.{ℤ}
use flow_cloud.Base.Map
use flow_cloud.Base.Map.{Map}
use flow_cloud.Entity.Payload.{CollabApi}
use flow_cloud.Entity.Client
use flow_cloud.Entity.Client.{ClientCollabMessage}
use flow_cloud.Entity.Realtime.{
  RealtimeMessage, system, duplicate_connection, MessageByObjectId, try_into_message_by_object_id,
}
use flow_cloud.RtServer.Group
use flow_cloud.RtServer.Group.{RtApi, Groups, is_empty}
use flow_cloud.RtServer.State.{
  UserDevice, device_eq, Editing, RealtimeServer, Effect, do_send, flush, answer, GroupCommand,
  handle_client_collab_message, encode_collab,
}
use flow_cloud.RtServer.Commands.{Moment, run_command}

module _ {U : Type 0} ⦃user_eq : Eq U⦄ {c : CollabApi} (r : RtApi U c) where
  unfoldable pub user_device : U → UserDevice
  user_device user = record { device_id = r.device_id user; uid = r.uid user }

  unfoldable pub remove_from_groups : Groups r → U → List (Editing c) → Groups r
  remove_from_groups groups user [] = groups
  remove_from_groups groups user (e ∷ set) =
      remove_from_groups (Group.remove_user r groups e.object_id user) user set

  unfoldable pub remove_user : RealtimeServer r → U → RealtimeServer r
  remove_user s user = elim (Map.get s.editing_collab_by_user user) [
    | none ↦ s
    | some set ↦ record s {
      editing_collab_by_user = Map.remove s.editing_collab_by_user user;
      groups = remove_from_groups s.groups user set;
    }
  ]

  -- The old connection of a device ends with a message.
  unfoldable pub remove_connection : RealtimeServer r → U → RealtimeServer r × List (Effect r)
  remove_connection s old = elim (Map.get s.client_stream_by_user old) [
    | none ↦ (remove_user s old, [])
    | some stream ↦ (
      remove_user (record s { client_stream_by_user = Map.remove s.client_stream_by_user old }) old,
      do_send stream.sink (system duplicate_connection) ∷ [],
    )
  ]

  unfoldable pub connect :
      RealtimeServer r → U → Text → r.Socket → RealtimeServer r × List (Effect r)
  connect s user session_id socket =
      let s' = record s {
        session_id_by_user = Map.insert s.session_id_by_user user session_id;
        user_by_device = Map.insert s.user_by_device (user_device user) user;
      } in
      let done : RealtimeServer r × List (Effect r) =
        elim (Map.get s.user_by_device (user_device user)) [
          | none ↦ (s', [])
          | some old ↦ remove_connection s' old
        ] in
      (
        record done.0 {
          client_stream_by_user =
              Map.insert done.0.client_stream_by_user user (record { sink = socket });
        },
        done.1,
      )

  unfoldable pub leave : RealtimeServer r → U → RealtimeServer r
  leave s user =
      let s' = remove_user s user in
      record s' { client_stream_by_user = Map.remove s'.client_stream_by_user user }

  -- A disconnection of another session than the user's last one does nothing.
  unfoldable pub disconnect : RealtimeServer r → U → Text → RealtimeServer r
  disconnect s user session_id = elim (Map.get s.session_id_by_user user) [
    | none ↦ leave s user
    | some current ↦ if current == session_id then leave s user else s
  ]

  unfoldable pub enqueue : RealtimeServer r → ℕ → GroupCommand r → RealtimeServer r
  enqueue s runner command = record s {
    runners = Map.insert s.runners runner (elim (Map.get s.runners runner) [
      | none ↦ command ∷ []
      | some commands ↦ commands ++ command ∷ []
    ]);
  }

  -- The sender of the document's runner, which is started if there is none.
  unfoldable pub get_sender : RealtimeServer r → Text → ℕ × RealtimeServer r
  get_sender s object_id = elim (Map.get s.group_sender_by_object_id object_id) [
    | some runner ↦ (runner, s)
    | none ↦ (
      s.next_runner,
      record s {
        group_sender_by_object_id = Map.insert s.group_sender_by_object_id object_id s.next_runner;
        runners = Map.insert s.runners s.next_runner [];
        next_runner = s.next_runner + 1;
      },
    )
  ]

  unfoldable pub process_client_collab_message :
      RealtimeServer r → U → Text → List (ClientCollabMessage c) → RealtimeServer r
  process_client_collab_message s user object_id msgs =
      let sender = get_sender s object_id in
      enqueue sender.1 sender.0 (handle_client_collab_message user object_id msgs)

  unfoldable pub process_all : RealtimeServer r → U → MessageByObjectId c → RealtimeServer r
  process_all s user [] = s
  process_all s user ((object_id, msgs) ∷ m) =
      process_all (process_client_collab_message s user object_id msgs) user m

  unfoldable pub client_message : RealtimeServer r → U → RealtimeMessage c → RealtimeServer r
  client_message s user msg = elim (try_into_message_by_object_id msg) [
    | ok m ↦ process_all s user m
    | err e ↦ s
  ]

  -- The device of the request, or else of the first message that names one.
  unfoldable pub device_of : Text → List (ClientCollabMessage c) → Text
  device_of device_id [] = device_id
  device_of device_id (first ∷ more) =
      if is_empty device_id
      then elim (Client.device_id first) [ none ↦ device_id | some id ↦ id ]
      else device_id

  unfoldable pub process_stream :
      RealtimeServer r → ℤ → Text → MessageByObjectId c → RealtimeServer r
  process_stream s uid device_id [] = s
  process_stream s uid device_id ((object_id, msgs) ∷ m) =
      let device = device_of device_id msgs in
      let s' : RealtimeServer r =
        elim (Map.get s.user_by_device (record { device_id = device; uid = uid })) [
          | none ↦ s
          | some user ↦ process_client_collab_message s user object_id msgs
        ] in
      process_stream s' uid device m

  -- Of the stream only the first message is read.
  unfoldable pub client_stream_message :
      RealtimeServer r → ℤ → Text → List (RealtimeMessage c) → RealtimeServer r
  client_stream_message s uid device_id [] = s
  client_stream_message s uid device_id (msg ∷ more) = elim (try_into_message_by_object_id msg) [
    | ok m ↦ process_stream s uid device_id m
    | err e ↦ s
  ]

  unfoldable pub get_encode_collab : RealtimeServer r → Text → RealtimeServer r × List (Effect r)
  get_encode_collab s object_id = elim (Map.get s.group_sender_by_object_id object_id) [
    | none ↦ (s, answer none ∷ [])
    | some runner ↦ (enqueue s runner (encode_collab object_id), [])
  ]

  unfoldable pub remove_senders : Map Text ℕ → List Text → Map Text ℕ
  remove_senders senders [] = senders
  remove_senders senders (id ∷ ids) = remove_senders (Map.remove senders id) ids

  unfoldable pub tick_groups : RealtimeServer r → Bool → ℕ → RealtimeServer r × List (Effect r)
  tick_groups s debug_assertions now =
      let (ids, groups, flushed) = Group.tick r debug_assertions now s.groups in
      (
        record s {
          groups = groups;
          group_sender_by_object_id = remove_senders s.group_sender_by_object_id ids;
        },
        map (λ f. flush f.0 f.1) flushed,
      )

  -- A runner receives its next command.
  unfoldable pub run_next : RealtimeServer r → Moment → ℕ → RealtimeServer r × List (Effect r)
  run_next s m runner = elim (Map.get s.runners runner) [
    | none ↦ (s, [])
    | some [] ↦ (s, [])
    | some (command ∷ commands) ↦
        run_command r (record s { runners = Map.insert s.runners runner commands }) m command
  ]

  -- The document of a group changes, which the group notes.
  unfoldable pub edit : RealtimeServer r → ℕ → Text → r.Doc → RealtimeServer r
  edit s now object_id doc = elim (Map.get s.groups object_id) [
    | none ↦ s
    | some g ↦ record s {
      groups = Map.insert s.groups object_id (record g { collab = doc; modified_at = now });
    }
  ]

-- What happens to the server, in the order in which it is handled.
pub data Event {U : Type 0} {c : CollabApi} (r : RtApi U c) : Type 0 where
  connected : U → Text → r.Socket → Event r
  disconnected : U → Text → Event r
  received : U → RealtimeMessage c → Event r
  received_stream : ℤ → Text → List (RealtimeMessage c) → Event r
  asked_for_collab : Text → Event r
  ticked : Bool → ℕ → Event r
  received_command : Moment → ℕ → Event r
  edited : ℕ → Text → r.Doc → Event r

module _ {U : Type 0} ⦃user_eq : Eq U⦄ {c : CollabApi} (r : RtApi U c) where
  unfoldable pub step : RealtimeServer r → Event r → RealtimeServer r × List (Effect r)
  step s (connected user session_id socket) = connect r s user session_id socket
  step s (disconnected user session_id) = (disconnect r s user session_id, [])
  step s (received user msg) = (client_message r s user msg, [])
  step s (received_stream uid device_id msgs) = (client_stream_message r s uid device_id msgs, [])
  step s (asked_for_collab object_id) = get_encode_collab r s object_id
  step s (ticked debug_assertions now) = tick_groups r s debug_assertions now
  step s (received_command m runner) = run_next r s m runner
  step s (edited now object_id doc) = (edit r s now object_id doc, [])

  unfoldable pub run : RealtimeServer r → List (Event r) → RealtimeServer r × List (Effect r)
  run s [] = (s, [])
  run s (e ∷ events) =
      let one = step s e in let rest = run one.0 events in (rest.0, one.1 ++ rest.1)
