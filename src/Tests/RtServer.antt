-- ===== src/Tests/RtServer.antt =====
-- Runs of the theorems on the realtime server, with users that are numbers.
use flow_cloud.Base.{
  ℕ, ◌≡◌, refl, true, false, not, ◌&&◌, none, some, List, [], ◌∷◌, ok, err, ◌==◌, list_eq, nat_eq,
  codes, if◌then◌else◌, length, All, Text, ◌≤◌,
}
use flow_cloud.Base.Int.{pos}
use flow_cloud.Base.Decimal.{print_ℤ, print_ℕ, digits}
use flow_cloud.Base.Map
use flow_cloud.Entity.Payload.{InitSync}
use flow_cloud.Entity.Client
use flow_cloud.Entity.Client.{ClientCollabMessage, client_init_sync, client_update_sync}
use flow_cloud.Entity.Realtime.{client_collab_v2, try_into_message_by_object_id}
use flow_cloud.RtServer.Group
use flow_cloud.RtServer.Group.{RtApi, document, contains_user, user_device, Groups, tick}
use flow_cloud.RtServer.State.{device_eq, new_server, RealtimeServer, Effect}
use flow_cloud.RtServer.Commands
use flow_cloud.RtServer.Commands.{Moment, handle_collab_message}
use flow_cloud.RtServer.Handlers
use flow_cloud.RtServer.Handlers.{
  Event, connected, received, received_command, run, connect, disconnect,
}
use flow_cloud.RtServer.Channel.{Answers, Received, message, receive_messages}
use flow_cloud.RtServer.Presence
use flow_cloud.RtServer.Invariant.{IsSound}
use flow_cloud.RtServer.Subscribing.Sync.{handle_collab_message-Subscribes}
use flow_cloud.RtServer.Subscribing.{subscription_of, sent}
use flow_cloud.RtServer.Channel.Permitted
use flow_cloud.RtServer.Group.Ticks
use flow_cloud.Tests.Data.{tiny_api}

-- Two users, 1 and 2, have the same id and device.
abbrev tiny_rt : RtApi ℕ tiny_api
tiny_rt = record {
  uid = λ user. pos 7;
  device_id = λ user. codes "phone";
  kind = λ t. document;
  Socket = ℕ;
  Doc = ℕ;
  EncodedCollab = ℕ;
  open_collab = λ uid workspace_id object_id t. 0;
  encode_collab_v1 = λ doc. doc;
}

abbrev some_sync : InitSync tiny_api
some_sync = record {
  origin = 1;
  object_id = codes "doc";
  collab_type = tt;
  workspace_id = codes "w";
  msg_id = 1;
  payload = 8 ∷ [];
}

abbrev user_one : ℕ
user_one = 1

abbrev a_moment : Moment
a_moment = record { has_receiver = true; now = 100 }

abbrev some_events : List (Event tiny_rt)
some_events =
    connected 1 (codes "s") 11
    ∷ received 1 (client_collab_v2 ((codes "doc", client_init_sync some_sync ∷ []) ∷ []))
    ∷ received_command a_moment 0
    ∷ []

abbrev some_server : RealtimeServer tiny_rt
some_server = (run tiny_rt new_server some_events).0

subscribed : contains_user tiny_rt some_server.groups (codes "doc") 1 ≡ true
unfolding contains_user run Handlers.step Handlers.run_next Handlers.client_message
    try_into_message_by_object_id Handlers.process_all Handlers.process_client_collab_message
    Handlers.enqueue Handlers.get_sender connect new_server Commands.run_command
    handle_collab_message Group.contains_group Client.is_init_sync Commands.create_group
    Commands.subscribe_group Commands.broadcast_client_collab_message Group.create_group
    Group.new_group Group.subscribe Group.remove_old_user Group.group_contains_user Client.object_id
    Client.origin user_device print_ℤ print_ℕ digits Handlers.user_device Group.subscription
subscribed = refl

run-new_server-IsSound_example : IsSound tiny_rt some_server
run-new_server-IsSound_example = Presence.run-new_server-IsSound tiny_rt some_events

run-one_of_a_device_example : ◌≡◌ {A = ℕ} 1 1
run-one_of_a_device_example =
    Presence.run-one_of_a_device tiny_rt some_events (codes "doc") 1 1 subscribed subscribed refl

session : Map.get some_server.session_id_by_user 1 ≡ some (codes "s")
unfolding run Handlers.step Handlers.run_next Handlers.client_message try_into_message_by_object_id
    Handlers.process_all Handlers.process_client_collab_message Handlers.enqueue Handlers.get_sender
    connect new_server Commands.run_command handle_collab_message Group.contains_group
    Client.is_init_sync Commands.create_group Commands.subscribe_group
    Commands.broadcast_client_collab_message Group.create_group Group.group_contains_user
    Client.object_id Handlers.user_device Group.new_group
session = refl

disconnect-Leaves_example :
    (contains_user tiny_rt (disconnect tiny_rt some_server 1 (codes "s")).groups (codes "doc") 1
      ≡ contains_user tiny_rt some_server.groups (codes "doc") 1
        && not (codes "s" == codes "s" && user_one == user_one))
    × (Map.get (disconnect tiny_rt some_server 1 (codes "s")).client_stream_by_user 1 ≡ (
        if codes "s" == codes "s" && user_one == user_one
        then none
        else Map.get some_server.client_stream_by_user 1))
disconnect-Leaves_example =
    Presence.disconnect-Leaves tiny_rt some_events 1 (codes "s") (codes "s") (codes "doc") 1 session

device_known : Map.get some_server.user_by_device (Handlers.user_device tiny_rt 2) ≡ some 1
unfolding run Handlers.step Handlers.run_next Handlers.client_message try_into_message_by_object_id
    Handlers.process_all Handlers.process_client_collab_message Handlers.enqueue Handlers.get_sender
    connect new_server Commands.run_command handle_collab_message Group.contains_group
    Client.is_init_sync Commands.create_group Commands.subscribe_group
    Commands.broadcast_client_collab_message Group.create_group Group.group_contains_user
    Client.object_id Handlers.user_device Group.new_group
device_known = refl

connect-Replaces_example :
    let after = (connect tiny_rt some_server 2 (codes "t") 22).0 in
    (contains_user tiny_rt after.groups (codes "doc") 1 ≡ false)
    × (Map.get after.client_stream_by_user 1 ≡ none)
    × (Map.get after.client_stream_by_user 2 ≡ some (record { sink = 22 }))
    × (Map.get after.session_id_by_user 2 ≡ some (codes "t"))
connect-Replaces_example =
    Presence.connect-Replaces tiny_rt some_events 2 1 (codes "t") (codes "doc") 22 device_known refl

abbrev connected_server : RealtimeServer tiny_rt
connected_server = record new_server { client_stream_by_user = (1, record { sink = 11 }) ∷ [] }

handle_collab_message-Subscribes_example :
    (done : RealtimeServer tiny_rt × List (Effect tiny_rt)) × (handle_collab_message tiny_rt
        connected_server a_moment 1
        (codes "doc")
        (client_init_sync some_sync ∷ [])
      ≡ ok done)
    × (subscription_of tiny_rt done.0 (codes "doc") 1 ≡ some (Group.subscription 1))
    × (done.1 ≡ sent tiny_rt a_moment 1 (codes "doc") (client_init_sync some_sync ∷ []))
handle_collab_message-Subscribes_example =
    handle_collab_message-Subscribes tiny_rt connected_server a_moment 1 some_sync []
      (record { sink = 11 }) (pos 0) refl refl

abbrev readable : Answers Unit
readable = record { can_write_collab = err tt; can_read_collab = ok true; is_open = true }

abbrev some_received : List (Received tiny_api × Answers Unit)
some_received =
    (message (client_collab_v2 ((codes "doc", client_init_sync some_sync ∷ []) ∷ [])), readable)
    ∷ []

receive_messages-IsPermitted_example :
    Permitted.all_messages (receive_messages (codes "doc") some_received)
    ≡ Permitted.permitted (codes "doc") some_received
receive_messages-IsPermitted_example =
    Permitted.receive_messages-IsPermitted (codes "doc") some_received

abbrev idle_groups : Groups tiny_rt
idle_groups =
    (
      codes "doc",
      record {
        workspace_id = codes "w";
        object_id = codes "doc";
        collab = 0;
        collab_type = tt;
        modified_at = 0;
        subscribers = [];
        user_by_user_device = [];
      },
    )
    ∷ []

tick-KeepsMembers_example :
    (length (tick tiny_rt false 1000 idle_groups).0 ≤ 6)
    × All
        (λ id. Ticks.inactive_in tiny_rt false 1000 idle_groups id ≡ true)
        (tick tiny_rt false 1000 idle_groups).0
    × ((object_id : Text) (v : ℕ)
        → contains_user tiny_rt (tick tiny_rt false 1000 idle_groups).1 object_id v
          ≡ contains_user tiny_rt idle_groups object_id v)
tick-KeepsMembers_example = Ticks.tick-KeepsMembers tiny_rt false 1000 idle_groups (refl, tt)
