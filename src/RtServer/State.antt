-- ===== src/RtServer/State.antt =====
-- The state of lib/realtime/src/server/rt_server.rs, with lib/realtime/src/entities.rs.
use flow_cloud.Base.{
  ℕ, ◌≡◌, ◌↔◌, Bool, true, ◌&&◌, Option, List, [], ◌∷◌, Text, Eq, ◌==◌, list_eq, nat_eq, contains,
  if◌then◌else◌, arith, list_beq_iff,
}
use flow_cloud.Base.Int.{ℤ, int_eq, int_beq_iff}
use flow_cloud.Base.Map.{Map}
use flow_cloud.Entity.Payload.{CollabApi}
use flow_cloud.Entity.Client.{ClientCollabMessage}
use flow_cloud.Entity.Realtime.{RealtimeMessage}
use flow_cloud.RtServer.Group.{RtApi, Groups}

pub record UserDevice : Type 0 where
  pub device_id : Text
  pub uid : ℤ

abbrev pub device_beq : UserDevice → UserDevice → Bool
device_beq a b = a.device_id == b.device_id && a.uid == b.uid

pub device_beq_iff : (a b : UserDevice) → (device_beq a b ≡ true) ↔ (a ≡ b)
device_beq_iff a b = ground (arith, list_beq_iff a.device_id b.device_id, int_beq_iff a.uid b.uid)

instance abbrev pub device_eq : Eq UserDevice
device_eq = record { beq = device_beq; beq_iff = device_beq_iff }

pub record Editing (c : CollabApi) : Type 0 where
  pub object_id : Text
  pub origin : c.Origin

module _ {c : CollabApi} where
  abbrev pub editing_beq : Editing c → Editing c → Bool
  editing_beq a b = a.object_id == b.object_id && c.origin_eq.beq a.origin b.origin

  pub editing_beq_iff : (a b : Editing c) → (editing_beq a b ≡ true) ↔ (a ≡ b)
  editing_beq_iff a b =
      ground (arith, list_beq_iff a.object_id b.object_id, c.origin_eq.beq_iff a.origin b.origin)

  instance abbrev pub editing_eq : Eq (Editing c)
  editing_eq = record { beq = editing_beq; beq_iff = editing_beq_iff }

  -- `HashSet::insert`.
  abbrev pub insert_editing : List (Editing c) → Editing c → List (Editing c)
  insert_editing set e = if contains set e then set else e ∷ set

pub record CollabClientStream {U : Type 0} {c : CollabApi} (r : RtApi U c) : Type 0 where
  pub sink : r.Socket

pub data GroupCommand {U : Type 0} {c : CollabApi} (r : RtApi U c) : Type 0 where
  handle_client_collab_message : U → Text → List (ClientCollabMessage c) → GroupCommand r
  encode_collab : Text → GroupCommand r

-- A sender stands for the number of the runner at the other end of its channel; `runners` holds the
-- commands that a runner has not yet received.
pub record RealtimeServer {U : Type 0} {c : CollabApi} (r : RtApi U c) : Type 0 where
  pub groups : Groups r
  pub user_by_device : Map UserDevice U
  pub session_id_by_user : Map U Text
  pub editing_collab_by_user : Map U (List (Editing c))
  pub client_stream_by_user : Map U (CollabClientStream r)
  pub group_sender_by_object_id : Map Text ℕ
  pub runners : Map ℕ (List (GroupCommand r))
  pub next_runner : ℕ

-- What the server sends: to a socket, to the streams of a user, to the storage, or as an answer.
pub data Effect {U : Type 0} {c : CollabApi} (r : RtApi U c) : Type 0 where
  do_send : r.Socket → RealtimeMessage c → Effect r
  stream_send : U → RealtimeMessage c → Effect r
  flush : Text → r.Doc → Effect r
  answer : Option r.EncodedCollab → Effect r

unfoldable pub new_server : {U : Type 0} {c : CollabApi} {r : RtApi U c} → RealtimeServer r
new_server = record {
  groups = [];
  user_by_device = [];
  session_id_by_user = [];
  editing_collab_by_user = [];
  client_stream_by_user = [];
  group_sender_by_object_id = [];
  runners = [];
  next_runner = 0;
}
