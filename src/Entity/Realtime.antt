-- ===== src/Entity/Realtime.antt =====
-- lib/realtime-entity/src/message.rs and user.rs: `RealtimeMessage`.
use flow_cloud.Base.{
  ℕ, ◌+◌, ◌≡◌, refl, Option, none, some, List, [], ◌∷◌, Text, Result, ok, err, ◌>>=◌, nat_eq,
  list_eq, if◌then◌else◌, arith, ◌==◌,
}
use flow_cloud.Base.Int.{ℤ}
use flow_cloud.Base.Map
use flow_cloud.Base.Map.{Map, get-insert, AreDistinct, insert-AreDistinct}
use flow_cloud.Dto.{WorkspaceMember}
use flow_cloud.Entity.Payload.{CollabApi}
use flow_cloud.Entity.Collab
use flow_cloud.Entity.Collab.{CollabMessage}
use flow_cloud.Entity.Client
use flow_cloud.Entity.Client.{ClientCollabMessage}
use flow_cloud.Entity.Server
use flow_cloud.Entity.Server.{ServerCollabMessage}
use flow_cloud.Entity.Convert.{ConvertError, cannot_convert, to_client}

pub record UserChange : Type 0 where
  pub uid : ℤ
  pub name : Option Text
  pub email : Option Text
  pub metadata : Option Text

pub record WorkspaceMemberChange : Type 0 where
  pub added : List WorkspaceMember
  pub updated : List WorkspaceMember
  pub removed : List WorkspaceMember

pub data UserMessage : Type 0 where
  profile_change : UserChange → UserMessage
  workspace_member_change : WorkspaceMemberChange → UserMessage

pub data SystemMessage : Type 0 where
  rate_limit : ℕ → SystemMessage
  kick_off : SystemMessage
  duplicate_connection : SystemMessage

abbrev pub MessageByObjectId : CollabApi → Type 0
MessageByObjectId c = Map Text (List (ClientCollabMessage c))

pub data RealtimeMessage (c : CollabApi) : Type 0 where
  collab : CollabMessage c → RealtimeMessage c
  user : UserMessage → RealtimeMessage c
  system : SystemMessage → RealtimeMessage c
  client_collab_v1 : List (ClientCollabMessage c) → RealtimeMessage c
  client_collab_v2 : MessageByObjectId c → RealtimeMessage c
  server_collab_v1 : List (ServerCollabMessage c) → RealtimeMessage c

module _ {c : CollabApi} where
  client_sizes : List (ClientCollabMessage c) → ℕ
  client_sizes [] = 0
  client_sizes (msg ∷ msgs) = Client.size msg + client_sizes msgs

  server_sizes : List (ServerCollabMessage c) → ℕ
  server_sizes [] = 0
  server_sizes (msg ∷ msgs) = Server.size msg + server_sizes msgs

  map_sizes : MessageByObjectId c → ℕ
  unfolding client_sizes
  map_sizes [] = 0
  map_sizes ((id, msgs) ∷ m) = client_sizes msgs + map_sizes m

  unfoldable pub size : RealtimeMessage c → ℕ
  unfolding client_sizes server_sizes map_sizes
  size (collab msg) = Collab.len msg
  size (user msg) = 1
  size (system msg) = 1
  size (client_collab_v1 msgs) = client_sizes msgs
  size (client_collab_v2 msgs) = map_sizes msgs
  size (server_collab_v1 msgs) = server_sizes msgs

  -- `collect` into a hash map: each pair is inserted, so a later one replaces an earlier one.
  collect_v1 : MessageByObjectId c → List (ClientCollabMessage c) → MessageByObjectId c
  collect_v1 m [] = m
  collect_v1 m (msg ∷ msgs) = collect_v1 (Map.insert m (Client.object_id msg) (msg ∷ [])) msgs

  unfoldable pub try_into_message_by_object_id :
      RealtimeMessage c → Result (MessageByObjectId c) ConvertError
  unfolding collect_v1
  try_into_message_by_object_id (collab msg) = do
    client ← to_client msg
    ok ((Collab.object_id msg, client ∷ []) ∷ [])
  try_into_message_by_object_id (client_collab_v1 msgs) = ok (collect_v1 [] msgs)
  try_into_message_by_object_id (client_collab_v2 msgs) = ok msgs
  try_into_message_by_object_id _ = err cannot_convert

  -- The last of the messages about an object.
  abbrev pub last_about :
      Text
      → Option (ClientCollabMessage c)
      → List (ClientCollabMessage c)
      → Option (ClientCollabMessage c)
  last_about id found [] = found
  last_about id found (msg ∷ msgs) =
      last_about id (if Client.object_id msg == id then some msg else found) msgs

  abbrev pub singly : Option (ClientCollabMessage c) → Option (List (ClientCollabMessage c))
  singly none = none
  singly (some msg) = some (msg ∷ [])

  get-collect_v1 :
      (id : Text) (found : Option (ClientCollabMessage c)) (m : MessageByObjectId c)
      (msgs : List (ClientCollabMessage c))
      → Map.get m id ≡ singly found
      → Map.get (collect_v1 m msgs) id ≡ singly (last_about id found msgs)
  unfolding collect_v1
  get-collect_v1 id found m [] h = h
  get-collect_v1 id found m (msg ∷ msgs) h =
      get-collect_v1 id (if Client.object_id msg == id then some msg else found)
        (Map.insert m (Client.object_id msg) (msg ∷ [])) msgs
        (ground (arith, get-insert m (Client.object_id msg) (msg ∷ []) id))

  collect_v1-AreDistinct :
      (m : MessageByObjectId c) (msgs : List (ClientCollabMessage c))
      → AreDistinct m
      → AreDistinct (collect_v1 m msgs)
  unfolding collect_v1
  collect_v1-AreDistinct m [] h = h
  collect_v1-AreDistinct m (msg ∷ msgs) h =
      collect_v1-AreDistinct (Map.insert m (Client.object_id msg) (msg ∷ [])) msgs
        (insert-AreDistinct m (Client.object_id msg) (msg ∷ []) h)

  -- The map of a `ClientCollabV1` message.
  pub v1_map :
      (msgs : List (ClientCollabMessage c))
      → (m : MessageByObjectId c) × (try_into_message_by_object_id (client_collab_v1 msgs) ≡ ok m)
        × AreDistinct m
        × ((id : Text) → Map.get m id ≡ singly (last_about id none msgs))
  unfolding try_into_message_by_object_id
  v1_map msgs = (
    collect_v1 [] msgs,
    refl,
    collect_v1-AreDistinct [] msgs tt,
    λ id. get-collect_v1 id none [] msgs refl,
  )

  abbrev pub lookup_in :
      Text → Result (MessageByObjectId c) ConvertError → Option (List (ClientCollabMessage c))
  lookup_in id (ok m) = Map.get m id
  lookup_in id (err e) = none

  -- Of a `ClientCollabV1` message the map holds, for each object, the last message about it alone:
  -- the messages about the same object that stand before it are dropped.
  pub v1_keeps_last :
      (msgs : List (ClientCollabMessage c)) (id : Text)
      → lookup_in id (try_into_message_by_object_id (client_collab_v1 msgs))
        ≡ singly (last_about id none msgs)
  unfolding try_into_message_by_object_id
  v1_keeps_last msgs id = get-collect_v1 id none [] msgs refl
