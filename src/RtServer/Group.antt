-- ===== src/RtServer/Group.antt =====
-- lib/realtime/src/server/collaborate/group.rs and all_group.rs: the subscribers of a document, and the
-- groups of all documents.
pub mod Devices
pub mod Members
pub mod Ticks
use flow_cloud.Base.{
  ℕ, ◌-◌, ◌*◌, Bool, true, false, ◌&&◌, none, some, List, [], ◌∷◌, ◌++◌, Text, codes, ltb, length,
  Eq, list_eq, nat_eq, if◌then◌else◌,
}
use flow_cloud.Base.Int.{ℤ}
use flow_cloud.Base.Decimal.{print_ℤ}
use flow_cloud.Base.Map
use flow_cloud.Base.Map.{Map}
use flow_cloud.Entity.Payload.{CollabApi}

-- The variants of `CollabType`.
pub data CollabKind : Type 0 where
  document database database_row workspace_database folder user_awareness : CollabKind

-- The trait `RealtimeUser`, the recipient of a connection, and what a group takes of the crate collab. `open_collab` is a new document
-- after its plugin has loaded it.
pub record RtApi (U : Type 0) (c : CollabApi) : Type 1 where
  pub uid : U → ℤ
  pub device_id : U → Text
  pub kind : c.CollabType → CollabKind
  pub Socket : Type 0
  pub Doc : Type 0
  pub EncodedCollab : Type 0
  pub open_collab : ℤ → Text → Text → c.CollabType → Doc
  pub encode_collab_v1 : Doc → EncodedCollab

-- A subscription, with what stops its two tasks, unless it has been used.
pub record Subscription (c : CollabApi) : Type 0 where
  pub origin : c.Origin
  pub sink_stop : Bool
  pub stream_stop : Bool

module _ {c : CollabApi} where
  unfoldable pub subscription : c.Origin → Subscription c
  subscription origin = record { origin = origin; sink_stop = true; stream_stop = true }

  unfoldable pub stop_subscription : Subscription c → Subscription c
  stop_subscription s = record s { sink_stop = false; stream_stop = false }

-- `modified_at` is in seconds.
pub record CollabGroup {U : Type 0} {c : CollabApi} (r : RtApi U c) : Type 0 where
  pub workspace_id : Text
  pub object_id : Text
  pub collab : r.Doc
  pub collab_type : c.CollabType
  pub modified_at : ℕ
  pub subscribers : Map U (Subscription c)
  pub user_by_user_device : Map Text U

abbrev pub Groups : {U : Type 0} {c : CollabApi} → RtApi U c → Type 0
Groups r = Map Text (CollabGroup r)

abbrev pub is_empty : {A : Type 0} → List A → Bool
is_empty [] = true
is_empty (x ∷ xs) = false

unfoldable pub timeout_secs : CollabKind → ℕ
timeout_secs document = 10 * 60
timeout_secs database = 60 * 60
timeout_secs database_row = 60 * 60
timeout_secs workspace_database = 2 * 60 * 60
timeout_secs folder = 2 * 60 * 60
timeout_secs user_awareness = 2 * 60 * 60

module _ {U : Type 0} ⦃user_eq : Eq U⦄ {c : CollabApi} (r : RtApi U c) where
  unfoldable pub user_device : U → Text
  user_device user = print_ℤ (r.uid user) ++ codes "-" ++ r.device_id user

  unfoldable pub new_group : ℕ → Text → Text → c.CollabType → r.Doc → CollabGroup r
  new_group now workspace_id object_id collab_type collab = record {
    workspace_id = workspace_id;
    object_id = object_id;
    collab = collab;
    collab_type = collab_type;
    modified_at = now;
    subscribers = [];
    user_by_user_device = [];
  }

  unfoldable pub group_contains_user : CollabGroup r → U → Bool
  group_contains_user g user = Map.contains_key g.subscribers user

  unfoldable pub group_remove_user : CollabGroup r → U → CollabGroup r
  group_remove_user g user = record g { subscribers = Map.remove g.subscribers user }

  -- The old user of the device, whose subscription is stopped and taken out.
  unfoldable pub remove_old_user : CollabGroup r → Text → CollabGroup r
  remove_old_user g device = elim (Map.get g.user_by_user_device device) [
    | none ↦ g
    | some old ↦ record g {
      subscribers = Map.remove g.subscribers old;
      user_by_user_device = Map.remove g.user_by_user_device device;
    }
  ]

  unfoldable pub subscribe : CollabGroup r → U → c.Origin → CollabGroup r
  subscribe g user origin =
      let g' = remove_old_user g (user_device user) in
      record g' {
        user_by_user_device = Map.insert g'.user_by_user_device (user_device user) user;
        subscribers = Map.insert g'.subscribers user (subscription origin);
      }

  unfoldable pub is_inactive : Bool → ℕ → CollabGroup r → Bool
  is_inactive debug_assertions now g =
      ltb (if debug_assertions then 60 else timeout_secs (r.kind g.collab_type))
        (now - g.modified_at)
      && is_empty g.subscribers

  unfoldable pub stop_all : Map U (Subscription c) → Map U (Subscription c)
  stop_all [] = []
  stop_all ((user, s) ∷ m) = (user, stop_subscription s) ∷ stop_all m

  unfoldable pub stop : CollabGroup r → CollabGroup r
  stop g = record g { subscribers = stop_all g.subscribers }

  -- AllGroup. What is flushed is the document of a group.
  unfoldable pub contains_group : Groups r → Text → Bool
  contains_group groups object_id = Map.contains_key groups object_id

  unfoldable pub contains_user : Groups r → Text → U → Bool
  contains_user groups object_id user = elim (Map.get groups object_id) [
    | none ↦ false
    | some g ↦ group_contains_user g user
  ]

  unfoldable pub remove_user : Groups r → Text → U → Groups r
  remove_user groups object_id user = elim (Map.get groups object_id) [
    | none ↦ groups
    | some g ↦ Map.insert groups object_id (group_remove_user g user)
  ]

  unfoldable pub create_group : Groups r → ℕ → ℤ → Text → Text → c.CollabType → Groups r
  create_group groups now uid workspace_id object_id collab_type = Map.insert groups object_id (
      new_group now workspace_id object_id collab_type
        (r.open_collab uid workspace_id object_id collab_type))

  -- The search for inactive groups, which ends when it has found more than 5.
  unfoldable pub find_inactive : Bool → ℕ → List Text → Groups r → List Text
  find_inactive debug_assertions now found [] = found
  find_inactive debug_assertions now found ((object_id, g) ∷ groups) =
      let found' = if is_inactive debug_assertions now g then found ++ object_id ∷ [] else found in
      let rest = find_inactive debug_assertions now found' groups in
      if is_inactive debug_assertions now g && ltb 5 (length found') then found' else rest

  -- The groups without those of the list, and the documents that are flushed.
  unfoldable pub remove_groups : Groups r → List Text → Groups r × List (Text × r.Doc)
  remove_groups groups [] = (groups, [])
  remove_groups groups (object_id ∷ ids) =
      let rest = remove_groups (Map.remove groups object_id) ids in
      (
        rest.0,
        elim (Map.get groups object_id) [
          | none ↦ rest.1
          | some g ↦ (object_id, (stop g).collab) ∷ rest.1
        ],
      )

  unfoldable pub tick : Bool → ℕ → Groups r → List Text × Groups r × List (Text × r.Doc)
  tick debug_assertions now groups =
      let ids = find_inactive debug_assertions now [] groups in
      let rest = remove_groups groups ids in (ids, rest.0, rest.1)
