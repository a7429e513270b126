-- ===== src/RtServer/Invariant.antt =====
-- What lib/realtime/src/server/rt_server.rs keeps true: who is in a group is known to be editing its
-- document, and a device is in a group once.
pub mod Commands
pub mod Leaving
pub mod Run
use flow_cloud.Base.{
  ◌≡◌, Bool, true, false, not, ◌&&◌, ◌||◌, none, some, List, [], ◌∷◌, Text, Eq, ◌==◌, list_eq,
  nat_eq, arith, any, contains, Option-cases, inl, inr, beq_refl,
}
use flow_cloud.Base.Map
use flow_cloud.Base.Map.{Map, get-insert, get-remove}
use flow_cloud.Entity.Payload.{CollabApi}
use flow_cloud.RtServer.Group.{RtApi, contains_user}
use flow_cloud.RtServer.Group.Members.{AreOneEach}
use flow_cloud.RtServer.State.{Editing, editing_eq, editing_beq_iff, insert_editing, RealtimeServer}
use flow_cloud.RtServer.Commands.{add_editing}

module _ {c : CollabApi} where
  abbrev pub is_about : Text → Editing c → Bool
  is_about object_id e = e.object_id == object_id

  any-contains :
      (object_id : Text) (set : List (Editing c)) (e : Editing c)
      → contains set e ≡ true
      → is_about object_id e ≡ true
      → any (is_about object_id) set ≡ true
  any-contains object_id [] e h a = cc
  any-contains object_id (x ∷ set) e h a =
      ground (arith, any-contains object_id set e, editing_beq_iff x e)

  any-insert_editing :
      (object_id : Text) (set : List (Editing c)) (e : Editing c)
      → any (is_about object_id) (insert_editing set e)
        ≡ is_about object_id e || any (is_about object_id) set
  any-insert_editing object_id set e = ground (arith, any-contains object_id set e)

module _ {U : Type 0} ⦃user_eq : Eq U⦄ {c : CollabApi} (r : RtApi U c) where
  -- Whether the user is known to be editing the document.
  abbrev pub edits : Map U (List (Editing c)) → U → Text → Bool
  edits m user object_id = elim (Map.get m user) [
    | none ↦ false
    | some set ↦ any (is_about object_id) set
  ]

  pub edits-add_editing :
      (m : Map U (List (Editing c))) (user : U) (e : Editing c) (v : U) (object_id : Text)
      → edits (add_editing r m user e) v object_id
        ≡ (user == v && is_about object_id e) || edits m v object_id
  edits-add_editing m user e v object_id = elim (Option-cases (Map.get m user)) [
    | inl none_yet ↦
        rw none_yet (ground (arith, get-insert m user (e ∷ []) v, user_eq.beq_iff user v))
    | inr (set, found) ↦ rw found (
        ground (
          arith,
          get-insert m user (insert_editing set e) v,
          user_eq.beq_iff user v,
          any-insert_editing object_id set e,
        ))
  ]

  pub record IsSound (s : RealtimeServer r) : Type 0 where
    pub tracked :
        (object_id : Text) (user : U)
        → contains_user r s.groups object_id user ≡ true
        → edits s.editing_collab_by_user user object_id ≡ true
    pub one_each : AreOneEach r s.groups
