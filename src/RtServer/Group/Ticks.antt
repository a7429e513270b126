-- ===== src/RtServer/Group/Ticks.antt =====
-- The periodic check of lib/realtime/src/server/collaborate/all_group.rs removes few groups, none of
-- which has a subscriber.
use flow_cloud.Base.{
  ℕ, ◌≤◌, ◌≡◌, refl, Bool, true, false, ◌&&◌, none, some, List, [], ◌∷◌, ◌++◌, Text, Eq, list_eq,
  nat_eq, arith, All, All-append, contains, length, length-append, list_beq_iff, Option-cases, inl,
  inr, if◌then◌else◌, ltb, beq_refl, if_split,
}
use flow_cloud.Base.Map
use flow_cloud.Base.Map.{AreDistinct, get-tail}
use flow_cloud.Entity.Payload.{CollabApi}
use flow_cloud.RtServer.Group.{
  RtApi, CollabGroup, Groups, is_empty, is_inactive, group_contains_user, contains_user,
  find_inactive, tick, remove_groups, Subscription,
}
use flow_cloud.RtServer.Group.Members.{contains_user-remove_groups}

module _ {U : Type 0} ⦃user_eq : Eq U⦄ {c : CollabApi} (r : RtApi U c) (debug : Bool)
    (now : ℕ) where
  -- The group of the document is there, and inactive.
  abbrev pub inactive_in : Groups r → Text → Bool
  inactive_in groups object_id = elim (Map.get groups object_id) [
    | none ↦ false
    | some g ↦ is_inactive r debug now g
  ]

  length-find_inactive :
      (found : List Text) (groups : Groups r)
      → length found ≤ 5
      → length (find_inactive r debug now found groups) ≤ 6
  unfolding find_inactive
  length-find_inactive found [] h = omega arith
  length-find_inactive found ((key, g) ∷ groups) h = ground (
    arith,
    length-append found (key ∷ []),
    length-find_inactive found groups,
    length-find_inactive (found ++ key ∷ []) groups,
  )

  find_inactive-All :
      (all : Groups r) (found : List Text) (groups : Groups r)
      → ((id : Text) (g : CollabGroup r) → Map.get groups id ≡ some g → Map.get all id ≡ some g)
      → AreDistinct groups
      → All (λ id. inactive_in all id ≡ true) found
      → All (λ id. inactive_in all id ≡ true) (find_inactive r debug now found groups)
  unfolding find_inactive
  find_inactive-All all found [] sub d h = h
  find_inactive-All all found ((key, g) ∷ groups) sub d h =
      let found' = if is_inactive r debug now g then found ++ key ∷ [] else found in
      let known = sub key g (rw (beq_refl key) refl) in
      let h' =
        if_split (All (λ id. inactive_in all id ≡ true)) (is_inactive r debug now g)
          (found ++ key ∷ []) found
          (λ yes_inactive.
            All-append _ found (key ∷ []) h (rw (known, inactive_in) yes_inactive, tt))
          (λ _. h) in
      if_split (All (λ id. inactive_in all id ≡ true))
        (is_inactive r debug now g && ltb 5 (length found')) _ _ (λ _. h')
        (λ _.
          find_inactive-All all found' groups
            (λ id g' e. sub id g' (get-tail key g groups id g' d.0 e)) d.1 h')

  is_inactive-empty :
      (g : CollabGroup r) → is_inactive r debug now g ≡ true → is_empty g.subscribers ≡ true
  unfolding is_inactive
  is_inactive-empty g h = ground arith

  empty-has_none :
      (g : CollabGroup r) (v : U)
      → is_empty g.subscribers ≡ true
      → group_contains_user r g v ≡ false
  unfolding group_contains_user
  empty-has_none g v h = none_in g.subscribers h
    where
      none_in : (m : List (U × Subscription c)) → is_empty m ≡ true → Map.contains_key m v ≡ false
      none_in [] h = refl
      none_in (x ∷ m) h = cc

  inactive_in-empty :
      (groups : Groups r) (object_id : Text) (v : U)
      → inactive_in groups object_id ≡ true
      → contains_user r groups object_id v ≡ false
  unfolding contains_user
  inactive_in-empty groups object_id v h = elim (Option-cases (Map.get groups object_id)) [
    | inl e ↦ ground arith
    | inr (g, e) ↦ rw (contains_user, e) (empty-has_none g v (ground (arith, is_inactive-empty g)))
  ]

  not_in-All :
      (p : Text → Bool) (ids : List Text) (id : Text)
      → All (λ i. p i ≡ true) ids
      → p id ≡ false
      → contains ids id ≡ false
  not_in-All p [] id h n = refl
  not_in-All p (i ∷ ids) id h n = ground (arith, list_beq_iff i id, not_in-All p ids id h.1 n)

  kept :
      (groups : Groups r) (ids : List Text)
      → All (λ id. inactive_in groups id ≡ true) ids
      → (object_id : Text) (v : U)
      → contains_user r (remove_groups r groups ids).0 object_id v
        ≡ contains_user r groups object_id v
  kept groups ids inactive object_id v = ground (
    arith,
    contains_user-remove_groups r groups ids object_id v,
    inactive_in-empty groups object_id v,
    not_in-All (inactive_in groups) ids object_id inactive,
  )

  -- Of groups with distinct keys, a check finds at most six, all inactive, and nobody who was in a
  -- group before is out of it afterwards.
  pub tick-KeepsMembers :
      (groups : Groups r)
      → AreDistinct groups
      → (length (tick r debug now groups).0 ≤ 6)
        × All (λ id. inactive_in groups id ≡ true) (tick r debug now groups).0
        × ((object_id : Text) (v : U)
            → contains_user r (tick r debug now groups).1 object_id v
              ≡ contains_user r groups object_id v)
  unfolding tick
  tick-KeepsMembers groups d =
      let ids = find_inactive r debug now [] groups in
      let inactive = find_inactive-All groups [] groups (λ id g e. e) d tt in
      (
        length-find_inactive [] groups (omega arith),
        inactive,
        λ object_id v. kept groups ids inactive object_id v,
      )
