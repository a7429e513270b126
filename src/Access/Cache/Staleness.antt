-- ===== src/Access/Cache/Staleness.antt =====
-- When what `can_perform_action` of src/biz/casbin/collab_ac.rs remembers is, and is not, what the
-- enforcer says.
use flow_cloud.Base.{
  ◌≡◌, refl, sym, ◌∙◌, ap, Bool, true, false, none, some, [], ◌∷◌, ◌++◌, Text, Result, ok, err,
  list_eq, nat_eq, codes, ◌==◌, beq_refl, arith, inl, inr, subst, ◌⊎◌,
}
use flow_cloud.Base.Int.{ℤ}
use flow_cloud.Base.Decimal.{print_ℤ}
use flow_cloud.Base.Map.{Map, get, remove, get-insert, get-remove}
use flow_cloud.Access.Casbin.{Casbin, IsLawful}
use flow_cloud.Access.Action.{Action, read, cmp, collab, from_action}
use flow_cloud.Access.Enforcer.{AppError}
use flow_cloud.Access.Control.{
  AccessControl, AccessControlChange, update_change, remove_change, enforce, remove_role,
}
use flow_cloud.Access.Control.Roles.{remove_role-Keeps}
use flow_cloud.Access.Cache.{
  RealtimeAccessControl, cache_key, change, handle_change, receive_loop, can_perform_action,
  can_read_collab, can_write_collab, lookup_or_enforce, remember,
}

same_prefix : (p xs ys : Text) → ((p ++ xs) == (p ++ ys)) ≡ (xs == ys)
same_prefix [] xs ys = refl
same_prefix (x ∷ p) xs ys = rw (beq_refl x) (same_prefix p xs ys)

-- The keys of one user are told apart by the object.
keys_differ :
    (uid : ℤ) (a b : Text) → (a == b) ≡ false → (cache_key uid a == cache_key uid b) ≡ false
unfolding cache_key
keys_differ uid a b h = same_prefix (print_ℤ uid ++ codes ":") a b ∙ h

key_same : (uid : ℤ) (a : Text) → (cache_key uid a == cache_key uid a) ≡ true
key_same uid a = beq_refl (cache_key uid a)

remember_result :
    {c : Casbin} (m : Map Text Action) (key : Text) (action : Action)
    (r : AccessControl c × Result Bool AppError)
    → (remember m key action r).1 ≡ r.1
unfolding remember
remember_result m key action (ac, ok true) = refl
remember_result m key action (ac, ok false) = refl
remember_result m key action (ac, err x) = refl

-- After a permitted read that was not remembered yet, every write of the user on the object is denied
-- until a change is received, whatever the policies say.
pub can_read-HidesWrite :
    (c : Casbin) (s s' : RealtimeAccessControl c) (workspace_id later_id : Text) (uid : ℤ)
    (oid : Text)
    → get s.action_by_oid (cache_key uid oid) ≡ none
    → can_read_collab true s workspace_id uid oid ≡ (s', ok true)
    → can_write_collab true s' later_id uid oid ≡ (s', ok false)
unfolding can_read_collab can_write_collab can_perform_action lookup_or_enforce remember cmp
can_read-HidesWrite c s s' workspace_id later_id uid oid unknown h =
    rw
      (remembered (enforce true s.access_control workspace_id uid (collab oid) (from_action read))
        (subst (λ o. lookup_or_enforce o s workspace_id uid oid read ≡ (s', ok true)) unknown h))
      refl
  where
    remembered :
        (r : AccessControl c × Result Bool AppError)
        → remember s.action_by_oid (cache_key uid oid) read r ≡ (s', ok true)
        → get s'.action_by_oid (cache_key uid oid) ≡ some read
    remembered (ac, ok true) k =
        ap (λ o. get o.0.action_by_oid (cache_key uid oid)) (sym k)
        ∙ get-insert s.action_by_oid (cache_key uid oid) read (cache_key uid oid)
        ∙ rw (key_same uid oid) refl
    remembered (ac, ok false) k = ground (arith, k)
    remembered (ac, err x) k = ground (arith, k)

-- Once the change of a user on an object is received, what the user is told about the object is what
-- the enforcer says, and not what was remembered.
pub handle_change-Fresh :
    (c : Casbin) (s : RealtimeAccessControl c) (workspace_id : Text) (uid : ℤ) (oid : Text)
    (required : Action)
    → (x : AccessControlChange) → (x ≡ update_change uid oid) ⊎ (x ≡ remove_change uid oid)
    → (can_perform_action true
        (record s { action_by_oid = handle_change s.action_by_oid x })
        workspace_id
        uid
        oid
        required).1
      ≡ (enforce true s.access_control workspace_id uid (collab oid) (from_action required)).1
unfolding can_perform_action handle_change lookup_or_enforce
handle_change-Fresh c s workspace_id uid oid required x h = elim h [
  | inl e ↦ rw (e, forgotten) (remember_result _ _ _ _)
  | inr e ↦ rw (e, forgotten) (remember_result _ _ _ _)
]
  where
    forgotten : get (remove s.action_by_oid (cache_key uid oid)) (cache_key uid oid) ≡ none
    forgotten =
        get-remove s.action_by_oid (cache_key uid oid) (cache_key uid oid)
        ∙ rw (key_same uid oid) refl

-- With a lawful casbin, the changes that `remove_role` sends name the workspace only: what is
-- remembered of the user on a collab of another id stays.
pub remove_role-LeavesCached :
    (c : Casbin)
    → IsLawful c
    → (s : RealtimeAccessControl c) (uid : ℤ) (workspace_id oid : Text)
    → (workspace_id == oid) ≡ false
    → ((remove_role true s.access_control uid workspace_id).0.sent
        ≡ (s.access_control.sent ++ remove_change uid workspace_id ∷ [])
          ++ remove_change uid workspace_id ∷ [])
      × (get
            (receive_loop s.action_by_oid (
              change (remove_change uid workspace_id)
              ∷ change (remove_change uid workspace_id)
              ∷ []))
            (cache_key uid oid)
          ≡ get s.action_by_oid (cache_key uid oid))
unfolding receive_loop handle_change
remove_role-LeavesCached c lawful s uid workspace_id oid h = (
  ap (λ o. o.0.sent) (remove_role-Keeps c lawful s.access_control uid workspace_id),
  kept _ ∙ kept _,
)
  where
    kept :
        (m : Map Text Action)
        → get (remove m (cache_key uid workspace_id)) (cache_key uid oid)
          ≡ get m (cache_key uid oid)
    kept m =
        get-remove m (cache_key uid workspace_id) (cache_key uid oid)
        ∙ rw (keys_differ uid workspace_id oid h) refl
