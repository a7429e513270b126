-- ===== src/RtServer/Channel/Permitted.antt =====
-- The messages of a client that reach the group of a document are those which the access control permits.
use flow_cloud.Base.{
  subst, Result, ◌≡◌, refl, Bool, Option, none, some, Bool-cases, list_beq_iff, true, not, ◌&&◌,
  ◌||◌, List, [], ◌∷◌, ◌++◌, Text, ok, err, list_eq, nat_eq, if◌then◌else◌, ◌==◌, retain, arith,
  Result-cases, inl, inr, ap, sym, ◌∙◌,
}
use flow_cloud.Entity.Payload.{CollabApi}
use flow_cloud.Entity.Client
use flow_cloud.Entity.Collab
use flow_cloud.Entity.Convert.{ConvertError, to_client}
use flow_cloud.Base.Map
use flow_cloud.Base.Map.{AreDistinct}
use flow_cloud.Entity.Client.{ClientCollabMessage}
use flow_cloud.Entity.Realtime.{
  RealtimeMessage, MessageByObjectId, try_into_message_by_object_id, collab, client_collab_v1,
  client_collab_v2, user, system, server_collab_v1, last_about, singly, v1_map,
}
use mathlib.Core.List.{append_assoc, append-nil}
use flow_cloud.RtServer.Group.{is_empty}
use flow_cloud.RtServer.Channel.{
  Answers, Received, message, lagged, unwrap_or_false, split_messages, access_control,
  forward_entries, receive, receive_messages,
}

module _ {c : CollabApi} where
  -- The rule: who may write may send anything, who may read may begin a sync.
  abbrev pub may_send : {E : Type 0} → Answers E → ClientCollabMessage c → Bool
  may_send a msg =
      unwrap_or_false a.can_write_collab
      || (Client.is_init_sync msg && unwrap_or_false a.can_read_collab)

  -- The messages of a map about an object.
  abbrev pub about : Text → MessageByObjectId c → List (ClientCollabMessage c)
  about object_id [] = []
  about object_id ((key, msgs) ∷ m) =
      if object_id == key then msgs ++ about object_id m else about object_id m

  abbrev listed : Result (MessageByObjectId c) ConvertError → MessageByObjectId c
  listed (ok m) = m
  listed (err e) = []

  abbrev pub entries : RealtimeMessage c → MessageByObjectId c
  entries msg = listed (try_into_message_by_object_id msg)

  abbrev taken : Option (List (ClientCollabMessage c)) → List (ClientCollabMessage c)
  taken none = []
  taken (some msgs) = msgs

  -- The messages about an object that a realtime message brings to the server: of the lists of the
  -- first version, the last one about it.
  abbrev pub carried : Text → RealtimeMessage c → List (ClientCollabMessage c)
  carried object_id (collab msg) =
      if object_id == Collab.object_id msg
      then elim (to_client msg) [ ok client ↦ client ∷ [] | err e ↦ [] ]
      else []
  carried object_id (client_collab_v1 msgs) = taken (singly (last_about object_id none msgs))
  carried object_id (client_collab_v2 m) = about object_id m
  carried object_id _ = []

  about-get :
      (object_id : Text) (m : MessageByObjectId c)
      → AreDistinct m
      → about object_id m ≡ taken (Map.get m object_id)
  about-get object_id [] h = refl
  about-get object_id ((key, msgs) ∷ m) h = elim (Bool-cases (object_id == key)) [
    | inl same ↦
        let eq : object_id ≡ key = (list_beq_iff object_id key).0 same in
        let rest : about object_id m ≡ [] =
          about-get object_id m h.1 ∙ ap taken (subst (λ k. Map.get m k ≡ none) (sym eq) h.0) in
        ground (arith, same, (list_beq_iff key object_id).1 (sym eq), rest, append-nil msgs)
    | inr other ↦ ground (
      arith,
      other,
      list_beq_iff object_id key,
      list_beq_iff key object_id,
      about-get object_id m h.1,
    )
  ]

  about-entries :
      (object_id : Text) (msg : RealtimeMessage c)
      → about object_id (entries msg) ≡ carried object_id msg
  unfolding try_into_message_by_object_id
  about-entries object_id (client_collab_v1 msgs) =
      let (m, made, distinct, lookup) = v1_map msgs in
      ap (λ r. about object_id (listed r)) made
      ∙ (about-get object_id m distinct ∙ ap taken (lookup object_id))
  about-entries object_id (collab msg) = elim (Result-cases (to_client msg)) [
    | inl (client, e) ↦ rw e refl
    | inr (x, e) ↦ rw e (ground arith)
  ]
  about-entries object_id (client_collab_v2 m) = refl
  about-entries object_id (user m) = refl
  about-entries object_id (system m) = refl
  about-entries object_id (server_collab_v1 m) = refl

  abbrev pub all_messages : MessageByObjectId c → List (ClientCollabMessage c)
  all_messages [] = []
  all_messages ((key, msgs) ∷ m) = msgs ++ all_messages m

  all_messages-append :
      (m n : MessageByObjectId c) → all_messages (m ++ n) ≡ all_messages m ++ all_messages n
  all_messages-append [] n = refl
  all_messages-append ((key, msgs) ∷ m) n =
      ap (λ l. msgs ++ l) (all_messages-append m n)
      ∙ sym (append_assoc msgs (all_messages m) (all_messages n))

  is_empty-eq : (msgs : List (ClientCollabMessage c)) → is_empty msgs ≡ true → msgs ≡ []
  is_empty-eq [] h = refl
  is_empty-eq (x ∷ xs) h = cc

  pub retain-append :
      (p : ClientCollabMessage c → Bool) (xs ys : List (ClientCollabMessage c))
      → retain p (xs ++ ys) ≡ retain p xs ++ retain p ys
  retain-append p [] ys = refl
  retain-append p (x ∷ xs) ys = ground (arith, retain-append p xs ys)

module _ {c : CollabApi} {E : Type 0} (a : Answers E) where
  -- The messages are split into those that the rule permits and those that it does not, both in their
  -- order.
  pub access_control-IsRule :
      (msgs : List (ClientCollabMessage c))
      → access_control a msgs
        ≡ (retain (may_send a) msgs, retain (λ msg. not (may_send a msg)) msgs)
  unfolding access_control split_messages
  access_control-IsRule [] = refl
  access_control-IsRule (msg ∷ msgs) = ground (arith, access_control-IsRule msgs)

  forward-entry :
      (key : Text) (valid : List (ClientCollabMessage c)) (rest : MessageByObjectId c)
      → all_messages (if is_empty valid then rest else (key, valid) ∷ rest)
        ≡ valid ++ all_messages rest
  forward-entry key [] rest = refl
  forward-entry key (msg ∷ valid) rest = refl

  all_messages-forward_entries :
      (object_id : Text) (m : MessageByObjectId c)
      → all_messages (forward_entries object_id a m)
        ≡ (if a.is_open then retain (may_send a) (about object_id m) else [])
  unfolding forward_entries
  all_messages-forward_entries object_id [] = ground arith
  all_messages-forward_entries object_id ((key, msgs) ∷ m) = ground (
    arith,
    all_messages-forward_entries object_id m,
    forward-entry key (access_control a msgs).0 (forward_entries object_id a m),
    access_control-IsRule msgs,
    retain-append (may_send a) msgs (about object_id m),
    is_empty-eq (access_control a msgs).0,
  )

module _ {c : CollabApi} {E : Type 0} where
  -- The permitted messages about an object, up to a lag.
  abbrev pub permitted : Text → List (Received c × Answers E) → List (ClientCollabMessage c)
  permitted object_id [] = []
  permitted object_id ((message msg, a) ∷ more) =
      (if a.is_open then retain (may_send a) (carried object_id msg) else [])
      ++ permitted object_id more
  permitted object_id ((lagged, a) ∷ more) = []

  receive-IsPermitted :
      (object_id : Text) (a : Answers E) (msg : RealtimeMessage c)
      → all_messages (receive object_id a msg)
        ≡ (if a.is_open then retain (may_send a) (carried object_id msg) else [])
  unfolding receive
  receive-IsPermitted object_id a msg =
      rw (sym (about-entries object_id msg))
        elim (Result-cases (try_into_message_by_object_id msg)) [
          | inl (m, e) ↦ rw (receive, e, entries) (all_messages-forward_entries a object_id m)
          | inr (x, e) ↦ rw (receive, e, entries) (ground arith)
        ]

  -- The group of a document gets, until the task lags behind, exactly those messages about this
  -- document that are permitted at their time and that come while the group reads the channel, in their
  -- order: any message of a user who may write, and of a user who may read those that begin a sync. Of
  -- the messages in one `ClientCollabV1` that are about the document, the last alone counts, whether
  -- it is permitted or not; the others never arrive.
  pub receive_messages-IsPermitted :
      (object_id : Text) (received : List (Received c × Answers E))
      → all_messages (receive_messages object_id received) ≡ permitted object_id received
  unfolding receive_messages
  receive_messages-IsPermitted object_id [] = refl
  receive_messages-IsPermitted object_id ((message msg, a) ∷ more) =
      all_messages-append (receive object_id a msg) (receive_messages object_id more)
      ∙ rw (receive-IsPermitted object_id a msg, receive_messages-IsPermitted object_id more)
  receive_messages-IsPermitted object_id ((lagged, a) ∷ more) = refl
