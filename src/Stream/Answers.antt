-- ===== src/Stream/Answers.antt =====
-- The answers of Redis that lib/collab-stream/src/model.rs reads.
use flow_cloud.Base.{
  ◌≡◌, ◌<◌, refl, ap, ◌∙◌, true, false, some, List, [], ◌∷◌, ◌++◌, Text, Result, ok, list_eq,
  nat_eq, ◌==◌, codes, map, All, arith, list_beq_iff,
}
use mathlib.Core.List.{append-nil, append_assoc}
use flow_cloud.Base.Int.{ℤ}
use flow_cloud.Base.Map.{Map}
use flow_cloud.Protocol.Codec.{Bytes}
use flow_cloud.Stream.{
  RedisApi, MessageId, StreamError, to_string, to_be_bytes, Message, StreamMessage,
  into_tuple_array, try_from_bytes, id_from_value, bulk_from_value, verify_field, string_from_value,
  uid_from_value, data_from_value, fields_from_values, message_from_values, message_from_value,
  push_message, push_values, push_stream, push_streams, streams_from_value, consumer_messages,
}
use flow_cloud.Stream.Ids.{
  InRange, to_string-ascii, try_from_text-to_string, IsI64, from_be_bytes-to_be_bytes,
  length-to_be_bytes,
}

-- How Redis writes its answers: what the crate's conversions find in bytes and in lists, for the
-- texts that are UTF-8.
pub record Answering (r : RedisApi) : Type 0 where
  pub of_data : Bytes → r.Value
  pub of_bulk : List r.Value → r.Value
  pub as_data-of_data : (b : Bytes) → r.as_data (of_data b) ≡ some b
  pub as_bulk-of_bulk : (vs : List r.Value) → r.as_bulk (of_bulk vs) ≡ some vs
  pub is_nil-of_bulk : (vs : List r.Value) → r.is_nil (of_bulk vs) ≡ false
  pub vec_from-of_data : (b : Bytes) → r.vec_from (of_data b) ≡ some b
  pub string_from-of_data : (b : Bytes) → r.string_from (of_data b) ≡ r.from_utf8 b
  pub from_utf8-ascii : (t : Text) → All (λ c. c < 128) t → r.from_utf8 t ≡ some t

module _ (r : RedisApi) (a : Answering r) where
  -- The fields that were added, in their order.
  abbrev pub values_of : List (Text × Bytes) → List r.Value
  values_of [] = []
  values_of ((field, value) ∷ fields) = a.of_data field ∷ a.of_data value ∷ values_of fields

  -- A message as it was added under an id.
  abbrev pub entry : MessageId × Message → r.Value
  entry (id, msg) =
      a.of_bulk (a.of_data (to_string id) ∷ a.of_bulk (values_of (into_tuple_array msg)) ∷ [])

  abbrev pub stamped : MessageId × Message → StreamMessage
  stamped (id, msg) = record { uid = msg.uid; raw_data = msg.raw_data; message_id = id }

  -- The answer with the messages of one stream.
  abbrev pub reply : Text → List (MessageId × Message) → r.Value
  reply key msgs = a.of_bulk (a.of_bulk (a.of_data key ∷ a.of_bulk (map entry msgs) ∷ []) ∷ [])

  abbrev pub Fits : MessageId × Message → Type 0
  Fits (id, msg) = InRange id × IsI64 msg.uid

  verify-text : (t : Text) → All (λ c. c < 128) t → verify_field r (a.of_data t) t ≡ ok tt
  unfolding verify_field
  verify-text t h =
      let read : r.string_from (a.of_data t) ≡ some t =
        a.string_from-of_data t ∙ a.from_utf8-ascii t h in
      let same : (t == t) ≡ true = (list_beq_iff t t).1 refl in rw (verify_field, read, same) refl

  uid-of_data : (uid : ℤ) → IsI64 uid → uid_from_value r (a.of_data (to_be_bytes uid)) ≡ ok uid
  unfolding uid_from_value
  uid-of_data uid h =
      rw
        (
          uid_from_value,
          a.as_data-of_data (to_be_bytes uid),
          length-to_be_bytes uid,
          from_be_bytes-to_be_bytes uid h,
        )
        refl

  fields-of_values :
      (id : MessageId) (msg : Message)
      → IsI64 msg.uid
      → fields_from_values r id (values_of (into_tuple_array msg)) ≡ ok (stamped (id, msg))
  unfolding fields_from_values into_tuple_array data_from_value
  fields-of_values id msg h =
      rw
        (
          verify-text (codes "uid") (omega arith),
          uid-of_data msg.uid h,
          verify-text (codes "data") (omega arith),
          data_from_value,
          a.vec_from-of_data msg.raw_data,
        )
        refl

  id-of_data : (id : MessageId) → InRange id → id_from_value r (a.of_data (to_string id)) ≡ ok id
  unfolding id_from_value try_from_bytes
  id-of_data id h =
      let read : try_from_bytes r (to_string id) ≡ ok id =
        rw
          (
            try_from_bytes,
            a.from_utf8-ascii (to_string id) (to_string-ascii id),
            try_from_text-to_string id h,
          )
          refl in
      rw (id_from_value, a.as_data-of_data (to_string id), read) refl

  bulk-of_bulk : (vs : List r.Value) → bulk_from_value r (a.of_bulk vs) ≡ ok vs
  unfolding bulk_from_value
  bulk-of_bulk vs = rw (bulk_from_value, a.as_bulk-of_bulk vs) refl

  -- A message is read back as it was added.
  message-entry :
      (m : MessageId × Message) → Fits m → message_from_value r (entry m) ≡ ok (stamped m)
  unfolding message_from_value message_from_values
  message-entry (id, msg) (id_fits, uid_fits) =
      let fields = values_of (into_tuple_array msg) in
      rw
        (
          message_from_value,
          bulk-of_bulk (a.of_data (to_string id) ∷ a.of_bulk fields ∷ []),
          id-of_data id id_fits,
          bulk-of_bulk fields,
          fields-of_values id msg uid_fits,
        )
        refl

  push-same :
      (key : Text) (done : List StreamMessage) (msg : StreamMessage)
      → push_message r ((key, done) ∷ []) key msg ≡ (key, done ++ msg ∷ []) ∷ []
  unfolding push_message
  push-same key done msg =
      let same : (key == key) ≡ true = (list_beq_iff key key).1 refl in rw (push_message, same) refl

  push_values-entries :
      (key : Text) (done : List StreamMessage) (msgs : List (MessageId × Message))
      → All Fits msgs
      → push_values r ((key, done) ∷ []) key (map entry msgs)
        ≡ ok ((key, done ++ map stamped msgs) ∷ [])
  unfolding push_values
  push_values-entries key done [] fits = rw (append-nil done) refl
  push_values-entries key done (m ∷ msgs) (fit, fits) =
      rw (message-entry m fit, push-same key done (stamped m))
        (push_values-entries key (done ++ stamped m ∷ []) msgs fits
          ∙ ap (λ (l : List StreamMessage). ok ((key, l) ∷ []))
              (append_assoc done (stamped m ∷ []) (map stamped msgs)))

  abbrev one_stream : Text → List StreamMessage → Map Text (List StreamMessage)
  one_stream key [] = []
  one_stream key (m ∷ msgs) = (key, m ∷ msgs) ∷ []

  push_values-map :
      (key : Text) (msgs : List (MessageId × Message))
      → All Fits msgs
      → push_values r [] key (map entry msgs) ≡ ok (one_stream key (map stamped msgs))
  unfolding push_values push_message
  push_values-map key [] fits = refl
  push_values-map key (m ∷ msgs) (fit, fits) =
      rw (message-entry m fit) (push_values-entries key (stamped m ∷ []) msgs fits)

  -- The messages of a stream that were added under ids, and that Redis answers with their ids in
  -- one reply, are read back as they were, in their order: with no message left out and none
  -- changed, for user ids and message ids that fit into their types.
  pub consumer_messages-reply :
      (key : Text) (msgs : List (MessageId × Message))
      → r.from_utf8 key ≡ some key
      → All Fits msgs
      → consumer_messages r (reply key msgs) ≡ ok (map stamped msgs)
  unfolding consumer_messages streams_from_value push_streams push_stream string_from_value
      push_values push_message
  consumer_messages-reply key msgs text fits =
      let entries = a.of_bulk (map entry msgs) in
      rw
        (
          consumer_messages,
          streams_from_value,
          a.is_nil-of_bulk (a.of_bulk (a.of_data key ∷ entries ∷ []) ∷ []),
          bulk-of_bulk (a.of_bulk (a.of_data key ∷ entries ∷ []) ∷ []),
          bulk-of_bulk (a.of_data key ∷ entries ∷ []),
          string_from_value,
          a.as_data-of_data key,
          text,
          bulk-of_bulk (map entry msgs),
          push_values-map key msgs fits,
        )
        (first (map stamped msgs))
    where
      first :
          (l : List StreamMessage)
          → ◌≡◌ {A = Result (List StreamMessage) StreamError}
              (ok
                (elim (one_stream key l) as (λ _. List StreamMessage) [ [] ↦ [] | e ∷ more ↦ e.1 ]))
              (ok l)
      first [] = refl
      first (m ∷ l) = refl
