-- ===== src/Stream.antt =====
-- lib/collab-stream/src: model.rs, the ids and messages of a Redis stream, and what stream.rs and
-- stream_group.rs make of an answer of Redis.
pub mod Ids
pub mod Answers
use flow_cloud.Base.{
  ℕ, zero, suc, ◌+◌, ◌-◌, ◌*◌, ◌/◌, ◌%◌, ◌^◌, ◌≡◌, ◌<◌, Bool, true, false, not, Option, none, some,
  List, [], ◌∷◌, ◌++◌, Text, Result, ok, err, ◌>>=◌, ◌>>◌, ltb, list_eq, nat_eq, ◌==◌,
  if◌then◌else◌, codes, length, map, All,
}
use flow_cloud.Base.Int.{ℤ, pos, negsuc}
use flow_cloud.Base.Decimal.{print_ℕ, parse_unsigned}
use flow_cloud.Base.Map
use flow_cloud.Base.Map.{Map}
use flow_cloud.Protocol.Codec.{Bytes}

-- A value of the crate redis, by what its conversions find in it, and the text of bytes that are
-- UTF-8. A text is its bytes.
pub record RedisApi : Type 1 where
  pub Value : Type 0
  pub is_nil : Value → Bool
  pub as_data : Value → Option Bytes
  pub as_bulk : Value → Option (List Value)
  pub string_from : Value → Option Text
  pub vec_from : Value → Option Bytes
  pub from_utf8 : Bytes → Option Text

-- Of `StreamError` and `RedisError`, what the code here makes.
pub data StreamError : Type 0 where
  utf8_error invalid_format parse_int_error expected_data expected_bulk invalid_length invalid_field
        redis_error unexpected_value :
      StreamError

pub record MessageId : Type 0 where
  pub timestamp_ms : ℕ
  pub sequence_number : ℕ

unfoldable pub to_string : MessageId → Text
to_string id = print_ℕ id.timestamp_ms ++ (codes "-" ++ print_ℕ id.sequence_number)

unfoldable pub sub_ms : MessageId → ℕ → MessageId
sub_ms id ms =
    if ltb id.timestamp_ms ms then id else record id { timestamp_ms = id.timestamp_ms - ms }

-- `splitn(2, '-')`, if it has two parts.
unfoldable pub split_hyphen : Text → Option (Text × Text)
split_hyphen [] = none
split_hyphen (d ∷ ds) =
    let rest = split_hyphen ds in
    if d == b'-'
    then some ([], ds)
    else elim rest [ none ↦ none | some parts ↦ some (d ∷ parts.0, parts.1) ]

unfoldable pub try_from_text : Text → Result MessageId StreamError
try_from_text s = elim (split_hyphen s) [
  | none ↦ err invalid_format
  | some parts ↦ elim (parse_unsigned (2 ^ 64 - 1) parts.0) [
    | none ↦ err parse_int_error
    | some timestamp_ms ↦ elim (parse_unsigned (2 ^ 16 - 1) parts.1) [
      | none ↦ err parse_int_error
      | some sequence_number ↦
          ok (record { timestamp_ms = timestamp_ms; sequence_number = sequence_number })
    ]
  ]
]

-- The big-endian bytes of an unsigned number.
unfoldable pub be_bytes : ℕ → ℕ → Bytes
be_bytes zero n = []
be_bytes (suc k) n = be_bytes k (n / 256) ++ (n % 256) ∷ []

unfoldable pub be_number : ℕ → Bytes → ℕ
be_number acc [] = acc
be_number acc (b ∷ bs) = be_number (acc * 256 + b) bs

-- `i64::to_be_bytes` and `i64::from_be_bytes`, in two's complement.
unfoldable pub to_be_bytes : ℤ → Bytes
to_be_bytes (pos n) = be_bytes 8 n
to_be_bytes (negsuc n) = be_bytes 8 (2 ^ 64 - 1 - n)

unfoldable pub from_be_bytes : Bytes → ℤ
from_be_bytes bytes =
    let n = be_number 0 bytes in if ltb n (2 ^ 63) then pos n else negsuc (2 ^ 64 - 1 - n)

pub record Message : Type 0 where
  pub uid : ℤ
  pub raw_data : Bytes

pub record StreamMessage : Type 0 where
  pub uid : ℤ
  pub raw_data : Bytes
  pub message_id : MessageId

unfoldable pub into_message : StreamMessage → Message
into_message m = record { uid = m.uid; raw_data = m.raw_data }

unfoldable pub into_tuple_array : Message → List (Text × Bytes)
into_tuple_array m = (codes "uid", to_be_bytes m.uid) ∷ (codes "data", m.raw_data) ∷ []

module _ (r : RedisApi) where
  unfoldable pub try_from_bytes : Bytes → Result MessageId StreamError
  try_from_bytes s = elim (r.from_utf8 s) [ none ↦ err utf8_error | some t ↦ try_from_text t ]

  unfoldable pub id_from_value : r.Value → Result MessageId StreamError
  id_from_value v = elim (r.as_data v) [
    | none ↦ err expected_data
    | some bytes ↦ elim (try_from_bytes bytes) [ ok id ↦ ok id | err e ↦ err redis_error ]
  ]

  unfoldable pub bulk_from_value : r.Value → Result (List r.Value) StreamError
  bulk_from_value v = elim (r.as_bulk v) [ none ↦ err expected_bulk | some vs ↦ ok vs ]

  unfoldable pub verify_field : r.Value → Text → Result Unit StreamError
  verify_field v expected = elim (r.string_from v) [
    | none ↦ err redis_error
    | some field ↦ if field == expected then ok tt else err invalid_field
  ]

  unfoldable pub string_from_value : r.Value → Result Text StreamError
  string_from_value v = elim (r.as_data v) [
    | none ↦ err expected_data
    | some bytes ↦ elim (r.from_utf8 bytes) [ none ↦ err redis_error | some t ↦ ok t ]
  ]

  unfoldable pub uid_from_value : r.Value → Result ℤ StreamError
  uid_from_value v = elim (r.as_data v) [
    | none ↦ err expected_data
    | some bytes ↦ if length bytes == 8 then ok (from_be_bytes bytes) else err invalid_length
  ]

  unfoldable pub data_from_value : r.Value → Result Bytes StreamError
  data_from_value v = elim (r.vec_from v) [ none ↦ err redis_error | some bytes ↦ ok bytes ]

  -- The fields of a message, behind its id.
  unfoldable pub fields_from_values : MessageId → List r.Value → Result StreamMessage StreamError
  fields_from_values id (uid_key ∷ uid_value ∷ data_key ∷ data_value ∷ []) = do
    verify_field uid_key (codes "uid")
    uid ← uid_from_value uid_value
    verify_field data_key (codes "data")
    raw_data ← data_from_value data_value
    ok (record { uid = uid; raw_data = raw_data; message_id = id })
  fields_from_values id _ = err invalid_length

  unfoldable pub message_from_values : List r.Value → Result StreamMessage StreamError
  message_from_values (id_value ∷ fields ∷ []) = do
    id ← id_from_value id_value
    values ← bulk_from_value fields
    fields_from_values id values
  message_from_values _ = err invalid_length

  unfoldable pub message_from_value : r.Value → Result StreamMessage StreamError
  message_from_value v = bulk_from_value v >>= message_from_values

  abbrev pub ByStreamKey : Type 0
  ByStreamKey = Map Text (List StreamMessage)

  unfoldable pub push_message : ByStreamKey → Text → StreamMessage → ByStreamKey
  push_message m key msg =
      Map.insert m key (elim (Map.get m key) [ none ↦ msg ∷ [] | some msgs ↦ msgs ++ msg ∷ [] ])

  unfoldable pub push_values : ByStreamKey → Text → List r.Value → Result ByStreamKey StreamError
  push_values m key [] = ok m
  push_values m key (v ∷ vs) = do
    msg ← message_from_value v
    push_values (push_message m key msg) key vs

  unfoldable pub push_stream : ByStreamKey → List r.Value → Result ByStreamKey StreamError
  push_stream m (key_value ∷ values ∷ []) = do
    key ← string_from_value key_value
    vs ← bulk_from_value values
    push_values m key vs
  push_stream m _ = err invalid_length

  unfoldable pub push_streams : ByStreamKey → List r.Value → Result ByStreamKey StreamError
  push_streams m [] = ok m
  push_streams m (v ∷ vs) = do
    key_values ← bulk_from_value v
    m' ← push_stream m key_values
    push_streams m' vs

  unfoldable pub streams_from_value : r.Value → Result ByStreamKey StreamError
  streams_from_value v = if r.is_nil v then ok [] else (bulk_from_value v >>= push_streams [])

  -- The messages of the first stream. All callers name one stream.
  unfoldable pub consumer_messages : r.Value → Result (List StreamMessage) StreamError
  consumer_messages v = do
    m ← streams_from_value v
    ok (elim m [ [] ↦ [] | entry ∷ more ↦ entry.1 ])

  -- The last of the messages; that there is one is a `debug_assert`.
  unfoldable pub pop_message : List StreamMessage → Option StreamMessage
  pop_message [] = none
  pop_message (msg ∷ []) = some msg
  pop_message (msg ∷ next ∷ msgs) = pop_message (next ∷ msgs)

  unfoldable pub next : r.Value → Result (Option StreamMessage) StreamError
  next v = do
    m ← streams_from_value v
    elim m [ [] ↦ err unexpected_value | entry ∷ more ↦ ok (pop_message entry.1) ]
