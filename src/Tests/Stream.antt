-- ===== src/Tests/Stream.antt =====
-- Runs of the theorems on the messages of a Redis stream.
use flow_cloud.Base.{
  ◌≡◌, refl, true, false, Bool, Option, none, some, List, [], ◌∷◌, ok, codes, map, arith,
}
use flow_cloud.Base.Int.{pos, negsuc}
use flow_cloud.Protocol.Codec.{Bytes}
use flow_cloud.Stream.{RedisApi, MessageId, Message, consumer_messages}
use flow_cloud.Stream.Answers.{Answering, reply, stamped, consumer_messages-reply}

mutual
  data Value : Type 0 where
    nil : Value
    bytes : Bytes → Value
    bulk : Values → Value

  data Values : Type 0 where
    no_values : Values
    more : Value → Values → Values

abbrev listed : Values → List Value
listed no_values = []
listed (more v vs) = v ∷ listed vs

abbrev values : List Value → Values
values [] = no_values
values (v ∷ vs) = more v (values vs)

abbrev is_nil : Value → Bool
is_nil nil = true
is_nil (bytes b) = false
is_nil (bulk vs) = false

abbrev as_data : Value → Option Bytes
as_data nil = none
as_data (bytes b) = some b
as_data (bulk vs) = none

abbrev as_bulk : Value → Option (List Value)
as_bulk nil = none
as_bulk (bytes b) = none
as_bulk (bulk vs) = some (listed vs)

-- All bytes are taken for UTF-8.
abbrev tiny_redis : RedisApi
tiny_redis = record {
  Value = Value;
  is_nil = is_nil;
  as_data = as_data;
  as_bulk = as_bulk;
  string_from = as_data;
  vec_from = as_data;
  from_utf8 = λ b. some b;
}

listed-values : (vs : List Value) → listed (values vs) ≡ vs
listed-values [] = refl
listed-values (v ∷ vs) = rw (listed-values vs) refl

tiny_answering : Answering tiny_redis
tiny_answering = record {
  of_data = bytes;
  of_bulk = λ vs. bulk (values vs);
  as_data-of_data = λ b. refl;
  as_bulk-of_bulk = λ vs. rw (listed-values vs) refl;
  is_nil-of_bulk = λ vs. refl;
  vec_from-of_data = λ b. refl;
  string_from-of_data = λ b. refl;
  from_utf8-ascii = λ t h. refl;
}

abbrev an_id : MessageId
an_id = record { timestamp_ms = 1631; sequence_number = 2 }

abbrev two_messages : List (MessageId × Message)
two_messages =
    (an_id, record { uid = pos 258; raw_data = 1 ∷ 2 ∷ [] })
    ∷ (record an_id { sequence_number = 3 }, record { uid = negsuc 4; raw_data = [] })
    ∷ []

consumer_messages-reply_example :
    consumer_messages tiny_redis (reply tiny_redis tiny_answering (codes "key") two_messages)
    ≡ ok (map (stamped tiny_redis tiny_answering) two_messages)
consumer_messages-reply_example =
    consumer_messages-reply tiny_redis tiny_answering (codes "key") two_messages refl (omega arith)
