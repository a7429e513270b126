-- ===== src/Protocol/RoundTrip.antt =====
-- `decode` takes back what `encode` wrote, and a reader the messages of a whole buffer.
use flow_cloud.Base.{
  ℕ, ◌<◌, ◌≡◌, zero, suc, Option, none, some, List, [], ◌∷◌, ◌++◌, ok, err, arith, length,
}
use mathlib.Core.List.{append_assoc}
use flow_cloud.Protocol.Codec.{Bytes, Codec, IsLawful}
use flow_cloud.Protocol.Message.{
  Message, SyncMessage, CustomMessage, sync, auth, awareness, custom, sync_step1, sync_step2,
  update, sync_check, encode, decode, encode_sync, decode_sync, encode_custom, decode_custom, next,
  SyncMeta, to_vec, from_vec,
}

module _ (c : Codec) where
  -- A buffer of encoded messages, one after the other.
  abbrev pub encode_all : List (Message c) → Bytes
  encode_all [] = []
  encode_all (m ∷ ms) = encode c m ++ encode_all ms

  -- What `for msg in reader` sees up to the end of the buffer, if no message fails to decode.
  abbrev pub read_all : ℕ → Bytes → Option (List (Message c))
  read_all zero decoder = none
  read_all (suc fuel) decoder = elim (next c decoder) [
    | none ↦ some []
    | some (ok (m, rest)) ↦ elim (read_all fuel rest) [ none ↦ none | some ms ↦ some (m ∷ ms) ]
    | some (err e) ↦ none
  ]

module _ (c : Codec) (laws : IsLawful c) where
  read_tag :
      (n : ℕ) (x rest : Bytes)
      → n < 256
      → c.read_var ((c.write_var n ++ x) ++ rest) ≡ ok (n, x ++ rest)
  read_tag n x rest h = rw append_assoc (laws.read-write_var n (x ++ rest) h)

  decode-encode_sync :
      (m : SyncMessage c) (rest : Bytes) → decode_sync c (encode_sync c m ++ rest) ≡ ok (m, rest)
  unfolding encode_sync decode_sync
  decode-encode_sync (sync_step1 sv) rest = simp (
    read_tag 0 (c.write_buf (c.encode_state_vector sv)) rest (omega arith),
    laws.read-write_buf,
    laws.decode-encode_state_vector,
  )
  decode-encode_sync (sync_step2 u) rest =
      simp (read_tag 1 (c.write_buf u) rest (omega arith), laws.read-write_buf)
  decode-encode_sync (update u) rest =
      simp (read_tag 2 (c.write_buf u) rest (omega arith), laws.read-write_buf)

  from_vec-to_vec : (m : SyncMeta) → from_vec c (to_vec c m) ≡ ok m
  unfolding from_vec to_vec
  from_vec-to_vec m = rw (laws.deserialize-serialize_i64 m.last_sync_at, from_vec)

  decode-encode_custom :
      (m : CustomMessage) (rest : Bytes)
      → decode_custom c (encode_custom c m ++ rest) ≡ ok (m, rest)
  unfolding encode_custom decode_custom
  decode-encode_custom (sync_check m) rest = simp (
    read_tag 0 (c.write_buf (to_vec c m)) rest (omega arith),
    laws.read-write_buf,
    from_vec-to_vec,
  )

  -- With lawful primitives, decoding what was encoded gives the message back and leaves the rest of
  -- the buffer unread, for every kind of message.
  pub decode-encode : (m : Message c) (rest : Bytes) → decode c (encode c m ++ rest) ≡ ok (m, rest)
  unfolding encode decode
  decode-encode (sync msg) rest =
      simp (read_tag 0 (encode_sync c msg) rest (omega arith), decode-encode_sync)
  decode-encode (auth (some reason)) rest = simp (
    read_tag 2 (c.write_var 0 ++ c.write_string reason) rest (omega arith),
    read_tag 0 (c.write_string reason) rest (omega arith),
    laws.read-write_string,
  )
  decode-encode (auth none) rest =
      simp (read_tag 2 (c.write_var 1) rest (omega arith), laws.read-write_var 1 rest (omega arith))
  decode-encode (awareness u) rest = simp (
    read_tag 1 (c.write_buf (c.encode_awareness u)) rest (omega arith),
    laws.read-write_buf,
    laws.decode-encode_awareness,
  )
  decode-encode (custom msg) rest =
      simp (read_tag 3 (encode_custom c msg) rest (omega arith), decode-encode_custom)

  pub next-encode :
      (m : Message c) (rest : Bytes) → next c (encode c m ++ rest) ≡ some (ok (m, rest))
  unfolding next
  next-encode m rest = rw (decode-encode m rest, next)

  pub next-empty : next c [] ≡ none
  unfolding next decode
  next-empty = ground (arith, laws.read_var-empty, laws.end_is_end)

  -- Reading a buffer to which messages were encoded one after the other yields these messages, in
  -- order, and then the end of the buffer; one round more than there are messages is enough.
  pub read_all-encode_all :
      (fuel : ℕ) (ms : List (Message c))
      → length ms < fuel
      → read_all c fuel (encode_all c ms) ≡ some ms
  read_all-encode_all zero ms h = absurd (omega arith)
  read_all-encode_all (suc fuel) [] h = ground (arith, next-empty)
  read_all-encode_all (suc fuel) (m ∷ ms) h =
      ground (arith, next-encode m (encode_all c ms), read_all-encode_all fuel ms (omega arith))
