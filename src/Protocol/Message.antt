-- ===== src/Protocol/Message.antt =====
-- lib/realtime-protocol/src/message.rs: messages, and their `Encode` and `Decode`.
use flow_cloud.Base.{
  ℕ, Option, none, some, ◌++◌, Text, Result, ok, err, ◌>>=◌, nat_beq, if◌then◌else◌,
}
use flow_cloud.Base.Int.{ℤ}
use flow_cloud.Protocol.Codec.{Bytes, Codec}

abbrev pub msg_sync : ℕ
msg_sync = 0

abbrev pub msg_awareness : ℕ
msg_awareness = 1

abbrev pub msg_auth : ℕ
msg_auth = 2

abbrev pub msg_custom : ℕ
msg_custom = 3

abbrev pub permission_denied : ℕ
permission_denied = 0

abbrev pub permission_granted : ℕ
permission_granted = 1

abbrev pub msg_custom_start_sync : ℕ
msg_custom_start_sync = 0

abbrev pub msg_sync_step_1 : ℕ
msg_sync_step_1 = 0

abbrev pub msg_sync_step_2 : ℕ
msg_sync_step_2 = 1

abbrev pub msg_sync_update : ℕ
msg_sync_update = 2

pub record SyncMeta : Type 0 where
  pub last_sync_at : ℤ

pub data CustomMessage : Type 0 where
  sync_check : SyncMeta → CustomMessage

pub data SyncMessage (c : Codec) : Type 0 where
  sync_step1 : c.StateVector → SyncMessage c
  sync_step2 : Bytes → SyncMessage c
  update : Bytes → SyncMessage c

pub data Message (c : Codec) : Type 0 where
  sync : SyncMessage c → Message c
  auth : Option Text → Message c
  awareness : c.AwarenessUpdate → Message c
  custom : CustomMessage → Message c

module _ (c : Codec) where
  -- A reader's result: the value and the bytes that are left, or an error.
  abbrev pub Decoded : Type 0 → Type 0
  Decoded A = Result (A × Bytes) c.ReadError

  unfoldable pub to_vec : SyncMeta → Bytes
  to_vec m = c.serialize_i64 m.last_sync_at

  unfoldable pub from_vec : Bytes → Result SyncMeta c.ReadError
  from_vec buf = elim (c.deserialize_i64 buf) [
    | ok n ↦ ok (record { last_sync_at = n })
    | err e ↦ err c.unexpected_value
  ]

  unfoldable pub encode_custom : CustomMessage → Bytes
  encode_custom (sync_check msg) = c.write_var msg_custom_start_sync ++ c.write_buf (to_vec msg)

  decode_sync_check : Bytes → Decoded CustomMessage
  decode_sync_check decoder = do
    (buf, rest) ← c.read_buf decoder
    meta ← from_vec buf
    ok (sync_check meta, rest)

  unfoldable pub decode_custom : Bytes → Decoded CustomMessage
  unfolding decode_sync_check
  decode_custom decoder = do
    (tag, rest) ← c.read_var decoder
    if nat_beq tag msg_custom_start_sync then decode_sync_check rest else err c.unexpected_value

  unfoldable pub encode_sync : SyncMessage c → Bytes
  encode_sync (sync_step1 sv) =
      c.write_var msg_sync_step_1 ++ c.write_buf (c.encode_state_vector sv)
  encode_sync (sync_step2 u) = c.write_var msg_sync_step_2 ++ c.write_buf u
  encode_sync (update u) = c.write_var msg_sync_update ++ c.write_buf u

  decode_step1 : Bytes → Decoded (SyncMessage c)
  decode_step1 decoder = do
    (buf, rest) ← c.read_buf decoder
    sv ← c.decode_state_vector buf
    ok (sync_step1 sv, rest)

  decode_step2 : Bytes → Decoded (SyncMessage c)
  decode_step2 decoder = do (buf, rest) ← c.read_buf decoder; ok (sync_step2 buf, rest)

  decode_update : Bytes → Decoded (SyncMessage c)
  decode_update decoder = do (buf, rest) ← c.read_buf decoder; ok (update buf, rest)

  unfoldable pub decode_sync : Bytes → Decoded (SyncMessage c)
  unfolding decode_step1 decode_step2 decode_update
  decode_sync decoder = do
    (tag, rest) ← c.read_var decoder
    if nat_beq tag msg_sync_step_1
        then decode_step1 rest
        else if nat_beq tag msg_sync_step_2
        then decode_step2 rest
        else if nat_beq tag msg_sync_update
        then decode_update rest
        else err c.unexpected_value

  unfoldable pub encode : Message c → Bytes
  encode (sync msg) = c.write_var msg_sync ++ encode_sync msg
  encode (auth (some reason)) =
      c.write_var msg_auth ++ (c.write_var permission_denied ++ c.write_string reason)
  encode (auth none) = c.write_var msg_auth ++ c.write_var permission_granted
  encode (awareness u) = c.write_var msg_awareness ++ c.write_buf (c.encode_awareness u)
  encode (custom msg) = c.write_var msg_custom ++ encode_custom msg

  decode_awareness_update : Bytes → Decoded (Message c)
  decode_awareness_update decoder = do
    (buf, rest) ← c.read_buf decoder
    u ← c.decode_awareness buf
    ok (awareness u, rest)

  decode_reason : Bytes → Decoded (Message c)
  decode_reason decoder = do (reason, rest) ← c.read_string decoder; ok (auth (some reason), rest)

  decode_auth : Bytes → Decoded (Message c)
  unfolding decode_reason
  decode_auth decoder = do
    (permission, rest) ← c.read_var decoder
    if nat_beq permission permission_denied then decode_reason rest else ok (auth none, rest)

  unfoldable pub decode : Bytes → Decoded (Message c)
  unfolding decode_awareness_update decode_auth
  decode decoder = do
    (tag, rest) ← c.read_var decoder
    if nat_beq tag msg_sync
        then (do (msg, left) ← decode_sync rest; ok (sync msg, left))
        else if nat_beq tag msg_awareness
        then decode_awareness_update rest
        else if nat_beq tag msg_auth
        then decode_auth rest
        else if nat_beq tag msg_custom
        then (do (msg, left) ← decode_custom rest; ok (custom msg, left))
        else err c.unexpected_value

  -- `MessageReader::next`. After an error the callers read no further.
  unfoldable pub next : Bytes → Option (Decoded (Message c))
  next decoder = elim (decode decoder) [
    | ok item ↦ some (ok item)
    | err e ↦ if c.is_end_of_buffer e then none else some (err e)
  ]
