-- ===== src/Protocol/Codec.antt =====
-- What the protocol takes from the crates yrs, collab and bincode, whose code is not in the
-- repository: the primitive readers and writers, and the encodings of their own types.
-- A decoder is the list of the bytes that it has not read; an encoder is the bytes it appends.
use flow_cloud.Base.{ℕ, ◌<◌, ◌≡◌, Bool, true, false, List, [], ◌++◌, Text, Result, ok, err}
use flow_cloud.Base.Int.{ℤ}

abbrev pub Bytes : Type 0
Bytes = List ℕ

pub record Codec : Type 1 where
  pub StateVector : Type 0
  pub AwarenessUpdate : Type 0
  -- yrs::encoding::read::Error, of which the source builds one value and tests for another.
  pub ReadError : Type 0
  pub unexpected_value : ReadError
  pub is_end_of_buffer : ReadError → Bool
  pub write_var : ℕ → Bytes
  pub read_var : Bytes → Result (ℕ × Bytes) ReadError
  pub write_buf : Bytes → Bytes
  pub read_buf : Bytes → Result (Bytes × Bytes) ReadError
  pub write_string : Text → Bytes
  pub read_string : Bytes → Result (Text × Bytes) ReadError
  pub encode_state_vector : StateVector → Bytes
  pub decode_state_vector : Bytes → Result StateVector ReadError
  pub encode_awareness : AwarenessUpdate → Bytes
  pub decode_awareness : Bytes → Result AwarenessUpdate ReadError
  -- bincode on an `i64`; the error is dropped by the caller.
  pub serialize_i64 : ℤ → Bytes
  pub deserialize_i64 : Bytes → Result ℤ Unit
  -- yrs's merge of two updates.
  pub MergeError : Type 0
  pub merge_updates_v1 : Bytes → Bytes → Result Bytes MergeError

-- What is documented of them: a reader takes back what the writer of its kind appended, and
-- `read_var` on an empty buffer fails with `EndOfBuffer`.
pub record IsLawful (c : Codec) : Type 0 where
  pub read-write_var :
      (n : ℕ) (rest : Bytes) → n < 256 → c.read_var (c.write_var n ++ rest) ≡ ok (n, rest)
  pub read-write_buf : (b rest : Bytes) → c.read_buf (c.write_buf b ++ rest) ≡ ok (b, rest)
  pub read-write_string :
      (s : Text) (rest : Bytes) → c.read_string (c.write_string s ++ rest) ≡ ok (s, rest)
  pub decode-encode_state_vector :
      (v : c.StateVector) → c.decode_state_vector (c.encode_state_vector v) ≡ ok v
  pub decode-encode_awareness :
      (u : c.AwarenessUpdate) → c.decode_awareness (c.encode_awareness u) ≡ ok u
  pub deserialize-serialize_i64 : (n : ℤ) → c.deserialize_i64 (c.serialize_i64 n) ≡ ok n
  pub unexpected_is_not_end : c.is_end_of_buffer c.unexpected_value ≡ false
  pub end : c.ReadError
  pub read_var-empty : c.read_var [] ≡ err end
  pub end_is_end : c.is_end_of_buffer end ≡ true
