-- ===== src/Stream/Ids.antt =====
-- The texts of message ids and the bytes of user ids, of lib/collab-stream/src/model.rs.
use flow_cloud.Base.{
  ℕ, zero, suc, ◌+◌, ◌-◌, ◌*◌, ◌/◌, ◌%◌, ◌^◌, ◌≡◌, ◌≤◌, ◌<◌, refl, false, some, [], ◌∷◌, ◌++◌, Text,
  ok, ltb, list_eq, nat_eq, ◌==◌, length, All, All-append, length-append, arith,
}
use flow_cloud.Base.Int.{ℤ, pos, negsuc}
use flow_cloud.Base.Decimal.{print_ℕ, IsDigit, print_ℕ-IsDigit, parse_unsigned-print_ℕ}
use flow_cloud.Protocol.Codec.{Bytes}
use native.Mathlib.Nat.{pow-suc}
use flow_cloud.Stream.{
  MessageId, to_string, split_hyphen, try_from_text, be_bytes, be_number, to_be_bytes,
  from_be_bytes,
}

split-hyphen : (xs ys : Text) → All IsDigit xs → split_hyphen (xs ++ b'-' ∷ ys) ≡ some (xs, ys)
unfolding split_hyphen
split-hyphen [] ys h = refl
split-hyphen (d ∷ ds) ys (digit, h) =
    let rest = split-hyphen ds ys h in
    let other : (d == b'-') ≡ false = ground (arith, digit) in rw (split_hyphen, other, rest) refl

-- The fields fit into their types.
abbrev pub InRange : MessageId → Type 0
InRange id = (id.timestamp_ms ≤ 2 ^ 64 - 1) × (id.sequence_number ≤ 2 ^ 16 - 1)

-- The text of a message id is read back to the same id.
pub try_from_text-to_string : (id : MessageId) → InRange id → try_from_text (to_string id) ≡ ok id
unfolding try_from_text to_string
try_from_text-to_string id (small, short) =
    rw
      (
        try_from_text,
        to_string,
        split-hyphen (print_ℕ id.timestamp_ms) (print_ℕ id.sequence_number)
            (print_ℕ-IsDigit id.timestamp_ms),
        parse_unsigned-print_ℕ (2 ^ 64 - 1) id.timestamp_ms small,
        parse_unsigned-print_ℕ (2 ^ 16 - 1) id.sequence_number short,
      )
      refl

digits-ascii : (t : Text) → All IsDigit t → All (λ c. c < 128) t
digits-ascii [] h = tt
digits-ascii (d ∷ ds) (digit, h) = (omega (arith, digit), digits-ascii ds h)

pub to_string-ascii : (id : MessageId) → All (λ c. c < 128) (to_string id)
unfolding to_string
to_string-ascii id =
    All-append (λ c. c < 128) (print_ℕ id.timestamp_ms) (b'-' ∷ print_ℕ id.sequence_number)
      (digits-ascii (print_ℕ id.timestamp_ms) (print_ℕ-IsDigit id.timestamp_ms))
      (omega arith, digits-ascii (print_ℕ id.sequence_number) (print_ℕ-IsDigit id.sequence_number))

be_number-append :
    (acc : ℕ) (xs ys : Bytes) → be_number acc (xs ++ ys) ≡ be_number (be_number acc xs) ys
unfolding be_number
be_number-append acc [] ys = refl
be_number-append acc (x ∷ xs) ys = be_number-append (acc * 256 + x) xs ys

be_number-be_bytes : (k n : ℕ) → n < 256 ^ k → be_number 0 (be_bytes k n) ≡ n
unfolding be_number be_bytes
be_number-be_bytes zero n h = ground arith
be_number-be_bytes (suc k) n h =
    let less : n / 256 < 256 ^ k = omega (arith, pow-suc 256 k) in
    rw
      (
        be_number-append 0 (be_bytes k (n / 256)) ((n % 256) ∷ []),
        be_number-be_bytes k (n / 256) less,
      )
      (ground arith)

pub length-be_bytes : (k n : ℕ) → length (be_bytes k n) ≡ k
unfolding be_bytes
length-be_bytes zero n = refl
length-be_bytes (suc k) n =
    ground
      (arith, length-append (be_bytes k (n / 256)) ((n % 256) ∷ []), length-be_bytes k (n / 256))

-- The value fits into 64 bits with a sign.
abbrev pub IsI64 : ℤ → Type 0
IsI64 (pos n) = n < 2 ^ 63
IsI64 (negsuc n) = n < 2 ^ 63

be_number-be_bytes_8 : (n : ℕ) → n < 2 ^ 64 → be_number 0 (be_bytes 8 n) ≡ n
be_number-be_bytes_8 n h = be_number-be_bytes 8 n (omega arith)

-- The bytes of a signed number are read back to the same number.
pub from_be_bytes-to_be_bytes : (n : ℤ) → IsI64 n → from_be_bytes (to_be_bytes n) ≡ n
unfolding from_be_bytes to_be_bytes
from_be_bytes-to_be_bytes (pos n) h =
    rw (from_be_bytes, be_number-be_bytes_8 n (omega arith)) (ground arith)
from_be_bytes-to_be_bytes (negsuc n) h =
    rw (from_be_bytes, be_number-be_bytes_8 (2 ^ 64 - 1 - n) (omega arith))
      (let big : ltb (2 ^ 64 - 1 - n) (2 ^ 63) ≡ false = ground arith in
        let same : 2 ^ 64 - 1 - (2 ^ 64 - 1 - n) ≡ n = omega arith in rw (big, same) refl)

pub length-to_be_bytes : (n : ℤ) → length (to_be_bytes n) ≡ 8
unfolding to_be_bytes
length-to_be_bytes (pos n) = length-be_bytes 8 n
length-to_be_bytes (negsuc n) = length-be_bytes 8 (2 ^ 64 - 1 - n)
