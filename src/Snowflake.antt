-- ===== src/Snowflake.antt =====
-- lib/snowflake/src/lib.rs. The clock is the list of the readings still to come, in milliseconds.
pub mod Growth
pub mod Repeats
use flow_cloud.Base.{
  ℕ, zero, suc, ◌+◌, ◌-◌, ◌*◌, ◌%◌, ◌^◌, Bool, true, false, Option, none, some, List, [], ◌∷◌, ltb,
  nat_beq, if◌then◌else◌,
}
use flow_cloud.Base.Int.{ℤ, pos, negsuc}
use Prim.Native.Nat.{bit_and, bit_or}

abbrev pub epoch : ℕ
epoch = 1637806706000

abbrev pub sequence_bits : ℕ
sequence_bits = 12

abbrev pub timestamp_shift : ℕ
timestamp_shift = 22

abbrev pub sequence_mask : ℕ
sequence_mask = 2 ^ sequence_bits - 1

pub record Snowflake : Type 0 where
  pub node_id : ℕ
  pub sequence : ℕ
  pub last_timestamp : ℕ

unfoldable pub new : ℕ → Snowflake
new node_id = record { node_id = node_id; sequence = 0; last_timestamp = 0 }

-- What `next_id` does: it panics when the clock moves backwards, and it needs readings.
pub data Next : Type 0 where
  moved_backwards clock_ended : Next
  next : (id : ℤ) (s : Snowflake) (readings : List ℕ) → Next

-- `as i64`
unfoldable pub as_i64 : ℕ → ℤ
as_i64 n = if ltb n (2 ^ 63) then pos n else negsuc (2 ^ 64 - 1 - n)

-- The bits of an id. The subtraction wraps, as it does in a release build.
unfoldable pub id_bits : ℕ → ℕ → ℕ → ℕ
id_bits node_id timestamp sequence =
    bit_or
      (bit_or ((timestamp + 2 ^ 64 - epoch) % 2 ^ 64 * 2 ^ timestamp_shift % 2 ^ 64)
        (node_id * 2 ^ sequence_bits % 2 ^ 64))
      sequence

-- The readings after those of `wait_next_millis`; none if the clock never moves on.
unfoldable pub wait_next_millis : ℕ → List ℕ → Option (List ℕ)
wait_next_millis last [] = none
wait_next_millis last (timestamp ∷ readings) =
    let rest = wait_next_millis last readings in
    if nat_beq timestamp last then rest else some readings

-- The end of `next_id`, with the timestamp that it has read at its start.
unfoldable pub finish : Snowflake → ℕ → ℕ → Option (List ℕ) → Next
finish s timestamp sequence none = clock_ended
finish s timestamp sequence (some readings) =
    next (as_i64 (id_bits s.node_id timestamp sequence))
      (record s { sequence = sequence; last_timestamp = timestamp }) readings

unfoldable pub next_id : Snowflake → List ℕ → Next
next_id s [] = clock_ended
next_id s (timestamp ∷ readings) =
    if ltb timestamp s.last_timestamp
    then moved_backwards
    else if nat_beq timestamp s.last_timestamp
    then (let sequence = bit_and ((s.sequence + 1) % 2 ^ 64) sequence_mask in
        finish s timestamp sequence (
          if nat_beq sequence 0 then wait_next_millis s.last_timestamp readings else some readings))
    else finish s timestamp 0 (some readings)

-- The ids of a number of calls, up to the first that returns none.
pub issue : ℕ → Snowflake → List ℕ → List ℤ
issue zero s readings = []
issue (suc n) s readings = elim (next_id s readings) [
  | moved_backwards ↦ []
  | clock_ended ↦ []
  | next id t rest ↦ id ∷ issue n t rest
]
