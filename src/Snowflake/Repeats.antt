-- ===== src/Snowflake/Repeats.antt =====
-- What `next_id` of lib/snowflake/src/lib.rs does when the sequence number wraps.
use flow_cloud.Base.{
  ℕ, ◌<◌, ◌≡◌, ◌≢◌, refl, true, false, none, some, List, ◌∷◌, Option, ltb, nat_beq, arith,
}
use flow_cloud.Base.Int.{ℤ}
use flow_cloud.Snowflake.{Snowflake, id_bits, as_i64, next_id, finish, wait_next_millis, Next, next}

abbrev pub issued : Next → Option ℤ
issued (next id s readings) = some id
issued _ = none

-- A call that finds the sequence number at its greatest waits for the clock to move on, and then
-- issues the id that the first call of the millisecond before has issued.
pub next_id-Repeats :
    (first s : Snowflake) (t later : ℕ) (readings more : List ℕ)
    → first.node_id ≡ s.node_id
    → first.last_timestamp < t
    → s.last_timestamp ≡ t
    → s.sequence ≡ 4095
    → later ≢ t
    → (issued (next_id s (t ∷ later ∷ more)) ≡ issued (next_id first (t ∷ readings)))
      × (issued (next_id first (t ∷ readings)) ≡ some (as_i64 (id_bits s.node_id t 0)))
unfolding next_id finish wait_next_millis
next_id-Repeats first s t later readings more same_node earlier now full moved =
    let a : ltb t first.last_timestamp ≡ false = ground (arith, earlier) in
    let b : nat_beq t first.last_timestamp ≡ false = ground (arith, earlier) in
    let c : ltb t t ≡ false = ground arith in
    let d : nat_beq t t ≡ true = ground arith in
    let e : nat_beq later t ≡ false = ground (arith, moved) in
    (rw (now, full, a, b, c, d, e, same_node) refl, rw (a, b, same_node) refl)
