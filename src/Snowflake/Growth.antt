-- ===== src/Snowflake/Growth.antt =====
-- The order of the ids of lib/snowflake/src/lib.rs.
use flow_cloud.Base.{
  ℕ, zero, suc, ◌+◌, ◌-◌, ◌*◌, ◌%◌, ◌^◌, ◌≤◌, ◌<◌, ◌≡◌, refl, ◌∙◌, true, false, some, List, [], ◌∷◌,
  ltb, nat_beq, All, arith, lt→ltb, if_split, nat_beq_iff,
}
use flow_cloud.Base.Int.{ℤ, pos, negsuc, int_ltb}
use flow_cloud.Base.Bits.{bit_or-shifted, bit_and-mask}
use Prim.Native.Nat.{bit_and, bit_or}
use flow_cloud.Snowflake.{
  Snowflake, new, epoch, sequence_mask, id_bits, as_i64, next_id, finish, issue, moved_backwards,
  clock_ended, next, Next,
}

-- A time that fits into the 41 bits of an id above its fields.
abbrev pub InRange : ℕ → Type 0
InRange t = (epoch ≤ t) × (t < epoch + 2 ^ 41)

-- The fields of an id do not overlap.
pub id_bits-fields :
    (node_id timestamp sequence : ℕ)
    → node_id < 1024
    → InRange timestamp
    → sequence < 4096
    → id_bits node_id timestamp sequence
      ≡ (timestamp - epoch) * 2 ^ 22 + node_id * 2 ^ 12 + sequence
unfolding id_bits
id_bits-fields node_id timestamp sequence small range few =
    let time : ℕ = timestamp - epoch in
    let time_bits : (timestamp + 2 ^ 64 - epoch) % 2 ^ 64 * 2 ^ 22 % 2 ^ 64 ≡ time * 2 ^ 22 =
      omega (arith, range.0, range.1) in
    let node_bits : node_id * 2 ^ 12 % 2 ^ 64 ≡ node_id * 2 ^ 12 = omega (arith, small) in
    let joined : bit_or (time * 2 ^ 22) (node_id * 2 ^ 12) ≡ (time * 2 ^ 10 + node_id) * 2 ^ 12 =
      bit_or-shifted 22 time (node_id * 2 ^ 12) (omega (arith, small)) ∙ omega arith in
    rw (time_bits, node_bits, joined)
      (bit_or-shifted 12 (time * 2 ^ 10 + node_id) sequence few ∙ omega arith)

pub as_i64-fits : (n : ℕ) → n < 2 ^ 63 → as_i64 n ≡ pos n
unfolding as_i64
as_i64-fits n h = rw (lt→ltb n (2 ^ 63) h) refl

-- The id that a snowflake has issued last.
abbrev pub last_id : Snowflake → ℤ
last_id s = as_i64 (id_bits s.node_id s.last_timestamp s.sequence)

ids-grow :
    (node_id t q u r : ℕ)
    → node_id < 1024
    → InRange t
    → InRange u
    → q < 4096
    → r < 4096
    → (t - epoch) * 4096 + q < (u - epoch) * 4096 + r
    → t ≤ u
    → int_ltb (as_i64 (id_bits node_id t q)) (as_i64 (id_bits node_id u r)) ≡ true
ids-grow node_id t q u r small t_fits u_fits q_fits r_fits later order =
    rw
      (
        id_bits-fields node_id t q small t_fits q_fits,
        id_bits-fields node_id u r small u_fits r_fits,
        as_i64-fits ((t - epoch) * 2 ^ 22 + node_id * 2 ^ 12 + q)
            (omega (arith, small, t_fits.0, t_fits.1, q_fits)),
        as_i64-fits ((u - epoch) * 2 ^ 22 + node_id * 2 ^ 12 + r)
            (omega (arith, small, u_fits.0, u_fits.1, r_fits)),
      )
      (lt→ltb _ _ (omega (arith, later, order, t_fits.0, u_fits.0, q_fits, r_fits)))

-- Every id of a list is greater than the one before it.
abbrev pub IsAscending : ℤ → List ℤ → Type 0
IsAscending last [] = Unit
IsAscending last (id ∷ ids) = (int_ltb last id ≡ true) × IsAscending id ids

-- A next id, if there is one, is greater than the last one, and what follows it ascends.
abbrev Ascends : ℕ → ℤ → Next → Type 0
Ascends n last moved_backwards = Unit
Ascends n last clock_ended = Unit
Ascends n last (next id s readings) = (int_ltb last id ≡ true) × IsAscending id (issue n s readings)

issue-Ascends :
    (n : ℕ) (last : ℤ) (s : Snowflake) (readings : List ℕ)
    → Ascends n last (next_id s readings)
    → IsAscending last (issue (suc n) s readings)
unfolding issue
issue-Ascends n last s readings = go (next_id s readings)
  where
    go :
        (r : Next)
        → Ascends n last r
        → IsAscending last (elim r [
          | moved_backwards ↦ []
          | clock_ended ↦ []
          | next id t rest ↦ id ∷ issue n t rest
        ])
    go moved_backwards h = h
    go clock_ended h = h
    go (next id t rest) h = h

next_sequence : (q : ℕ) → q + 1 < 4096 → bit_and ((q + 1) % 2 ^ 64) sequence_mask ≡ q + 1
next_sequence q h = bit_and-mask 12 ((q + 1) % 2 ^ 64) ∙ omega (arith, h)

-- As long as the sequence number does not wrap, ids ascend from the last one that was issued.
issue-IsAscending :
    (n : ℕ) (s : Snowflake) (readings : List ℕ)
    → s.node_id < 1024
    → InRange s.last_timestamp
    → All InRange readings
    → s.sequence + n < 4096
    → IsAscending (last_id s) (issue n s readings)
unfolding next_id finish
issue-IsAscending zero s readings small fits all room = unfold issue in tt
issue-IsAscending (suc n) s [] small fits all room = issue-Ascends n (last_id s) s [] tt
issue-IsAscending (suc n) s (t ∷ readings) small fits all room =
    let after = λ (q : ℕ) (room' : q + n < 4096).
      issue-IsAscending n (record s { sequence = q; last_timestamp = t }) readings small all.0 all.1
        room' in
    issue-Ascends n (last_id s) s (t ∷ readings) (
      if_split (Ascends n (last_id s)) (ltb t s.last_timestamp) _ _ (λ back. tt)
        (λ on.
          if_split (Ascends n (last_id s)) (nat_beq t s.last_timestamp) _ _
            (λ same.
              let moved : nat_beq (s.sequence + 1) 0 ≡ false = ground arith in
              rw (next_sequence s.sequence (omega (arith, room)), moved)
                (follows (s.sequence + 1) (omega (arith, room))
                  (after (s.sequence + 1) (omega (arith, room))) (ground (arith, on))
                  (ground (arith, nat_beq_iff t s.last_timestamp, same))))
            (λ later.
              follows 0 (omega arith) (after 0 (omega (arith, room))) (ground (arith, on))
                (ground (arith, on, later, fits.0, fits.1, room)))))
  where
    follows :
        (q : ℕ)
        → q < 4096
        → IsAscending
            (as_i64 (id_bits s.node_id t q))
            (issue n (record s { sequence = q; last_timestamp = t }) readings)
        → s.last_timestamp ≤ t
        → (s.last_timestamp - epoch) * 4096 + s.sequence < (t - epoch) * 4096 + q
        → Ascends n (last_id s) (finish s t q (some readings))
    follows q few more order later' = (
      ids-grow s.node_id s.last_timestamp s.sequence t q small fits all.0 (omega (arith, room)) few
          later' order,
      more,
    )

-- A new snowflake of a node below 1024 issues ascending ids, none of them negative, in its first 4096
-- calls, whatever the clock shows within its range of 41 bits.
pub issue-new :
    (n node_id : ℕ) (readings : List ℕ)
    → n ≤ 4096
    → node_id < 1024
    → All InRange readings
    → IsAscending (negsuc 0) (issue n (new node_id) readings)
unfolding next_id finish new
issue-new zero node_id readings few small all = unfold issue in tt
issue-new (suc n) node_id [] few small all = issue-Ascends n (negsuc 0) (new node_id) [] tt
issue-new (suc n) node_id (t ∷ readings) few small all =
    issue-Ascends n (negsuc 0) (new node_id) (t ∷ readings) (
      if_split (Ascends n (negsuc 0)) (ltb t 0) _ _ (λ back. tt)
        (λ on.
          if_split (Ascends n (negsuc 0)) (nat_beq t 0) _ _
            (λ same. absurd (ground (arith, same, all.0.0)))
            (λ later. (
              rw
                  (
                    id_bits-fields node_id t 0 small all.0 (omega arith),
                    as_i64-fits ((t - epoch) * 2 ^ 22 + node_id * 2 ^ 12 + 0)
                        (omega (arith, small, all.0.0, all.0.1)),
                  )
                  refl,
              issue-IsAscending n (record { node_id = node_id; sequence = 0; last_timestamp = t })
                  readings small all.0 all.1 (omega (arith, few)),
            ))))
