-- ===== src/Base/Int.antt =====
-- Signed integers over the native numbers: the values of an `i64`.
use flow_cloud.Base.{
  ℕ, zero, suc, ◌+◌, ◌-◌, ◌^◌, ◌≡◌, ◌↔◌, Bool, false, arith, Eq, ◌==◌, nat_eq, nat_beq, ltb,
  if◌then◌else◌,
}

-- `negsuc n` is -(n + 1).
pub data ℤ : Type 0 where
  pos : ℕ → ℤ
  negsuc : ℕ → ℤ

abbrev pub int_beq : ℤ → ℤ → Bool
int_beq (pos a) (pos b) = nat_beq a b
int_beq (negsuc a) (negsuc b) = nat_beq a b
int_beq _ _ = false

pub int_beq_iff : (a b : ℤ) → (int_beq a b ≡ Bool.true) ↔ (a ≡ b)
int_beq_iff (pos a) (pos b) = ground arith
int_beq_iff _ _ = ground arith

-- `fetch_add(1)` on an `AtomicI64`, which wraps from the greatest value to the least.
abbrev pub increment_i64 : ℤ → ℤ
increment_i64 (pos n) = if n + 1 == 2 ^ 63 then negsuc (2 ^ 63 - 1) else pos (n + 1)
increment_i64 (negsuc zero) = pos 0
increment_i64 (negsuc (suc n)) = negsuc n

instance abbrev pub int_eq : Eq ℤ
int_eq = record { beq = int_beq; beq_iff = int_beq_iff }

abbrev pub int_ltb : ℤ → ℤ → Bool
int_ltb (pos a) (pos b) = ltb a b
int_ltb (pos a) (negsuc b) = false
int_ltb (negsuc a) (pos b) = Bool.true
int_ltb (negsuc a) (negsuc b) = ltb b a
