-- ===== src/Base/Bits.antt =====
-- Masks and the joining of bit fields that do not overlap.
use Prim.Native.Nat.{
  ℕ, zero, suc, ◌+◌, ◌-◌, ◌*◌, ◌/◌, ◌%◌, ◌^◌, ◌≤◌, ◌<◌, min, max, bit_and, bit_or, digits,
  bit_and-bitwise, bit_or-bitwise,
}
use mathlib.Core.Path.{◌≡◌, refl, ◌∙◌, sym, ap}
use native.Mathlib.Omega.{arith}
use native.Mathlib.Nat.{
  pow-suc, mul_assoc, div-add-mod', mul-add-mod_self_right, mod-eq_of_lt, mod-lt,
}

module _ (last : ℕ → ℕ) (op : ℕ → ℕ → ℕ) where
  -- The count of digits to go makes no difference once it covers the first number.
  counts_agree : (x y f g : ℕ) → x ≤ f → x ≤ g → digits last op f x y ≡ digits last op g x y
  counts_agree zero y f g h k = stopped f ∙ sym (stopped g)
    where
      stopped : (f : ℕ) → digits last op f 0 y ≡ last y
      stopped zero = refl
      stopped (suc f) = refl
  counts_agree (suc x) y zero g h k = absurd (omega arith)
  counts_agree (suc x) y (suc f) zero h k = absurd (omega arith)
  counts_agree (suc x) y (suc f) (suc g) h k =
      ap (λ r. r * 2 + op (suc x % 2) (y % 2))
        (counts_agree (suc x / 2) (y / 2) f g (omega arith) (omega arith))

-- The numbers without their lowest digits, and the lowest digits.
or_halves : (x y : ℕ) → bit_or x y ≡ bit_or (x / 2) (y / 2) * 2 + max (x % 2) (y % 2)
or_halves zero y = omega (arith, bit_or-bitwise 0 y, bit_or-bitwise 0 (y / 2))
or_halves (suc x) y = omega (
  arith,
  bit_or-bitwise (suc x) y,
  bit_or-bitwise (suc x / 2) (y / 2),
  counts_agree (λ b. b) max (suc x / 2) (y / 2) x (suc x / 2) (omega arith) (omega arith),
)

and_halves : (x y : ℕ) → bit_and x y ≡ bit_and (x / 2) (y / 2) * 2 + min (x % 2) (y % 2)
and_halves zero y = omega (arith, bit_and-bitwise 0 y, bit_and-bitwise 0 (y / 2))
and_halves (suc x) y = omega (
  arith,
  bit_and-bitwise (suc x) y,
  bit_and-bitwise (suc x / 2) (y / 2),
  counts_agree (λ b. zero) min (suc x / 2) (y / 2) x (suc x / 2) (omega arith) (omega arith),
)

or_none : (n x : ℕ) → x ≤ n → bit_or x 0 ≡ x
or_none n zero h = bit_or-bitwise 0 0
or_none zero (suc x) h = absurd (omega arith)
or_none (suc n) (suc x) h = omega (arith, or_halves (suc x) 0, or_none n (suc x / 2) (omega arith))

-- A field of k digits is joined to a number that is free there.
pub bit_or-shifted : (k a b : ℕ) → b < 2 ^ k → bit_or (a * 2 ^ k) b ≡ a * 2 ^ k + b
bit_or-shifted zero a b h =
    let none_left : b ≡ 0 = omega (arith, h) in
    rw none_left (or_none (a * 1) (a * 1) (omega arith) ∙ omega arith)
bit_or-shifted (suc k) a b h =
    rw (pow-suc 2 k, sym (mul_assoc a (2 ^ k) 2))
      (doubled (a * 2 ^ k) (bit_or-shifted k a (b / 2) (omega (arith, h, pow-suc 2 k))))
  where
    doubled : (m : ℕ) → bit_or m (b / 2) ≡ m + b / 2 → bit_or (m * 2) b ≡ m * 2 + b
    doubled m joined =
        let half : m * 2 / 2 ≡ m = omega arith in
        or_halves (m * 2) b ∙ rw (half, joined) (omega arith)

and_none : (n x : ℕ) → x ≤ n → bit_and x 0 ≡ 0
and_none n zero h = bit_and-bitwise 0 0
and_none zero (suc x) h = absurd (omega arith)
and_none (suc n) (suc x) h =
    omega (arith, and_halves (suc x) 0, and_none n (suc x / 2) (omega arith))

mod-doubled : (q a : ℕ) → 0 < q → a % (q * 2) ≡ (a / 2 % q) * 2 + a % 2
mod-doubled q a h =
    let d : ℕ = a / 2 / q in
    let r : ℕ = (a / 2 % q) * 2 + a % 2 in
    let whole : a ≡ d * (q * 2) + r = omega (arith, div-add-mod' (a / 2) q, mul_assoc d q 2) in
    ap (λ t. t % (q * 2)) whole
    ∙ mul-add-mod_self_right d (q * 2) r
    ∙ mod-eq_of_lt (omega (arith, mod-lt (a / 2) h))

-- A mask of k ones.
pub bit_and-mask : (k a : ℕ) → bit_and a (2 ^ k - 1) ≡ a % 2 ^ k
bit_and-mask zero a = and_none a a (omega arith) ∙ omega arith
bit_and-mask (suc k) a =
    let some_ones : 0 < 2 ^ k = pow_pos k in
    let half : (2 ^ suc k - 1) / 2 ≡ 2 ^ k - 1 = omega (arith, pow-suc 2 k, some_ones) in
    let odd : (2 ^ suc k - 1) % 2 ≡ 1 = omega (arith, pow-suc 2 k, some_ones) in
    and_halves a (2 ^ suc k - 1)
    ∙ rw (half, odd, bit_and-mask k (a / 2), pow-suc 2 k, mod-doubled (2 ^ k) a some_ones)
        (omega arith)
  where
    pow_pos : (k : ℕ) → 0 < 2 ^ k
    pow_pos zero = omega arith
    pow_pos (suc k) = omega (arith, pow-suc 2 k, pow_pos k)
