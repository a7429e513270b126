-- ===== src/Base/Decimal.antt =====
-- `to_string` and `from_str` of Rust's integers, over the bytes of the text.
use flow_cloud.Base.{
  ℕ, zero, suc, ◌+◌, ◌-◌, ◌*◌, ◌/◌, ◌%◌, ◌^◌, ◌≤◌, ◌≡◌, refl, subst, Bool-cases, ◌∙◌, inl, inr,
  Bool, true, false, ◌&&◌, Option, none, some, [], ◌∷◌, ◌++◌, arith, ltb, leb, if◌then◌else◌, Text,
  All, All-append,
}
use flow_cloud.Base.Int.{ℤ, pos, negsuc}

-- The decimal digits of a number; the number itself is fuel enough, since a division by 10 makes it
-- smaller.
unfoldable pub digits : ℕ → ℕ → Text
digits zero n = (48 + n % 10) ∷ []
digits (suc fuel) n =
    let rest = digits fuel (n / 10) in
    if ltb n 10 then (48 + n) ∷ [] else rest ++ (48 + n % 10) ∷ []

unfoldable pub print_ℕ : ℕ → Text
unfolding digits
print_ℕ n = digits n n

unfoldable pub print_ℤ : ℤ → Text
unfolding print_ℕ
print_ℤ (pos n) = print_ℕ n
print_ℤ (negsuc n) = b'-' ∷ print_ℕ (n + 1)

abbrev pub is_digit : ℕ → Bool
is_digit d = leb 48 d && leb d 57

parse_loop : ℕ → Text → Option ℕ
parse_loop acc [] = some acc
parse_loop acc (d ∷ ds) =
    let rest = parse_loop (acc * 10 + (d - 48)) ds in if is_digit d then rest else none

abbrev in_range : ℕ → Option ℕ → Option ℕ
in_range max none = none
in_range max (some n) = if leb n max then some n else none

-- The text without a leading `+`.
unsigned_digits : Text → Text
unsigned_digits [] = []
unsigned_digits (d ∷ ds) = elim (leb 43 d && leb d 43) [ true ↦ ds | false ↦ d ∷ ds ]

-- `from_str` of an unsigned type with the given greatest value; `none` is a `ParseIntError`.
unfoldable pub parse_unsigned : ℕ → Text → Option ℕ
unfolding parse_loop unsigned_digits
parse_unsigned max text = elim (unsigned_digits text) [
  | [] ↦ none
  | d ∷ ds ↦ in_range max (parse_loop 0 (d ∷ ds))
]

parse_loop-append :
    (acc : ℕ) (xs ys : Text) (n : ℕ)
    → parse_loop acc xs ≡ some n
    → parse_loop acc (xs ++ ys) ≡ parse_loop n ys
unfolding parse_loop
parse_loop-append acc [] ys n h = ground arith
parse_loop-append acc (d ∷ ds) ys n h =
    ground (arith, parse_loop-append (acc * 10 + (d - 48)) ds ys n)

parse_loop-digits : (fuel n : ℕ) → n ≤ fuel → parse_loop 0 (digits fuel n) ≡ some n
unfolding digits
parse_loop-digits zero zero h = unfold parse_loop in refl
parse_loop-digits zero (suc n) h = absurd (omega arith)
parse_loop-digits (suc fuel) n h = elim (Bool-cases (ltb n 10)) [
  | inl small ↦ rw small (unfold parse_loop in ground arith)
  | inr big ↦ rw big (
      parse_loop-append 0 (digits fuel (n / 10)) _ (n / 10)
        (parse_loop-digits fuel (n / 10) (ground arith))
      ∙ unfold parse_loop in ground arith)
]

abbrev pub IsDigit : ℕ → Type 0
IsDigit d = (48 ≤ d) × (d ≤ 57)

digits-IsDigit : (fuel n : ℕ) → All IsDigit (digits fuel n)
unfolding digits
digits-IsDigit zero n = (omega arith, tt)
digits-IsDigit (suc fuel) n =
    let low : All IsDigit ((48 + n % 10) ∷ []) = ((omega arith, omega arith), tt) in
    elim (Bool-cases (ltb n 10)) [
      | inl small ↦ rw small (ground arith)
      | inr big ↦
          rw big (All-append IsDigit (digits fuel (n / 10)) _ (digits-IsDigit fuel (n / 10)) low)
    ]

digits_head : (fuel n : ℕ) → (d : ℕ) × (ds : Text) × (digits fuel n ≡ d ∷ ds)
unfolding digits
digits_head zero n = (48 + n % 10, [], refl)
digits_head (suc fuel) n = elim (Bool-cases (ltb n 10)) [
  | inl small ↦ (48 + n, [], rw small)
  | inr big ↦
      let (d, ds, e) = digits_head fuel (n / 10) in (d, ds ++ (48 + n % 10) ∷ [], rw (big, e))
]

-- The text of a number begins with a digit.
pub print_ℕ_head : (n : ℕ) → (d : ℕ) × (ds : Text) × (print_ℕ n ≡ d ∷ ds) × IsDigit d
unfolding print_ℕ
print_ℕ_head n =
    let (d, ds, e) = digits_head n n in (d, ds, e, (subst (All IsDigit) e (digits-IsDigit n n)).0)

pub print_ℕ-IsDigit : (n : ℕ) → All IsDigit (print_ℕ n)
unfolding print_ℕ
print_ℕ-IsDigit n = digits-IsDigit n n

-- Parsing the text of a number that is in range gives the number back.
pub parse_unsigned-print_ℕ : (max n : ℕ) → n ≤ max → parse_unsigned max (print_ℕ n) ≡ some n
unfolding parse_unsigned
parse_unsigned-print_ℕ max n h =
    let (d, ds, e, digit) = print_ℕ_head n in
    rw e (
      go d ds digit (
        subst (λ t. parse_loop 0 t ≡ some n) e
          (unfold print_ℕ in parse_loop-digits n n (omega arith))))
  where
    go :
        (d : ℕ) (ds : Text)
        → IsDigit d
        → parse_loop 0 (d ∷ ds) ≡ some n
        → parse_unsigned max (d ∷ ds) ≡ some n
    go d ds digit p = ground (arith, p)

-- `i32::from_str`: a sign, and digits up to 2^31 - 1, or to 2^31 behind a minus.
negated : Option ℕ → Option ℤ
negated none = none
negated (some zero) = some (pos 0)
negated (some (suc n)) = some (negsuc n)

unnegated : Option ℕ → Option ℤ
unnegated none = none
unnegated (some n) = some (pos n)

minus_digits : Text → Option ℤ
unfolding negated
minus_digits [] = none
minus_digits (d ∷ ds) = negated (in_range (2 ^ 31) (parse_loop 0 (d ∷ ds)))

unfoldable pub parse_i32 : Text → Option ℤ
unfolding minus_digits unnegated parse_unsigned parse_loop
parse_i32 [] = none
parse_i32 (d ∷ ds) =
    if leb 45 d && leb d 45
    then minus_digits ds
    else unnegated (parse_unsigned (2 ^ 31 - 1) (d ∷ ds))
