-- ===== src/Base/Heap/Total.antt =====
-- Sums of a weight over a list or heap: counts, and what an operation conserves.
use flow_cloud.Base.{
  ℕ, ◌+◌, ◌≤◌, ◌≡◌, refl, some, List, [], ◌∷◌, ◌++◌, map, reverse, arith, Bool, true, ◌&&◌,
  contains, Eq, ◌==◌, if◌then◌else◌, retain,
}
use mathlib.Core.List.{reverse-cons}
use flow_cloud.Base.Heap.{Ordering, pop}
use flow_cloud.Base.Heap.Laws.{alone, later, first, pop_cases, pop-empty}

module _ {A : Type 0} (w : A → ℕ) where
  abbrev pub total : List A → ℕ
  total [] = 0
  total (x ∷ xs) = w x + total xs

  pub total-append : (xs ys : List A) → total (xs ++ ys) ≡ total xs + total ys
  total-append [] ys = omega arith
  total-append (x ∷ xs) ys = omega (arith, total-append xs ys)

  pub total-reverse : (xs : List A) → total (reverse xs) ≡ total xs
  total-reverse [] = refl
  total-reverse (x ∷ xs) =
      rw (reverse-cons x xs) (omega (arith, total-append (reverse xs) (x ∷ []), total-reverse xs))

  -- `pop` splits the weight of a heap between the popped entry and the rest.
  pub total-pop :
      (cmp : A → A → Ordering) (q : List A) (m : A) (rest : List A)
      → pop cmp q ≡ some (m, rest)
      → total q ≡ w m + total rest
  total-pop cmp [] m rest h = unfold pop in cc
  total-pop cmp (x ∷ xs) m rest h = elim (pop_cases cmp x xs m rest h) [
    | alone e p q ↦ rw (pop-empty cmp xs e, p, q)
    | later r e c q ↦ rw q (omega (arith, total-pop cmp xs m r e))
    | first n r e c p q ↦ rw (p, q)
  ]

-- How many entries have a key.
abbrev pub hits : {K A : Type 0} ⦃e : Eq K⦄ → (A → K) → K → A → ℕ
hits key k a = if key a == k then 1 else 0

module _ {K A : Type 0} ⦃e : Eq K⦄ (key : A → K) where
  -- A key is in the list of the keys exactly if some entry has it.
  pub contains-hits :
      (k : K) (xs : List A) → contains (map key xs) k ≡ true → 1 ≤ total (hits key k) xs
  contains-hits k [] h = cc
  contains-hits k (x ∷ xs) h = ground (arith, contains-hits k xs)

module _ {K : Type 0} ⦃e : Eq K⦄ where
  pub contains-retain :
      (p : K → Bool) (ks : List K) (k : K) → contains (retain p ks) k ≡ contains ks k && p k
  contains-retain p [] k = refl
  contains-retain p (j ∷ ks) k = ground (arith, e.beq_iff j k, contains-retain p ks k)
