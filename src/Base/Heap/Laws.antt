-- ===== src/Base/Heap/Laws.antt =====
-- Laws of `pop`: it keeps the entries, and takes a greatest one.
use mathlib.Core.List.{Perm}
use mathlib.Core.List.Perm
use flow_cloud.Base.{
  suc, ◌≡◌, ◌≢◌, refl, sym, ap, subst, inl, inr, none, some, List, [], ◌∷◌, arith, length, All,
  Option-cases, All-map,
}
use flow_cloud.Base.Heap.{Ordering, less, equal, greater, IsPreorder, pop}

module _ {A : Type 0} (cmp : A → A → Ordering) where
  pub pop-empty : (q : List A) → pop cmp q ≡ none → q ≡ []
  unfolding pop
  pop-empty [] h = refl
  pop-empty (x ∷ xs) h = ground arith

  -- How an entry and the rest of the heap make up the result of `pop`.
  pub data PopCase (x : A) (xs : List A) (m : A) (rest : List A) : Type 0 where
    alone : pop cmp xs ≡ none → m ≡ x → rest ≡ [] → PopCase x xs m rest
    later :
        (r : List A)
        → pop cmp xs ≡ some (m, r)
        → cmp x m ≡ less
        → rest ≡ x ∷ r
        → PopCase x xs m rest
    first :
        (n : A) (r : List A)
        → pop cmp xs ≡ some (n, r)
        → cmp x n ≢ less
        → m ≡ x
        → rest ≡ xs
        → PopCase x xs m rest

  pub pop_cases :
      (x : A) (xs : List A) (m : A) (rest : List A)
      → pop cmp (x ∷ xs) ≡ some (m, rest)
      → PopCase x xs m rest
  unfolding pop
  pop_cases x xs m rest h = elim (Option-cases (pop cmp xs)) [
    | inl e ↦ alone e (ground arith) (ground arith)
    | inr ((n, r), e) ↦ go n r e (cmp x n) refl
  ]
    where
      go :
          (n : A) (r : List A)
          → pop cmp xs ≡ some (n, r)
          → (o : Ordering) → cmp x n ≡ o
          → PopCase x xs m rest
      go n r e less c = later r (ground arith) (ground arith) (ground arith)
      go n r e equal c = first n r e (λ b. cc) (ground arith) (ground arith)
      go n r e greater c = first n r e (λ b. cc) (ground arith) (ground arith)

  pub pop-perm :
      (q : List A) (m : A) (rest : List A) → pop cmp q ≡ some (m, rest) → Perm q (m ∷ rest)
  pop-perm [] m rest h = unfold pop in cc
  pop-perm (x ∷ xs) m rest h = elim (pop_cases x xs m rest h) [
    | alone e p q ↦ rw (pop-empty xs e, p, q) (Perm.refl _)
    | later r e c q ↦ rw q (Perm.trans (Perm.cons x (pop-perm xs m r e)) (Perm.swap m x r))
    | first n r e c p q ↦ rw (p, q) (Perm.refl _)
  ]

  pub length-pop :
      (q : List A) (m : A) (rest : List A)
      → pop cmp q ≡ some (m, rest)
      → length q ≡ suc (length rest)
  length-pop [] m rest h = unfold pop in cc
  length-pop (x ∷ xs) m rest h = elim (pop_cases x xs m rest h) [
    | alone e p q ↦ rw (pop-empty xs e, q)
    | later r e c q ↦ rw q (ap suc (length-pop xs m r e))
    | first n r e c p q ↦ rw q
  ]

module _ {A : Type 0} (cmp : A → A → Ordering) (ord : IsPreorder cmp) where
  pub cmp_self : (a : A) → cmp a a ≢ less
  cmp_self a h = cc (ord.swapped a a)

  pub pop_greatest :
      (q : List A) (m : A) (rest : List A)
      → pop cmp q ≡ some (m, rest)
      → All (λ y. cmp m y ≢ less) q
  pop_greatest [] m rest h = tt
  pop_greatest (x ∷ xs) m rest h = elim (pop_cases cmp x xs m rest h) [
    | alone e p q ↦ rw (pop-empty cmp xs e, p) (cmp_self x, tt)
    | later r e c q ↦ (ground (arith, ord.swapped x m), pop_greatest xs m r e)
    | first n r e c p q ↦
        subst (λ z. All (λ y. cmp z y ≢ less) (x ∷ xs)) (sym p)
          (cmp_self x, All-map _ _ (λ y b. ord.transitive x n y c b) xs (pop_greatest xs n r e))
  ]
