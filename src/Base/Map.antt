-- ===== src/Base/Map.antt =====
-- `HashMap`, `DashMap` and `BTreeMap` as association lists without repeated keys.
-- The order in which a hash map is iterated is not specified; here it is the order of insertion.
use flow_cloud.Base.Tests.{if◌then◌else◌, Bool-cases, if_split}
use flow_cloud.Base.Classes.{Eq, ◌==◌}
use mathlib.Core.Path.{◌≡◌, refl, subst}
use mathlib.Core.Logic.{inl, inr}
use mathlib.Core.Bool.{Bool, true, false}
use mathlib.Core.Option.{Option, none, some}
use mathlib.Core.List.{List, [], ◌∷◌}
use native.Mathlib.Omega.{arith}

abbrev pub Map : Type 0 → Type 0 → Type 0
Map K V = List (K × V)

pub some_injective : {A : Type 0} {a b : A} → some a ≡ some b → a ≡ b
some_injective h = cc

module _ {K V : Type 0} ⦃e : Eq K⦄ where
  abbrev pub get : Map K V → K → Option V
  get [] k = none
  get ((j, v) ∷ m) k = if j == k then some v else get m k

  abbrev pub insert : Map K V → K → V → Map K V
  insert [] k v = (k, v) ∷ []
  insert ((j, w) ∷ m) k v = let rest = insert m k v in if j == k then (j, v) ∷ m else (j, w) ∷ rest

  abbrev pub remove : Map K V → K → Map K V
  remove [] k = []
  remove ((j, w) ∷ m) k = let rest = remove m k in if j == k then rest else (j, w) ∷ rest

  abbrev pub contains_key : Map K V → K → Bool
  contains_key m k = elim (get m k) [ none ↦ false | some v ↦ true ]

  pub get-insert :
      (m : Map K V) (k : K) (v : V) (j : K)
      → get (insert m k v) j ≡ (if k == j then some v else get m j)
  get-insert [] k v j = refl
  get-insert ((i, w) ∷ m) k v j =
      ground (arith, e.beq_iff i k, e.beq_iff i j, e.beq_iff k j, get-insert m k v j)

  pub get-remove : (m : Map K V) (k j : K) → get (remove m k) j ≡ (if k == j then none else get m j)
  get-remove [] k j = ground arith
  get-remove ((i, w) ∷ m) k j =
      ground (arith, e.beq_iff i k, e.beq_iff i j, e.beq_iff k j, get-remove m k j)

  -- A property of every entry that `get` finds.
  abbrev pub Holds : (K → V → Type 0) → Map K V → Type 0
  Holds P m = (k : K) (v : V) → get m k ≡ some v → P k v

  pub Holds-insert :
      (P : K → V → Type 0) (m : Map K V) (k : K) (v : V)
      → P k v
      → Holds P m
      → Holds P (insert m k v)
  Holds-insert P m k v p h j w found = elim (Bool-cases (k == j)) [
    | inl same ↦
        let new : some v ≡ some w = ground (arith, get-insert m k v j) in
        subst (λ i. P i w) ((e.beq_iff k j).0 same) (subst (P k) (some_injective new) p)
    | inr other ↦ h j w (ground (arith, get-insert m k v j))
  ]

  pub Holds-remove : (P : K → V → Type 0) (m : Map K V) (k : K) → Holds P m → Holds P (remove m k)
  Holds-remove P m k h j w found = h j w (ground (arith, get-remove m k j))

  -- No key is there twice, as in a hash map.
  abbrev pub AreDistinct : Map K V → Type 0
  AreDistinct [] = Unit
  AreDistinct ((k, v) ∷ m) = (get m k ≡ none) × AreDistinct m

  pub insert-AreDistinct :
      (m : Map K V) (k : K) (v : V) → AreDistinct m → AreDistinct (insert m k v)
  insert-AreDistinct [] k v h = (refl, tt)
  insert-AreDistinct ((j, w) ∷ m) k v h =
      if_split AreDistinct (j == k) _ _ (λ same. h)
        (λ other. (
          ground (arith, get-insert m k v j, h.0, other, e.beq_iff k j, e.beq_iff j k),
          insert-AreDistinct m k v h.1,
        ))

  -- What is found in the rest of such a map is found in the map.
  pub get-tail :
      (k : K) (v : V) (m : Map K V) (j : K) (w : V)
      → get m k ≡ none
      → get m j ≡ some w
      → get ((k, v) ∷ m) j ≡ some w
  get-tail k v m j w h found = ground (arith, e.beq_iff k j)
