-- ===== src/Base/Heap.antt =====
-- `std::cmp::Ordering` and `std::collections::BinaryHeap`: a heap is the list of its entries, oldest
-- first. `pop` takes a greatest entry; which of several is not specified, here the oldest.
pub mod Laws
pub mod Total
use Prim.Native.Nat.{ℕ, compare, Ordering as Native}
use mathlib.Core.Path.{◌≡◌}
use mathlib.Core.Logic.{◌≢◌}
use mathlib.Core.Option.{Option, none, some}
use mathlib.Core.List.{List, [], ◌∷◌, ◌++◌}

pub data Ordering : Type 0 where
  less equal greater : Ordering

abbrev pub reversed : Ordering → Ordering
reversed less = greater
reversed equal = equal
reversed greater = less

abbrev pub nat_cmp : ℕ → ℕ → Ordering
nat_cmp a b = elim (compare a b) [ Native.lt ↦ less | Native.eq ↦ equal | Native.gt ↦ greater ]

-- `None` is less than every `Some`.
abbrev pub option_cmp : Option ℕ → Option ℕ → Ordering
option_cmp none none = equal
option_cmp none (some b) = less
option_cmp (some a) none = greater
option_cmp (some a) (some b) = nat_cmp a b

-- `Ord::cmp` is a total preorder: reversed by a swap, and transitive.
pub record IsPreorder {A : Type 0} (cmp : A → A → Ordering) : Type 0 where
  pub swapped : (a b : A) → cmp b a ≡ reversed (cmp a b)
  pub transitive : (a b c : A) → cmp a b ≢ less → cmp b c ≢ less → cmp a c ≢ less

module _ {A : Type 0} where
  abbrev pub push : List A → A → List A
  push q x = q ++ x ∷ []

  abbrev pub extend : List A → List A → List A
  extend q xs = q ++ xs

  -- One step of the search for a greatest entry.
  abbrev better : A → List A → Ordering → A → List A → A × List A
  better x xs less m rest = (m, x ∷ rest)
  better x xs equal m rest = (x, xs)
  better x xs greater m rest = (x, xs)

  unfoldable pub pop : (A → A → Ordering) → List A → Option (A × List A)
  pop cmp [] = none
  pop cmp (x ∷ xs) = elim (pop cmp xs) [
    | none ↦ some (x, [])
    | some (m, rest) ↦ some (better x xs (cmp x m) m rest)
  ]

  unfoldable pub peek : (A → A → Ordering) → List A → Option A
  unfolding pop
  peek cmp q = elim (pop cmp q) [ none ↦ none | some (m, rest) ↦ some m ]
