-- ===== src/SegAllocator/OffMap.antt =====
-- `std::map<uintptr_t, size_t>`, as seg_allocator.h uses it: the entries in the order of the keys.
use usable_lib.Prelude.{ℕ, Option, none, some, List, [], ◌∷◌, if◌then◌else◌, ◌==◌, ltb}

-- an entry: an offset with the length from there
pub record Seg : Type 0 where
  pub off : ℕ
  pub len : ℕ

-- an entry whose key is there changes nothing
unfoldable pub insert : Seg → List Seg → List Seg
insert e [] = e ∷ []
insert e (g ∷ l) =
    let rest = insert e l in
    if ltb e.off g.off then e ∷ g ∷ l else if e.off == g.off then g ∷ l else g ∷ rest

unfoldable pub erase : ℕ → List Seg → List Seg
erase k [] = []
erase k (g ∷ l) = let rest = erase k l in if g.off == k then l else g ∷ rest

-- `iter->second = v` at the entry of `k`
unfoldable pub assign : ℕ → ℕ → List Seg → List Seg
assign k v [] = []
assign k v (g ∷ l) =
    let rest = assign k v l in if g.off == k then record g { len = v } ∷ l else g ∷ rest

unfoldable pub lower_bound : ℕ → List Seg → Option Seg
lower_bound k [] = none
lower_bound k (g ∷ l) = let rest = lower_bound k l in if ltb g.off k then rest else some g

-- the entry before the lower bound of `k`
unfoldable pub before : ℕ → List Seg → Option Seg
before k [] = none
before k (g ∷ l) =
    let rest = before k l in
    if ltb g.off k then elim rest [ none ↦ some g | some h ↦ some h ] else none

-- the last entry whose key is not above `k`
unfoldable pub at_or_before : ℕ → List Seg → Option Seg
at_or_before k [] = none
at_or_before k (g ∷ l) =
    let rest = at_or_before k l in
    if ltb k g.off then none else elim rest [ none ↦ some g | some h ↦ some h ]
