-- ===== src/SegAllocator/SizeSet.antt =====
-- `std::set<std::pair<size_t, uintptr_t>>`, as seg_allocator.h uses it: the pairs in their order.
use usable_lib.Prelude.{
  ℕ, Bool, true, false, Option, none, some, List, [], ◌∷◌, if◌then◌else◌, ◌==◌, ltb,
}
use usable_lib.SegAllocator.OffMap.{Seg}

abbrev pub same : Seg → Seg → Bool
same e g = if e.len == g.len then e.off == g.off else false

-- the order of pairs: sizes first
abbrev pub less : Seg → Seg → Bool
less e g = if ltb e.len g.len then true else if e.len == g.len then ltb e.off g.off else false

unfoldable pub insert : Seg → List Seg → List Seg
insert e [] = e ∷ []
insert e (g ∷ l) =
    let rest = insert e l in if less e g then e ∷ g ∷ l else if same e g then g ∷ l else g ∷ rest

unfoldable pub erase : Seg → List Seg → List Seg
erase e [] = []
erase e (g ∷ l) = let rest = erase e l in if same e g then rest else g ∷ rest

-- the lower bound of `(size, 0)`
unfoldable pub lower_bound : ℕ → List Seg → Option Seg
lower_bound size [] = none
lower_bound size (g ∷ l) =
    let rest = lower_bound size l in
    if less g (record { len = size; off = 0 }) then rest else some g
