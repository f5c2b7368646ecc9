-- ===== src/PlAllocator.antt =====
-- pl_allocator.h, class `pl_allocator`: single objects that are given back are kept for the next
-- call. The state is one thread's `v_pl`, its last element first, with the state of the allocator
-- underneath.
pub mod Owned
mod Tests
use usable_lib.Prelude.{ℕ, List, [], ◌∷◌, if◌then◌else◌, ltb}

-- `_Alloc`, which is not this file's code
pub record Alloc : Type 1 where
  pub Heap : Type 0
  pub allocate : Heap → ℕ → ℕ × Heap
  pub deallocate : Heap → ℕ → ℕ → Heap

pub record PlAllocator (Heap : Type 0) : Type 0 where
  pub v_pl : List ℕ
  pub heap : Heap

module _ (under : Alloc) where
  abbrev pub grow : PlAllocator under.Heap → ℕ → ℕ × PlAllocator under.Heap
  grow m n = let r = under.allocate m.heap n in (r.0, record m { heap = r.1 })

  unfoldable pub allocate : PlAllocator under.Heap → ℕ → ℕ × PlAllocator under.Heap
  allocate m n =
      if ltb 1 n
      then grow m n
      else elim m.v_pl [ [] ↦ grow m n | p ∷ rest ↦ (p, record m { v_pl = rest }) ]

  unfoldable pub deallocate : PlAllocator under.Heap → ℕ → ℕ → PlAllocator under.Heap
  deallocate m p n =
      if ltb 1 n
      then record m { heap = under.deallocate m.heap p n }
      else record m { v_pl = p ∷ m.v_pl }
