-- ===== src/SegAllocator/Tests.antt =====
-- Runs of the allocator of seg_allocator.h on a block of 40 bytes from address 100.
use usable_lib.Prelude.{◌≤◌, ◌≡◌, inl, inr, refl, true, false, [], ◌∷◌, some, arith}
use usable_lib.SegAllocator.{
  SegAllocator, seg, create, allocate, take_from, placement_allocate, deallocate,
}
use usable_lib.SegAllocator.OffMap.{Seg, at_or_before}
use usable_lib.SegAllocator.SizeSet.{lower_bound}
use usable_lib.SegAllocator.Entries.{has, Sorted}
use usable_lib.SegAllocator.Segs.{Segs, Disjoint, Within, covers}
use usable_lib.SegAllocator.Validity.{IsValid}
use usable_lib.SegAllocator.Allocate.{allocate-least, allocate-takes}
use usable_lib.SegAllocator.Deallocate.{deallocate-gives}
use usable_lib.SegAllocator.Placing.{placement_allocate-takes}
use usable_lib.SegAllocator.Reverse.{SegAllocatorReverse}

-- free: 10 bytes from 100 and 20 bytes from 120
abbrev two : SegAllocator
two = record { by_off = seg 100 10 ∷ seg 120 20 ∷ []; by_siz = seg 100 10 ∷ seg 120 20 ∷ [] }

two-IsValid : IsValid two
unfolding IsValid Segs Sorted has
two-IsValid = (
  ((omega arith, omega arith, omega arith), ((omega arith, omega arith, omega arith), tt)),
  λ e. refl,
  (λ e h. ground arith, (λ e h. absurd (ground arith), tt)),
)

allocate-least_example :
    (g : Seg) × ((allocate two 8).0 ≡ some g.off)
    × (has g two.by_off ≡ true)
    × (8 ≤ g.len)
    × (g.len ≤ 20)
unfolding has
allocate-least_example = allocate-least two 8 two-IsValid (seg 120 20) refl (omega arith)

allocate-takes_example :
    Within 100 8 two.by_off
    × IsValid (allocate two 8).1
    × (covers (allocate two 8).1.by_off 105 ≡ false)
unfolding allocate take_from lower_bound
allocate-takes_example = allocate-takes two 8 100 two-IsValid (omega arith) refl 105

deallocate-gives_example :
    IsValid (deallocate two 110 10) × (covers (deallocate two 110 10).by_off 115 ≡ true)
unfolding Disjoint
deallocate-gives_example =
    deallocate-gives two 110 10 two-IsValid (omega arith) (omega arith)
      (inl (omega arith), (inr (omega arith), tt)) 115

placement_allocate-takes_example :
    (m' : SegAllocator) × (placement_allocate two 135 5 ≡ some (true, m'))
    × IsValid m'
    × (covers m'.by_off 137 ≡ false)
unfolding at_or_before
placement_allocate-takes_example =
    placement_allocate-takes two 135 5 two-IsValid (omega arith) (seg 120 20) refl 137 (omega arith)
      (inl refl)

abbrev block : SegAllocatorReverse
block = record { under = create 100 40; base = 100; size = 40 }
