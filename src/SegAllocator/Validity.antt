-- ===== src/SegAllocator/Validity.antt =====
-- What holds between calls: the same segments in the map and in the set, in order and apart.
use usable_lib.Prelude.{ℕ, ◌≡◌, ◌<◌, ◌+◌, ◌^◌, refl, arith}
use usable_lib.SegAllocator.OffMap.{Seg}
use usable_lib.SegAllocator.Entries.{has, Sorted}
use usable_lib.SegAllocator.Segs.{Segs}
use usable_lib.SegAllocator.{SegAllocator, create}

unfoldable pub IsValid : SegAllocator → Type 0
IsValid m = (Segs 0 m.by_off) × ((e : Seg) → has e m.by_siz ≡ has e m.by_off) × (Sorted m.by_siz)

-- A new allocator of a range that is not empty and ends below 2 ^ 64 is valid.
pub create-IsValid : (base size : ℕ) → 0 < size → base + size < 2 ^ 64 → IsValid (create base size)
unfolding IsValid Segs has Sorted
create-IsValid base size h k =
    (((omega arith, h, k), tt), λ e. refl, (λ e no_entry. absurd (ground arith), tt))
