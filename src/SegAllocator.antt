-- ===== src/SegAllocator.antt =====
-- seg_allocator.h, class `SegAllocator`: the free segments of an address range, in a map by offset
-- and in a set by size. Sizes and addresses are 64-bit words.
pub mod OffMap
pub mod SizeSet
pub mod Segs
pub mod Freeing
pub mod Taking
pub mod Entries
pub mod Validity
pub mod Taken
pub mod Allocate
pub mod Placement
pub mod OutOfStep
pub mod Placing
mod Tests
pub mod Reverse
pub mod Deallocate
pub mod Keys
use usable_lib.Prelude.{
  ℕ, zero, ◌≡◌, Bool, true, false, Option, none, some, List, [], ◌∷◌, if◌then◌else◌, ◌==◌, ltb,
  add64, sub64,
}
use usable_lib.SegAllocator.OffMap.{Seg}

-- The fields `free_seg_set_off` and `free_seg_set_siz`.
pub record SegAllocator : Type 0 where
  pub by_off : List Seg
  pub by_siz : List Seg

abbrev pub seg : ℕ → ℕ → Seg
seg off len = record { off = off; len = len }

-- `SegAllocator(base, size)`
abbrev pub create : ℕ → ℕ → SegAllocator
create base size = record { by_off = seg base size ∷ []; by_siz = seg base size ∷ [] }

-- `allocate` after the search: the address, or `none` for `nullptr`.
unfoldable pub take_from : SegAllocator → ℕ → Option Seg → Option ℕ × SegAllocator
take_from m size none = (none, m)
take_from m size (some iter) =
    let off : ℕ = iter.off in
    let less : ℕ = sub64 iter.len size in
    let split : Bool = ltb 0 less in
    let rest : Seg = seg (add64 off size) less in
    let by_off : List Seg = if split then OffMap.insert rest m.by_off else m.by_off in
    let by_siz : List Seg = if split then SizeSet.insert rest m.by_siz else m.by_siz in
    (some off, record { by_off = OffMap.erase iter.off by_off; by_siz = SizeSet.erase iter by_siz })

unfoldable pub allocate : SegAllocator → ℕ → Option ℕ × SegAllocator
allocate m size = take_from m size (SizeSet.lower_bound size m.by_siz)

-- `free_seg_set_siz.erase` of what the reverse iterator of the search stands for once its own entry is
-- erased: the entry before. Without one it stands for no entry, and `none` is the result.
abbrev pub erase_before : SegAllocator → Seg → Option Seg → Option (Bool × SegAllocator)
erase_before m iter none = none
erase_before m iter (some prev) =
    some (
      true,
      record { by_off = OffMap.erase iter.off m.by_off; by_siz = SizeSet.erase prev m.by_siz },
    )

-- `placement_allocate` after the search: whether it returns `p`. Once the right part is inserted behind the
-- entry of the search, the reverse iterator stands for the right part.
unfoldable pub place_in : SegAllocator → ℕ → ℕ → Option Seg → Option (Bool × SegAllocator)
place_in m off size none = some (false, m)
place_in m off size (some iter) =
    let less : ℕ = sub64 iter.len size in
    let without : List Seg = SizeSet.erase iter m.by_siz in
    if ltb (add64 iter.off iter.len) (add64 off size)
    then some (false, m)
    else if less == 0
    then erase_before m iter (OffMap.before iter.off m.by_off)
    else if iter.off == off
    then some (
      true,
      record {
        by_off = OffMap.insert (seg off less) (OffMap.erase iter.off m.by_off);
        by_siz = SizeSet.insert (seg off less) without;
      },
    )
    else if add64 iter.off iter.len == add64 off size
    then some (
      true,
      record {
        by_off = OffMap.assign iter.off less m.by_off;
        by_siz = SizeSet.insert (seg iter.off less) without;
      },
    )
    else let left : ℕ = sub64 off iter.off in
      let right : Seg = seg (add64 off size) (sub64 less left) in
      some (
        true,
        record {
          by_off = OffMap.insert right (OffMap.assign iter.off left m.by_off);
          by_siz =
              SizeSet.insert (seg right.off (sub64 less right.len))
                (SizeSet.insert (seg iter.off left) without);
        },
      )

unfoldable pub placement_allocate : SegAllocator → ℕ → ℕ → Option (Bool × SegAllocator)
placement_allocate m off size = place_in m off size (OffMap.at_or_before off m.by_off)

-- The tests of `deallocate` on the segments after and before.
abbrev pub meets_next : ℕ → Option Seg → Bool
meets_next stop none = false
meets_next stop (some next) = stop == next.off

abbrev pub meets_prev : ℕ → Option Seg → Bool
meets_prev off none = false
meets_prev off (some prev) = add64 prev.off prev.len == off

-- The four cases of `deallocate`: which of the neighbours are merged.
unfoldable pub merge : SegAllocator → ℕ → ℕ → Option Seg → Option Seg → SegAllocator
merge m off size none none = record {
  by_off = OffMap.insert (seg off size) m.by_off;
  by_siz = SizeSet.insert (seg off size) m.by_siz;
}
merge m off size none (some iter) =
    let joined : Seg = seg (sub64 iter.off size) (add64 iter.len size) in
    record {
      by_off = OffMap.erase iter.off (OffMap.insert joined m.by_off);
      by_siz = SizeSet.insert joined (SizeSet.erase iter m.by_siz);
    }
merge m off size (some prev) none =
    let len : ℕ = add64 prev.len size in
    record {
      by_off = OffMap.assign prev.off len m.by_off;
      by_siz = SizeSet.insert (seg prev.off len) (SizeSet.erase prev m.by_siz);
    }
merge m off size (some prev) (some iter) =
    let len : ℕ = add64 prev.len (add64 size iter.len) in
    record {
      by_off = OffMap.erase iter.off (OffMap.assign prev.off len m.by_off);
      by_siz = SizeSet.insert (seg prev.off len) (SizeSet.erase iter (SizeSet.erase prev m.by_siz));
    }

unfoldable pub deallocate : SegAllocator → ℕ → ℕ → SegAllocator
deallocate m off size =
    let next : Option Seg = OffMap.lower_bound off m.by_off in
    let prev : Option Seg = OffMap.before off m.by_off in
    merge m off size (if meets_prev off prev then prev else none)
      (if meets_next (add64 off size) next then next else none)
