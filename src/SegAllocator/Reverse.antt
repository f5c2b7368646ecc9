-- ===== src/SegAllocator/Reverse.antt =====
-- seg_allocator.h, class `SegAllocatorReverse`: the addresses of a `SegAllocator`, mirrored.
use usable_lib.Prelude.{
  ℕ, ◌+◌, ◌-◌, ◌*◌, ◌≤◌, ◌<◌, ◌≡◌, ◌^◌, Bool, Option, none, some, add64, sub64, arith, ◌↔◌, ◌>>=◌,
}
use usable_lib.SegAllocator
use usable_lib.SegAllocator.Freeing.{add64_lem, sub64_lem}
use usable_lib.SegAllocator.{SegAllocator}

-- The fields `base` and `size`, with the allocator underneath.
pub record SegAllocatorReverse : Type 0 where
  pub under : SegAllocator
  pub base : ℕ
  pub size : ℕ

unfoldable pub reverse_ptr : SegAllocatorReverse → ℕ → ℕ → ℕ
reverse_ptr m p size = sub64 (add64 (sub64 (sub64 (add64 m.base m.size) 1) p) m.base) size

unfoldable pub allocate : SegAllocatorReverse → ℕ → Option ℕ × SegAllocatorReverse
allocate m size =
    let r = SegAllocator.allocate m.under size in
    (elim r.0 [ none ↦ none | some p ↦ some (reverse_ptr m p size) ], record m { under = r.1 })

unfoldable pub placement_allocate :
    SegAllocatorReverse → ℕ → ℕ → Option (Bool × SegAllocatorReverse)
placement_allocate m p size =
    SegAllocator.placement_allocate m.under (reverse_ptr m p size) size >>= λ r.
    some (r.0, record m { under = r.1 })

unfoldable pub deallocate : SegAllocatorReverse → ℕ → ℕ → SegAllocatorReverse
deallocate m p size = record m {
  under = SegAllocator.deallocate m.under (reverse_ptr m p size) size;
}

-- The sum that `reverse_ptr` computes does not wrap around for a range below the end of the block.
reverse_ptr_lem :
    (m : SegAllocatorReverse) (off n : ℕ)
    → 0 < m.base
    → 2 * m.base + m.size < 2 ^ 64
    → off < m.base + m.size
    → off + n ≤ m.base + m.size
    → reverse_ptr m off n + off + n + 1 ≡ 2 * m.base + m.size
unfolding reverse_ptr
reverse_ptr_lem m off n b k h h' = rw (add64_lem m.base m.size (omega arith)) (
    rw (sub64_lem (m.base + m.size) 1 (omega arith) (omega arith)) (
      rw (sub64_lem (m.base + m.size - 1) off (omega arith) (omega arith)) (
        rw (add64_lem (m.base + m.size - 1 - off) m.base (omega arith)) (
          rw (sub64_lem (m.base + m.size - 1 - off + m.base) n (omega arith) (omega arith))
            (omega arith)))))

module _ (m : SegAllocatorReverse) (off n : ℕ) (b : 0 < m.base) (k : 2 * m.base + m.size < 2 ^ 64)
    (pos : 0 < n) (h : m.base ≤ off) (h' : off + n ≤ m.base + m.size) where
  -- In a block that starts above address 0, with no overflow in twice its start plus its size,
  -- mirroring a range of at least one byte of the block twice gives it back.
  pub reverse_ptr-reverse_ptr : reverse_ptr m (reverse_ptr m off n) n ≡ off
  reverse_ptr-reverse_ptr =
      let once = reverse_ptr_lem m off n b k (omega arith) h' in
      let twice = reverse_ptr_lem m (reverse_ptr m off n) n b k (omega arith) (omega arith) in
      omega arith

  -- In a block that starts above address 0, with no overflow in twice its start plus its size,
  -- the mirror image of a range of at least one byte ends before the last byte of the block and starts at
  -- the byte before the block or later; it does start outside of the block, at that byte, exactly
  -- for the ranges that end the block.
  pub reverse_ptr_outside :
      (m.base ≤ reverse_ptr m off n + 1)
      × (reverse_ptr m off n + n < m.base + m.size)
      × ((reverse_ptr m off n + 1 ≡ m.base) ↔ (off + n ≡ m.base + m.size))
  reverse_ptr_outside =
      let once = reverse_ptr_lem m off n b k (omega arith) h' in
      (omega arith, omega arith, ground arith)
