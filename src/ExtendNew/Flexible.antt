-- ===== src/ExtendNew/Flexible.antt =====
-- A flexible array, from `operator new` to `operator delete`.
use usable_lib.Prelude.{
  ℕ, suc, ◌+◌, ◌-◌, ◌*◌, ◌%◌, ◌^◌, ◌≤◌, ◌<◌, ◌≡◌, refl, fun_ext, true, none, some, arith,
}
use usable_lib.ExtendNew.{
  Memory, set_at, construct, word_size, take_block, operator_new, operator_delete, flexible_init,
  flexible_done, free, new_array, delete_array,
}
use usable_lib.ExtendNew.Objects.{NoneAlive, construct_alive, destroy-construct}
use native.Mathlib.Nat.{mod-eq_of_lt, suc-mul, mul-le-mul_right}

module _ (allocate : Memory → ℕ → ℕ) where
  -- The block that the allocator gives is none that it has given, and has no object.
  unfoldable pub IsFresh : Memory → ℕ → Type 0
  IsFresh m len =
      (m.blocks (allocate m len) ≡ none) × NoneAlive (allocate m len) (allocate m len + len) m.alive

  -- the memory with a new array in a block of `len` bytes
  abbrev made : ℕ → ℕ → ℕ → Memory → ℕ → Memory
  made offset size n m len = record {
    blocks = set_at m.blocks (allocate m len) (some len);
    words = set_at m.words (allocate m len) (some n);
    alive = construct (allocate m len + word_size + offset) size n m.alive;
  }

  new_array_words :
      (offset size n : ℕ) (m : Memory) (len : ℕ)
      → (word_size + offset + n * size) % 2 ^ 64 ≡ len
      → new_array allocate offset size n m
        ≡ some (allocate m len + word_size, made offset size n m len)
  unfolding new_array operator_new take_block flexible_init
  new_array_words offset size n m len e =
      let back : allocate m len + word_size - word_size ≡ allocate m len = omega arith in
      rw (e, back) (ground arith)

  -- A new array lies in its block: each of its objects lives, behind the stored count and before the end.
  pub new_array_inside :
      (offset size n : ℕ) (m : Memory)
      → 1 ≤ size
      → word_size + offset + n * size < 2 ^ 64
      → let len = word_size + offset + n * size in
        let this = allocate m len + word_size in
        (array : Memory) × (new_array allocate offset size n m ≡ some (this, array))
        × (array.blocks (allocate m len) ≡ some len)
        × ((i : ℕ)
            → i < n
            → (array.alive (this + offset + i * size) ≡ true)
              × (this + offset + i * size + size ≤ allocate m len + len))
  new_array_inside offset size n m one small =
      let len : ℕ = word_size + offset + n * size in
      let whole : len % 2 ^ 64 ≡ len = mod-eq_of_lt small in
      (
        made offset size n m len,
        new_array_words offset size n m len whole,
        ground arith,
        λ i h. (
          construct_alive (allocate m len + word_size + offset) size n m.alive i h one,
          omega (arith, suc-mul i size, mul-le-mul_right size (h)),
        ),
      )

  -- Destroying and deleting a new array leaves the blocks and the objects as they were before it.
  pub delete_array-new_array :
      (offset size n : ℕ) (m : Memory)
      → 1 ≤ size
      → word_size + offset + n * size < 2 ^ 64
      → IsFresh m (word_size + offset + n * size)
      → let this = allocate m (word_size + offset + n * size) + word_size in
        (array : Memory) × (new_array allocate offset size n m ≡ some (this, array))
        × (over : Memory) × (delete_array offset size this array ≡ some over)
        × (over.blocks ≡ m.blocks)
        × (over.alive ≡ m.alive)
  unfolding delete_array flexible_done operator_delete free IsFresh NoneAlive
  delete_array-new_array offset size n m one small fresh =
      let len : ℕ = word_size + offset + n * size in
      let p = allocate m len in
      let whole : len % 2 ^ 64 ≡ len = mod-eq_of_lt small in
      let back : p + word_size - word_size ≡ p = omega arith in
      let stored : set_at m.words p (some n) p ≡ some n = ground arith in
      let given : set_at m.blocks p (some len) p ≡ some len = ground arith in
      let gone =
        destroy-construct (p + word_size + offset) size n m.alive
          (λ c lo hi. fresh.1 c (omega (arith, lo)) (omega (arith, hi))) one in
      (
        made offset size n m len,
        new_array_words offset size n m len whole,
        record {
          blocks = set_at (set_at m.blocks p (some len)) p none;
          words = set_at m.words p (some n);
          alive = m.alive;
        },
        rw (back, stored, gone, back, given) refl,
        fun_ext (λ a. ground (arith, fresh.0)),
        refl,
      )

  -- When the size of an array does not fit in 64 bits, it is cut off: the block is too short, and the last
  -- object of the array ends outside of it.
  pub new_array_overflow :
      (offset size n : ℕ) (m : Memory)
      → 2 ^ 64 ≤ word_size + offset + suc n * size
      → let len = (word_size + offset + suc n * size) % 2 ^ 64 in
        let this = allocate m len + word_size in
        (array : Memory) × (new_array allocate offset size (suc n) m ≡ some (this, array))
        × (array.blocks (allocate m len) ≡ some len)
        × (allocate m len + len < this + offset + n * size + size)
  new_array_overflow offset size n m big =
      let len : ℕ = (word_size + offset + suc n * size) % 2 ^ 64 in
      (
        made offset size (suc n) m len,
        new_array_words offset size (suc n) m len refl,
        ground arith,
        omega (arith, suc-mul n size),
      )
