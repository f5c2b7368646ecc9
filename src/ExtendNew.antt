-- ===== src/ExtendNew.antt =====
-- extend_new.h: `aligned_new` and the flexible arrays. Addresses and sizes are 64-bit words. The memory
-- knows the blocks that the allocator, a parameter, has given, the counts that were stored, and at which
-- addresses an object lives; `none` is a use of what is not there.
pub mod Objects
pub mod Flexible
pub mod Tests
use usable_lib.Prelude.{
  ℕ, zero, suc, ◌+◌, ◌-◌, ◌*◌, ◌%◌, ◌^◌, Bool, true, false, Option, none, some, if◌then◌else◌, ◌==◌,
  ◌>>=◌,
}

pub record Memory : Type 0 where
  pub blocks : ℕ → Option ℕ  -- the length of the block at an address
  pub words : ℕ → Option ℕ
  pub alive : ℕ → Bool

abbrev pub set_at : {A : Type 0} → (ℕ → A) → ℕ → A → ℕ → A
set_at f a x b = if a == b then x else f b

-- the loop that constructs `count` objects from `base` on
pub construct : ℕ → ℕ → ℕ → (ℕ → Bool) → ℕ → Bool
construct base size zero alive = alive
construct base size (suc count) alive = construct (base + size) size count (set_at alive base true)

-- the loop that destroys them
pub destroy : ℕ → ℕ → ℕ → (ℕ → Bool) → Option (ℕ → Bool)
destroy base size zero alive = some alive
destroy base size (suc count) alive =
    let rest = destroy (base + size) size count (set_at alive base false) in
    if alive base then rest else none

-- `sizeof(size_t)`
abbrev pub word_size : ℕ
word_size = 8

module _ (allocate : Memory → ℕ → ℕ) where
  unfoldable pub take_block : Memory → ℕ → ℕ × Memory
  take_block m len =
      (allocate m len, record m { blocks = set_at m.blocks (allocate m len) (some len) })

  unfoldable pub aligned_new : ℕ → ℕ → Memory → ℕ × Memory
  aligned_new size n m =
      let mr = take_block m (n * size % 2 ^ 64) in
      (mr.0, record mr.1 { alive = construct mr.0 size n mr.1.alive })

  -- `operator new` of a flexible array of `n` objects of `size` bytes, `offset` bytes behind its start
  unfoldable pub operator_new : ℕ → ℕ → ℕ → Memory → ℕ × Memory
  operator_new offset size n m =
      let p = take_block m ((word_size + offset + n * size) % 2 ^ 64) in
      (p.0 + word_size, record p.1 { words = set_at p.1.words p.0 (some n) })

-- `free`
unfoldable pub free : ℕ → Memory → Option Memory
free p m = m.blocks p >>= λ len. some (record m { blocks = set_at m.blocks p none })

unfoldable pub aligned_delete : ℕ → ℕ → ℕ → Memory → Option Memory
aligned_delete size ptr n m =
    destroy ptr size n m.alive >>= λ alive. free ptr (record m { alive = alive })

-- the constructor of the flexible array at `this`
unfoldable pub flexible_init : ℕ → ℕ → ℕ → Memory → Option Memory
flexible_init offset size this m = m.words (this - word_size) >>= λ n.
    some (record m { alive = construct (this + offset) size n m.alive })

-- the destructor
unfoldable pub flexible_done : ℕ → ℕ → ℕ → Memory → Option Memory
flexible_done offset size this m = m.words (this - word_size) >>= λ n.
    destroy (this + offset) size n m.alive >>= λ alive. some (record m { alive = alive })

unfoldable pub operator_delete : ℕ → Memory → Option Memory
operator_delete this m = free (this - word_size) m

-- A `new` expression for a flexible array, and a `delete` expression.
unfoldable pub new_array : (Memory → ℕ → ℕ) → ℕ → ℕ → ℕ → Memory → Option (ℕ × Memory)
new_array allocate offset size n m =
    let new = operator_new allocate offset size n m in
    flexible_init offset size new.0 new.1 >>= λ made. some (new.0, made)

unfoldable pub delete_array : ℕ → ℕ → ℕ → Memory → Option Memory
delete_array offset size this m = flexible_done offset size this m >>= operator_delete this
