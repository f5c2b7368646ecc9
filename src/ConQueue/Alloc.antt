-- ===== src/ConQueue/Alloc.antt =====
-- conqueue.h, the constructor of `ConQueue` that allocates its array.
use usable_lib.Prelude.{
  ℕ, ◌^◌, ◌≤◌, ◌<◌, ◌≡◌, refl, Bool, true, false, Option, none, some, List, [], length, ok, arith,
  has_bit, ◌==◌,
}
use usable_lib.ConQueue.{ConQueue, aligned_size}
use usable_lib.ConQueue.Flags.{exact_sz}
use usable_lib.ConQueue.Represents.{Represents}
use usable_lib.ConQueue.Init.{check_flags, default_flags, built, init, init_alloc, init-Represents}

module _ {A : Type 0} where
  -- Who frees the array does not matter.
  self_alloc-Represents :
      (q : ConQueue A) (b : Bool) (xs : List A)
      → Represents q xs
      → Represents (record q { self_alloc = b }) xs
  self_alloc-Represents q b xs r = record {
    geometry = record {
      capacity_pos = r.geometry.capacity_pos;
      capacity_lt = r.geometry.capacity_lt;
      room = r.geometry.room;
      memory = r.geometry.memory;
      round = r.geometry.round;
      indexed = r.geometry.indexed;
    };
    from_lt = r.from_lt;
    until = r.until;
    fits = r.fits;
    cells = r.cells;
    producers = r.producers;
    consumers = r.consumers;
  }

  -- With flags that are not at odds and a size from 1 to 2 ^ 31 that need not be exact, the constructor
  -- that allocates returns an empty queue of that size, if it is given as many cells as it asks for.
  pub init_alloc-Represents :
      (allocate : ℕ → List (Option A)) (max_size flags : ℕ)
      → 0 < max_size
      → max_size ≤ 2 ^ 31
      → check_flags flags ≡ none
      → has_bit flags exact_sz ≡ false
      → aligned_size max_size flags ≤ length (allocate (aligned_size max_size flags))
      → (q : ConQueue A) × (init_alloc allocate max_size flags ≡ ok q)
        × Represents q []
        × (q.max_size ≡ max_size)
  unfolding init_alloc init
  init_alloc-Represents allocate max_size flags pos small fine loose memory =
      let ring : List (Option A) = allocate (aligned_size max_size flags) in
      let q : ConQueue A = built ring max_size (default_flags flags) in
      let nonzero : (max_size == 0) ≡ false = ground arith in
      let made : init (some ring) max_size flags ≡ ok q = rw (nonzero, fine) refl in
      (
        record q { self_alloc = true },
        rw (init_alloc, nonzero, fine) refl,
        self_alloc-Represents q true []
            (init-Represents ring max_size flags loose small memory made).0,
        refl,
      )
