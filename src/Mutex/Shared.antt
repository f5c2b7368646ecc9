-- ===== src/Mutex/Shared.antt =====
-- extend_mutex.h, `__shared_mutex_impl<D>`: a word of `w` bits whose lowest bit is the writer and
-- whose other bits count the readers.
pub mod Exclusion
pub mod Overflow
use usable_lib.Prelude.{ℕ, ◌+◌, ◌-◌, ◌%◌, ◌^◌, ◌≡◌, ◌≢◌, bit_xor, true, false, has_bit, Bool}

-- Where a thread stands.
pub data Pc : Type 0 where
  idle : Pc  -- outside every operation, without the lock
  waiting : Pc  -- in the loop of `lock_shared`, counted
  refused : Pc  -- in `try_lock_shared`, counted, before the `fetch_sub`
  reading : Pc  -- holds the lock shared
  writing : Pc  -- holds the lock alone

module _ (w : ℕ) where
  -- `l.fetch_add(2)` and `l.fetch_sub(2)` on a `w`-bit word
  abbrev pub add_reader : ℕ → ℕ
  add_reader l = (l + 2) % 2 ^ w

  abbrev pub sub_reader : ℕ → ℕ
  sub_reader l = (l + 2 ^ w - 2) % 2 ^ w

  -- One atomic access. `compare_exchange_weak` may fail on a free lock too.
  pub data Move (l : ℕ) : Pc → ℕ → Pc → Type 0 where
    try_lock_wins : l ≡ 0 → Move l idle 1 writing
    try_lock_fails : Move l idle l idle
    lock_shared_enters : has_bit l 1 ≡ false → Move l idle (add_reader l) reading
    lock_shared_waits : has_bit l 1 ≡ true → Move l idle (add_reader l) waiting
    wait_ends : has_bit l 1 ≡ false → Move l waiting l reading
    wait_goes_on : has_bit l 1 ≡ true → Move l waiting l waiting
    try_lock_shared_enters : has_bit l 1 ≡ false → Move l idle (add_reader l) reading
    try_lock_shared_counts : has_bit l 1 ≡ true → Move l idle (add_reader l) refused
    try_lock_shared_fails : Move l refused (sub_reader l) idle
    unlock : Move l writing (bit_xor l 1) idle
    unlock_shared : Move l reading (sub_reader l) idle
