-- ===== src/Mutex/Spin.antt =====
-- extend_mutex.h, `__spin_mutex_impl<D>`: a lock in each bit of a word of `w` bits.
pub mod Exclusion
use usable_lib.Prelude.{ℕ, ◌^◌, ◌<◌, ◌≡◌, bit_or, bit_xor, Bool, true, false, has_bit}

-- Where a thread stands, with the bit that it is about.
pub data Pc : Type 0 where
  idle : Pc
  checked : ℕ → Pc  -- in `try_lock`, between the load and the `fetch_or`
  holding : ℕ → Pc

-- `check_lock`
abbrev pub check_lock : ℕ → ℕ → Bool
check_lock l i = has_bit l (2 ^ i)

-- One atomic access. `lock` repeats `try_lock`.
pub data Move (w l : ℕ) : Pc → ℕ → Pc → Type 0 where
  sees_locked : (i : ℕ) → i < w → check_lock l i ≡ true → Move w l idle l idle
  sees_free : (i : ℕ) → i < w → check_lock l i ≡ false → Move w l idle l (checked i)
  or_wins : {i : ℕ} → check_lock l i ≡ false → Move w l (checked i) (bit_or l (2 ^ i)) (holding i)
  or_loses : {i : ℕ} → check_lock l i ≡ true → Move w l (checked i) (bit_or l (2 ^ i)) idle
  unlock : {i : ℕ} → Move w l (holding i) (bit_xor l (2 ^ i)) idle
