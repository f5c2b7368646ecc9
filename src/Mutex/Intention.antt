-- ===== src/Mutex/Intention.antt =====
-- extend_mutex.h, `__intention_mutex_impl<D>`: a word of `w` bits whose lowest bit is the one that
-- is promoted and whose other bits count the sharers.
pub mod Exclusion
use usable_lib.Prelude.{ℕ, ◌+◌, ◌-◌, ◌%◌, ◌^◌, ◌≡◌, ◌≢◌, bit_or, true, false, has_bit}

-- Where a thread stands.
pub data Pc : Type 0 where
  idle : Pc
  wants : ℕ → Pc  -- in `lock_shared`, with the word `l_` that it has seen
  sharing : Pc
  promoting : Pc  -- in `try_lock_prompt`, between the `fetch_or` and `unlock_shared`
  draining : Pc  -- in the loop of `try_lock_prompt`
  exclusive : Pc

module _ (w : ℕ) where
  -- the word plus and minus a sharer
  abbrev pub add_sharer : ℕ → ℕ
  add_sharer l = (l + 2) % 2 ^ w

  abbrev pub sub_sharer : ℕ → ℕ
  sub_sharer l = (l + 2 ^ w - 2) % 2 ^ w

  -- One atomic access. `compare_exchange_weak` may fail on an equal word too.
  pub data Move (l : ℕ) : Pc → ℕ → Pc → Type 0 where
    loads : Move l idle l (wants l)
    reloads : {v : ℕ} → has_bit v 1 ≡ true → Move l (wants v) l (wants l)
    swap_wins : {v : ℕ} → has_bit v 1 ≡ false → l ≡ v → Move l (wants v) (add_sharer v) sharing
    swap_fails : {v : ℕ} → has_bit v 1 ≡ false → Move l (wants v) l (wants l)
    prompt_fails : has_bit l 1 ≡ true → Move l sharing (bit_or l 1) sharing
    prompt_starts : has_bit l 1 ≡ false → Move l sharing (bit_or l 1) promoting
    prompt_leaves : Move l promoting (sub_sharer l) draining
    drain_ends : l - l % 2 ≡ 0 → Move l draining l exclusive
    drain_goes_on : l - l % 2 ≢ 0 → Move l draining l draining
    unlock : Move l exclusive 0 idle
    unlock_shared : Move l sharing (sub_sharer l) idle
