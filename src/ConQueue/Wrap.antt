-- ===== src/ConQueue/Wrap.antt =====
-- conqueue.h, `ConQueue::to_id` of an exact-sized ring, where the 32-bit positions wrap.
use native.Mathlib.Nat.{mod-add-mod, zero-mod}
use usable_lib.Prelude.{
  ℕ, ◌+◌, ◌-◌, ◌%◌, ◌^◌, ◌<◌, ◌≡◌, ◌↔◌, ap, ◌∙◌, sym, true, arith, add32, has_bit,
}
use usable_lib.ConQueue.{to_id}
use usable_lib.ConQueue.Flags.{exact_sz}
use usable_lib.ConQueue.Window.{index-wrap}

module _ (flags n : ℕ) (exact : has_bit flags exact_sz ≡ true) where
  to_id-mod : (i : ℕ) → to_id flags n i ≡ i % n
  unfolding to_id
  to_id-mod i = rw exact

  -- With an exact size `n`, the position behind every 32-bit position names the cell behind its
  -- cell, round the ring, if and only if `n` divides 2 ^ 32.
  pub to_id-continuous :
      ((i : ℕ) → i < 2 ^ 32 → to_id flags n (add32 i 1) ≡ (to_id flags n i + 1) % n)
      ↔ (2 ^ 32 % n ≡ 0)
  to_id-continuous = (
    λ steps.
        let last : to_id flags n 0 ≡ (to_id flags n (2 ^ 32 - 1) + 1) % n =
          steps (2 ^ 32 - 1) (omega arith) in
        omega (
          arith,
          last,
          to_id-mod 0,
          ap (λ k. (k + 1) % n) (to_id-mod (2 ^ 32 - 1)),
          mod-add-mod (2 ^ 32 - 1) n 1,
          zero-mod n,
        ),
    λ divides i h.
        rw (to_id-mod i, to_id-mod (add32 i 1))
          (index-wrap n (i + 1) divides ∙ sym (mod-add-mod i n 1)),
  )
