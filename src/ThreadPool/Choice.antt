-- ===== src/ThreadPool/Choice.antt =====
-- Which worker `execute` chooses.
use usable_lib.Prelude.{
  ℕ, zero, suc, ◌-◌, ◌/◌, ◌%◌, ◌^◌, ◌≤◌, ◌<◌, ◌≡◌, ◌⊎◌, inl, inr, refl, arith, Bool-cases, ltb,
  ◌||◌, ◌==◌,
}
use native.Mathlib.Nat.{pow-succ', div-div-eq-div-mul, div-one, mod-lt}
use usable_lib.ThreadPool.{ffs_not, execute_tid}

-- whether worker `i` is busy
abbrev pub bit_at : ℕ → ℕ → ℕ
bit_at bits i = bits / 2 ^ i % 2

-- `r` is the answer of `ffsll` for the bits below `n`
record Lowest (n bits r : ℕ) : Type 0 where
  in_range : r ≤ n
  clear : (i : ℕ) → r ≡ suc i → bit_at bits i ≡ 0
  below : (i : ℕ) → i < n → (r ≡ 0) ⊎ (suc i < r) → bit_at bits i ≡ 1

half-bit : (bits i : ℕ) → bit_at (bits / 2) i ≡ bit_at bits (suc i)
half-bit bits i = rw (div-div-eq-div-mul bits 2 (2 ^ i), pow-succ' 2 i) refl

Lowest-clear :
    (n bits i : ℕ)
    → Lowest n (bits / 2) (ffs_not n (bits / 2))
    → ffs_not (suc n) bits ≡ suc i
    → bit_at bits i ≡ 0
unfolding ffs_not
Lowest-clear n bits zero half e = ground (arith, e, div-one bits)
Lowest-clear n bits (suc i) half e = ground (arith, e, half-bit bits i, half.clear i)

Lowest-below :
    (n bits i : ℕ)
    → Lowest n (bits / 2) (ffs_not n (bits / 2))
    → i < suc n
    → (ffs_not (suc n) bits ≡ 0) ⊎ (suc i < ffs_not (suc n) bits)
    → bit_at bits i ≡ 1
unfolding ffs_not
Lowest-below n bits zero half h o = ground (arith, o, div-one bits)
Lowest-below n bits (suc i) half h o = ground (arith, o, half-bit bits i, half.below i)

ffs_not-Lowest : (n bits : ℕ) → Lowest n bits (ffs_not n bits)
unfolding ffs_not
ffs_not-Lowest zero bits = ground arith
ffs_not-Lowest (suc n) bits =
    let half = ffs_not-Lowest n (bits / 2) in
    record {
      in_range = ground (arith, half.in_range);
      clear = λ i e. Lowest-clear n bits i half e;
      below = λ i h o. Lowest-below n bits i half h o;
    }

-- Whatever `rng` gives, `execute` chooses one of the workers, of which there are at least 1 and at most
-- 64: the first one that is not busy, when there is one.
pub execute_tid-least :
    (count busy_bits random : ℕ)
    → 1 ≤ count
    → count ≤ 64
    → (execute_tid count busy_bits random < count)
      × (((bit_at busy_bits (execute_tid count busy_bits random) ≡ 0)
            × ((i : ℕ) → i < execute_tid count busy_bits random → bit_at busy_bits i ≡ 1))
          ⊎ ((i : ℕ) → i < count → bit_at busy_bits i ≡ 1))
unfolding execute_tid
execute_tid-least count busy_bits random one few =
    let low = ffs_not-Lowest 64 busy_bits in
    elim (Bool-cases (ffs_not 64 busy_bits == 0 || ltb count (ffs_not 64 busy_bits))) [
      | inl e ↦ rw e (
        mod-lt random one,
        inr (λ i h. low.below i (omega (arith, h, few)) (ground (arith, e, h))),
      )
      | inr e ↦ rw e (
        ground (arith, e, low.in_range),
        inl (
          low.clear (ffs_not 64 busy_bits - 1) (ground (arith, e)),
          λ i h. low.below i (ground (arith, e, h, few, low.in_range)) (ground (arith, e, h)),
        ),
      )
    ]
