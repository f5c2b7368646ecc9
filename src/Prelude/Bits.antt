-- ===== src/Prelude/Bits.antt =====
-- `&`, `|` and `^` on words of any width, by recursion on the lowest binary digit.
use Prim.Native.Nat.{
  ℕ, zero, suc, ◌+◌, ◌-◌, ◌*◌, ◌/◌, ◌%◌, ◌^◌, ◌≤◌, ◌<◌, min, max, bit_and, bit_or, bit_xor, digits,
  bitwise, differ, bit_and-bitwise, bit_or-bitwise, bit_xor-bitwise,
}
use mathlib.Core.Path.{◌≡◌, refl, ap}
use native.Mathlib.Nat.{
  mul-suc, pow-suc, one-le-pow, mul-add-mod_self_left, mod-eq_of_lt, div-add-mod', div-one,
  div-eq_of_lt, mul-div-mul_left, pow-succ', div-div-eq-div-mul,
}
use native.Mathlib.Omega.{arith}
use usable_lib.Prelude.Tests.{◌==◌, if◌then◌else◌}

module _ (rest : ℕ → ℕ) (f : ℕ → ℕ → ℕ) where
  -- any fuel that covers the first number gives the same digits
  same_digits : (i j a b : ℕ) → a ≤ i → a ≤ j → digits rest f i a b ≡ digits rest f j a b
  same_digits zero zero zero b hi hj = refl
  same_digits zero (suc j) zero b hi hj = refl
  same_digits (suc i) zero zero b hi hj = refl
  same_digits (suc i) (suc j) zero b hi hj = refl
  same_digits zero j (suc a) b hi hj = absurd (omega arith)
  same_digits (suc i) zero (suc a) b hi hj = absurd (omega arith)
  same_digits (suc i) (suc j) (suc a) b hi hj =
      ap (λ d. d * 2 + f (suc a % 2) (b % 2))
        (same_digits i j (suc a / 2) (b / 2) (omega arith) (omega arith))

  lowest_digit :
      (a b : ℕ)
      → bitwise rest f (suc a) b ≡ bitwise rest f (suc a / 2) (b / 2) * 2 + f (suc a % 2) (b % 2)
  lowest_digit a b =
      ap (λ d. d * 2 + f (suc a % 2) (b % 2))
        (same_digits a (suc a / 2) (suc a / 2) (b / 2) (omega arith) (omega arith))

pub and_digit : (a b : ℕ) → bit_and a b ≡ bit_and (a / 2) (b / 2) * 2 + min (a % 2) (b % 2)
and_digit zero b = simp bit_and-bitwise (omega arith)
and_digit (suc a) b = simp bit_and-bitwise (lowest_digit (λ _. 0) min a b)

pub or_digit : (a b : ℕ) → bit_or a b ≡ bit_or (a / 2) (b / 2) * 2 + max (a % 2) (b % 2)
or_digit zero b = simp bit_or-bitwise (omega arith)
or_digit (suc a) b = simp bit_or-bitwise (lowest_digit (λ y. y) max a b)

differ-zero : (a : ℕ) → differ a 0 ≡ a
differ-zero zero = refl
differ-zero (suc a) = refl

differ-lt : (a b : ℕ) → a < 2 → b < 2 → differ a b < 2
differ-lt zero b ha hb = hb
differ-lt (suc a) zero ha hb = ha
differ-lt (suc a) (suc b) ha hb = differ-lt a b (omega arith) (omega arith)

pub xor_digit : (a b : ℕ) → bit_xor a b ≡ bit_xor (a / 2) (b / 2) * 2 + differ (a % 2) (b % 2)
xor_digit zero b = simp bit_xor-bitwise (omega arith)
xor_digit (suc a) b = simp bit_xor-bitwise (lowest_digit (λ y. y) differ a b)

-- A number against 0, by fuel: half of it is the next number.
and-zero_below : (n a : ℕ) → a ≤ n → bit_and a 0 ≡ 0
and-zero_below zero zero h = refl
and-zero_below zero (suc a) h = absurd (omega arith)
and-zero_below (suc n) a h = omega (arith, and_digit a 0, and-zero_below n (a / 2) (omega arith))

zero-and_below : (n b : ℕ) → b ≤ n → bit_and 0 b ≡ 0
zero-and_below zero zero h = refl
zero-and_below zero (suc b) h = absurd (omega arith)
zero-and_below (suc n) zero h = refl
zero-and_below (suc n) (suc b) h =
    omega (arith, and_digit 0 (suc b), zero-and_below n (suc b / 2) (omega arith))

pub zero-and : (b : ℕ) → bit_and 0 b ≡ 0
zero-and b = zero-and_below b b (omega arith)

or-zero_below : (n a : ℕ) → a ≤ n → bit_or a 0 ≡ a
or-zero_below zero zero h = refl
or-zero_below zero (suc a) h = absurd (omega arith)
or-zero_below (suc n) a h = omega (arith, or_digit a 0, or-zero_below n (a / 2) (omega arith))

or_self_below : (n a : ℕ) → a ≤ n → bit_or a a ≡ a
or_self_below zero zero h = refl
or_self_below zero (suc a) h = absurd (omega arith)
or_self_below (suc n) a h = omega (arith, or_digit a a, or_self_below n (a / 2) (omega arith))

xor-zero_below : (n a : ℕ) → a ≤ n → bit_xor a 0 ≡ a
xor-zero_below zero zero h = refl
xor-zero_below zero (suc a) h = absurd (omega arith)
xor-zero_below (suc n) a h =
    omega (arith, xor_digit a 0, differ-zero (a % 2), xor-zero_below n (a / 2) (omega arith))

pub or_self : (a : ℕ) → bit_or a a ≡ a
or_self a = or_self_below a a (omega arith)

-- The digits below a cut one place further up.
pub mod_double : (a m : ℕ) → 0 < m → a % (2 * m) ≡ (a / 2 % m) * 2 + a % 2
mod_double a m h = ground (
  arith,
  mul-add-mod_self_left (2 * m) (a / 2 / m) ((a / 2 % m) * 2 + a % 2),
  mod-eq_of_lt {n = (a / 2 % m) * 2 + a % 2} {m = 2 * m} (omega arith),
  div-add-mod' (a / 2) m,
)

pub twice_pow : (k : ℕ) → (2 ^ suc k ≡ 2 * 2 ^ k) × (1 ≤ 2 ^ k)
twice_pow k = (omega (arith, pow-suc 2 k), one-le-pow k 2 (omega arith))

-- A mask of `k` low ones is the remainder by `2 ^ k`.
pub and-mask : (k a : ℕ) → bit_and a (2 ^ k - 1) ≡ a % 2 ^ k
and-mask zero a = omega (arith, and-zero_below a a (omega arith))
and-mask (suc k) a =
    ground
      (arith, twice_pow k, and_digit a (2 ^ suc k - 1), and-mask k (a / 2), mod_double a (2 ^ k))

-- `|` works on the digits above and below a cut independently.
pub or-cut :
    (k a b r s : ℕ)
    → r < 2 ^ k
    → s < 2 ^ k
    → bit_or (a * 2 ^ k + r) (b * 2 ^ k + s) ≡ bit_or a b * 2 ^ k + bit_or r s
or-cut zero a b r s hr hs = ground arith
or-cut (suc k) a b r s hr hs = ground (
  arith,
  twice_pow k,
  ap (λ (p : ℕ). a * p) (twice_pow k).0,
  ap (λ (p : ℕ). b * p) (twice_pow k).0,
  ap (λ (p : ℕ). bit_or a b * p) (twice_pow k).0,
  or_digit (a * 2 ^ suc k + r) (b * 2 ^ suc k + s),
  or_digit r s,
  or-cut k a b (r / 2) (s / 2),
)

-- `|` with a mask of ones absorbs what lies under the mask.
pub or-mask : (k r : ℕ) → r < 2 ^ k → bit_or r (2 ^ k - 1) ≡ 2 ^ k - 1
or-mask zero r h = ground arith
or-mask (suc k) r h = ground (arith, twice_pow k, or_digit r (2 ^ suc k - 1), or-mask k (r / 2))

pub or-zero : (a : ℕ) → bit_or a 0 ≡ a
or-zero a = or-zero_below a a (omega arith)

pub xor-zero : (a : ℕ) → bit_xor a 0 ≡ a
xor-zero a = xor-zero_below a a (omega arith)

-- `|` and a shift to the right commute.
pub or-div : (k a b : ℕ) → bit_or a b / 2 ^ k ≡ bit_or (a / 2 ^ k) (b / 2 ^ k)
or-div zero a b = simp div-one
or-div (suc k) a b = ground (
  arith,
  pow-succ' 2 k,
  or_digit a b,
  div-div-eq-div-mul a 2 (2 ^ k),
  div-div-eq-div-mul b 2 (2 ^ k),
  div-div-eq-div-mul (bit_or a b) 2 (2 ^ k),
  or-div k (a / 2) (b / 2),
)

pub xor-div : (k a b : ℕ) → bit_xor a b / 2 ^ k ≡ bit_xor (a / 2 ^ k) (b / 2 ^ k)
xor-div zero a b = simp div-one
xor-div (suc k) a b = ground (
  arith,
  pow-succ' 2 k,
  xor_digit a b,
  differ-lt (a % 2) (b % 2),
  div-div-eq-div-mul a 2 (2 ^ k),
  div-div-eq-div-mul b 2 (2 ^ k),
  div-div-eq-div-mul (bit_xor a b) 2 (2 ^ k),
  xor-div k (a / 2) (b / 2),
)

-- Single binary digits.
pub or-bit : (k a b : ℕ) → bit_or a b / 2 ^ k % 2 ≡ max (a / 2 ^ k % 2) (b / 2 ^ k % 2)
or-bit k a b = omega (arith, or-div k a b, or_digit (a / 2 ^ k) (b / 2 ^ k))

pub xor-bit : (k a b : ℕ) → bit_xor a b / 2 ^ k % 2 ≡ differ (a / 2 ^ k % 2) (b / 2 ^ k % 2)
xor-bit k a b = ground (
  arith,
  xor-div k a b,
  xor_digit (a / 2 ^ k) (b / 2 ^ k),
  differ-lt (a / 2 ^ k % 2) (b / 2 ^ k % 2),
)

pub pow-bit : (k c : ℕ) → 2 ^ c / 2 ^ k % 2 ≡ (if c == k then 1 else 0)
pow-bit zero zero = refl
pow-bit zero (suc c) = ground (arith, twice_pow c, div-one (2 ^ suc c))
pow-bit (suc k) zero = ground (arith, twice_pow k, div-eq_of_lt {n = 1} {m = 2 ^ suc k})
pow-bit (suc k) (suc c) = ground (
  arith,
  twice_pow k,
  twice_pow c,
  mul-div-mul_left {m = 2} (2 ^ c) (2 ^ k) (omega arith),
  pow-bit k c,
)

pub scaled-le : (a m : ℕ) → 0 < m → a ≤ a * m
scaled-le a zero h = absurd (omega arith)
scaled-le a (suc m) h = omega (arith, mul-suc a m)
