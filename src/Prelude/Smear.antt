-- ===== src/Prelude/Smear.antt =====
-- `x |= x >> 1; …; x |= x >> 16` fills a 32-bit word with ones below its highest one.
use Prim.Native.Nat.{ℕ, zero, suc, ◌+◌, ◌-◌, ◌*◌, ◌/◌, ◌%◌, ◌^◌, ◌≤◌, ◌<◌, bit_or}
use mathlib.Core.Path.{◌≡◌, refl, ap}
use mathlib.Core.Logic.{◌⊎◌, inl, inr}
use native.Mathlib.Nat.{
  pow-suc, one-le-pow, div-add-mod', mod-lt, div-div-eq-div-mul, div-le_self, mul_comm,
  mul-add-div_right, div-eq_of_lt, div-eq-sub-div, zero-add, suc-add,
}
use native.Mathlib.Decide.{dec_le, dec_lt}
use native.Mathlib.Omega.{arith}
use usable_lib.Prelude.Bits.{or_digit, or-cut, or-mask, or-zero, or-div}

-- `x | (x >> s)`
abbrev pub or_shift : ℕ → ℕ → ℕ
or_shift x s = bit_or x (x / 2 ^ s)

pub pow-add : (a b : ℕ) → 2 ^ (a + b) ≡ 2 ^ a * 2 ^ b
pow-add zero b = simp zero-add (omega arith)
pow-add (suc a) b =
    ground
      (arith, ap (λ (p : ℕ). p * 2 ^ b) (pow-suc 2 a), pow-suc 2 (a + b), pow-add a b, suc-add a b)

or-mask_left : (k r : ℕ) → r < 2 ^ k → bit_or (2 ^ k - 1) r ≡ 2 ^ k - 1
or-mask_left zero r h = ground arith
or-mask_left (suc k) r h =
    ground (arith, pow-suc 2 k, one-le-pow k 2, or_digit (2 ^ suc k - 1) r, or-mask_left k (r / 2))

-- Above the lowest `j` digits of `x` stand exactly `m` ones.
abbrev Ones : ℕ → ℕ → ℕ → Type 0
Ones m j x = x / 2 ^ j ≡ 2 ^ m - 1

-- `m` ones over `j` digits, or'ed with `j` ones, are `m + j` ones.
pred_mul : (a b : ℕ) → 1 ≤ a → (a - 1) * b + b ≡ a * b
pred_mul zero b h = elim h [ ]
pred_mul (suc a) b h = grind arith

Ones-fill : (m j x : ℕ) → Ones m j x → bit_or x (2 ^ j - 1) ≡ 2 ^ (m + j) - 1
Ones-fill m j x h = ground (
  arith,
  one-le-pow m 2,
  one-le-pow j 2,
  pow-add m j,
  pred_mul (2 ^ m) (2 ^ j),
  div-add-mod' x (2 ^ j),
  mod-lt x {m = 2 ^ j},
  ap (λ (q : ℕ). q * 2 ^ j) h,
  or-cut j (2 ^ m - 1) 0 (x % 2 ^ j) (2 ^ j - 1),
  or-zero (2 ^ m - 1),
  or-mask j (x % 2 ^ j),
)

Ones-double : (m j x : ℕ) → Ones m (m + j) x → Ones (m + m) j (or_shift x m)
Ones-double m j x h = ground (
  arith,
  or-div j x (x / 2 ^ m),
  div-div-eq-div-mul x (2 ^ m) (2 ^ j),
  div-div-eq-div-mul x (2 ^ j) (2 ^ m),
  pow-add m j,
  mul_comm (2 ^ m) (2 ^ j),
  Ones-fill m m (x / 2 ^ j),
)

ones_shift : (j d : ℕ) → (2 ^ (j + d) - 1) / 2 ^ d ≡ 2 ^ j - 1
ones_shift j d = ground (
  arith,
  one-le-pow j 2,
  one-le-pow d 2,
  pow-add j d,
  pred_mul (2 ^ j) (2 ^ d),
  mul-add-div_right {m = 2 ^ d} (one-le-pow d 2 (omega arith)) (2 ^ j - 1) (2 ^ d - 1),
  div-eq_of_lt {n = 2 ^ d - 1} {m = 2 ^ d},
)

Ones-full : (j d x : ℕ) → Ones (j + d) j x → or_shift x (j + d) ≡ 2 ^ (j + d + j) - 1
Ones-full j d x h = ground (
  arith,
  div-div-eq-div-mul x (2 ^ j) (2 ^ d),
  pow-add j d,
  ones_shift j d,
  Ones-fill (j + d) j x,
)

-- Of the `k` digits of `x` all are ones, or the highest `m` are.
abbrev Progress : ℕ → ℕ → ℕ → Type 0
Progress k m x = (x ≡ 2 ^ k - 1) ⊎ ((j : ℕ) × (k ≡ m + j) × Ones m j x)

Progress-or_shift : (k m x : ℕ) → Progress k m x → Progress k (m + m) (or_shift x m)
Progress-or_shift k m x (inl e) = inl (
    ground (
      arith,
      one-le-pow k 2,
      div-le_self (2 ^ k - 1) (2 ^ m),
      or-mask_left k ((2 ^ k - 1) / 2 ^ m),
    ))
Progress-or_shift k m x (inr (j, e, h)) = elim (dec_le m j) [
  | yes p ↦ inr (j - m, omega arith, ground (arith, longer p, Ones-double m (j - m) x))
  | no p ↦ inl (ground (arith, Ones-full j (m - j) x, exact p))
]
  where
    longer : m ≤ j → m + (j - m) ≡ j
    longer p = omega arith

    exact : ¬ (m ≤ j) → j + (m - j) ≡ m
    exact p = omega arith

-- The number of digits of `x`.
digit_count : (n x : ℕ) → 0 < x → x < 2 ^ n → (j : ℕ) × (j < n) × (x / 2 ^ j ≡ 1)
digit_count zero x pos h = absurd (omega arith)
digit_count (suc n) x pos h = elim (dec_lt x (2 ^ n)) [
  | yes p ↦ let (j, lt, e) = digit_count n x pos p in (j, omega arith, e)
  | no p ↦ (
    n,
    omega arith,
    ground (
      arith,
      pow-suc 2 n,
      one-le-pow n 2,
      div-eq-sub-div {m = 2 ^ n} {n = x},
      div-eq_of_lt {n = x - 2 ^ n} {m = 2 ^ n},
    ),
  )
]

unfoldable pub smear : ℕ → ℕ
smear x = or_shift (or_shift (or_shift (or_shift (or_shift x 1) 2) 4) 8) 16

finished : (k y : ℕ) → k ≤ 32 → Progress k 32 y → y ≡ 2 ^ k - 1
finished k y h (inl e) = e
finished k y h (inr (j, e, ones)) =
    let j0 : j ≡ 0 = omega arith in
    let k32 : k ≡ 32 = omega arith in
    let all : y / 1 ≡ 2 ^ 32 - 1 = rw j0 at ones in rw k32 (omega arith)

smear_ones : (k x : ℕ) → k ≤ 32 → Progress k 1 x → smear x ≡ 2 ^ k - 1
unfolding smear
smear_ones k x h p = finished k _ h (
    Progress-or_shift k 16 _ (
      Progress-or_shift k 8 _
        (Progress-or_shift k 4 _ (Progress-or_shift k 2 _ (Progress-or_shift k 1 x p)))))

-- The result is the least mask of low ones that covers `x`.
pub smear_lem :
    (x : ℕ)
    → x < 2 ^ 32
    → (k : ℕ) × (k ≤ 32) × (smear x ≡ 2 ^ k - 1) × (x < 2 ^ k) × (2 ^ k ≤ 2 * x + 1)
unfolding smear
smear_lem zero h = (0, omega arith, refl, omega arith, omega arith)
smear_lem (suc n) h =
    let x : ℕ = suc n in
    let (j, lt, e) = digit_count 32 x (omega arith) h in
    (
      suc j,
      lt,
      smear_ones (suc j) x lt (inr (j, omega arith, e)),
      grind (arith, pow-suc 2 j, one-le-pow j 2, div-add-mod' x (2 ^ j), mod-lt x {m = 2 ^ j}),
      ground (arith, pow-suc 2 j, div-add-mod' x (2 ^ j), ap (λ (q : ℕ). q * 2 ^ j) e),
    )
