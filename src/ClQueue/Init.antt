-- ===== src/ClQueue/Init.antt =====
-- conqueue.h, the constructor of `CLQueue`.
use native.Mathlib.Nat.{mul_assoc, le-div_iff_mul-le, div-mul-le_self, pow-le-pow_right, one-le-pow}
use usable_lib.Prelude.{
  ◌||◌, ℕ, zero, suc, ◌+◌, ◌-◌, ◌*◌, ◌/◌, ◌%◌, ◌^◌, ◌≤◌, ◌<◌, ◌≡◌, refl, ap, ◌∙◌, sym, Bool, ◌&&◌,
  Option, none, some, if◌then◌else◌, ◌==◌, ltb, arith, Result, ok, throw, has_bit, inl, inr, dec_lt,
  ◌⊎◌,
}
use usable_lib.Prelude.Bits.{twice_pow, scaled-le}
use usable_lib.ConQueue.Flags.{mp_enq, mp_rts_enq, mc_deq, mc_rts_deq, exact_sz}
use usable_lib.ConQueue.Init.{default_flags}
use usable_lib.ClQueue.{Line, ClQueue, clear, line_size, slot_max_inline}

pub data Error : Type 0 where
  size_zero producer_flags consumer_flags exact_size : Error

unfoldable pub check_flags : ℕ → Option Error
check_flags flags =
    if has_bit flags mp_enq && has_bit flags mp_rts_enq
    then some producer_flags
    else if has_bit flags mc_rts_deq && has_bit flags mc_deq
    then some consumer_flags
    else if has_bit flags exact_sz
    then some exact_size
    else none

-- `while (s < max_size) s <<= 1`, on 32 bits: `none` when the rounds run out
unfoldable pub round_up : ℕ → ℕ → ℕ → Option ℕ
round_up zero s max_size = if ltb s max_size then none else some s
round_up (suc rounds) s max_size =
    let rest = round_up rounds (2 * s % 2 ^ 32) max_size in if ltb s max_size then rest else some s

-- `__builtin_popcount`, of the lowest `n` bits
unfoldable pub popcount : ℕ → ℕ → ℕ
popcount zero w = 0
popcount (suc n) w = w % 2 + popcount n (w / 2)

module _ {A : Type 0} (slots : ℕ) (block : Bool) where
  -- `memory`, `head` and `tail` are what the members hold before `clear` sets them.
  abbrev pub built : (ℕ → Line A) → ℕ → ℕ → ℕ → ℕ → ClQueue A
  built memory head tail flags s =
      let lines : ℕ = s / slots in
      record {
        flags = default_flags flags;
        cls = memory;
        max_line = lines;
        max_size = s;
        max_line_mask = lines - 1;
        max_line_mask_bits = popcount 32 (lines - 1);
        dequeue_overcommit = 0;
        overcommit = 0;
        head = head;
        tail = tail;
      }

  -- The constructor. `trivial` is whether the destructor of an object does nothing: otherwise `clear` runs it
  -- on slots without an object when the memory of `head` and `tail` differs. That is `none`, and so is a
  -- loop that 32 rounds do not end.
  unfoldable pub init : Bool → (ℕ → Line A) → ℕ → ℕ → ℕ → ℕ → Option (Result Error (ClQueue A))
  init trivial memory head tail max_size flags =
      if max_size == 0 then some (throw size_zero) else elim (check_flags flags) [
        | some e ↦ some (throw e)
        | none ↦ elim (round_up 32 slots max_size) [
          | none ↦ none
          | some s ↦
              if trivial || head == tail
              then some (ok (clear slots block (built memory head tail flags s)))
              else none
        ]
      ]

-- A line of objects of `t` bytes, at least one, is a multiple of 64 bytes and has at least 7 slots,
-- which fit it behind the header.
pub slot_max_inline-line_size :
    (t : ℕ)
    → 0 < t
    → (line_size t % 64 ≡ 0) × (7 ≤ slot_max_inline t) × (slot_max_inline t * t + 8 ≤ line_size t)
unfolding line_size slot_max_inline
slot_max_inline-line_size t h =
    let wide : 7 * t + 8 ≤ line_size t = ground arith in
    (
      ground arith,
      (le-div_iff_mul-le {k = t} {x = 7} {y = line_size t - 8} h).1 (omega arith),
      omega (arith, div-mul-le_self (line_size t - 8) t),
    )

doubled : (s r : ℕ) → s * 2 ^ suc r ≡ 2 * s * 2 ^ r
doubled s r =
    rw (twice_pow r).0 (
      let two : s * 2 ≡ 2 * s = omega arith in
      sym (mul_assoc s 2 (2 ^ r)) ∙ ap (λ x. x * 2 ^ r) two)

-- When the doubling of a positive number of slots reaches the size after at most as many rounds as
-- are allowed, within 32 bits, the loop ends, at the first doubling that covers the size.
pub round_up_least :
    (n k s max_size : ℕ)
    → k ≤ n
    → max_size ≤ s * 2 ^ k
    → s * 2 ^ k < 2 ^ 32
    → 0 < s
    → (j : ℕ) × (j ≤ k)
      × (round_up n s max_size ≡ some (s * 2 ^ j))
      × (max_size ≤ s * 2 ^ j)
      × ((j ≡ 0) ⊎ (s * 2 ^ j < 2 * max_size))
unfolding round_up
round_up_least zero zero s max_size le h k pos = (0, omega arith, ground arith, h, inl refl)
round_up_least zero (suc r) s max_size le h k pos = absurd (omega arith)
round_up_least (suc n) zero s max_size le h k pos = (0, omega arith, ground arith, h, inl refl)
round_up_least (suc n) (suc r) s max_size le h k pos = elim (dec_lt s max_size) [
  | no ge ↦ (0, omega arith, ground arith, omega arith, inl refl)
  | yes lt ↦
      let e = doubled s r in
      let small : 2 * s % 2 ^ 32 ≡ 2 * s =
        omega (arith, scaled-le (2 * s) (2 ^ r) (one-le-pow r 2 (omega arith))) in
      let (j, le, rest, covers, least) =
        round_up_least n r (2 * s) max_size (omega arith) (omega arith) (omega arith)
          (omega arith) in
      (
        suc j,
        omega arith,
        ground (arith, small, rest, doubled s j),
        omega (arith, doubled s j),
        inr (elim least [
          | inl z ↦
              let one_round : 2 * s * 2 ^ j ≡ 2 * s = ap (λ i. 2 * s * 2 ^ i) z ∙ omega arith in
              omega (arith, doubled s j)
          | inr l ↦ omega (arith, doubled s j)
        ]),
      )
]

-- a round that goes on, and the size that never grows again
round_up_step :
    (s max_size : ℕ)
    → s < max_size
    → ((rounds : ℕ) → round_up rounds (2 * s % 2 ^ 32) max_size ≡ none)
    → (rounds : ℕ) → round_up rounds s max_size ≡ none
unfolding round_up
round_up_step s max_size h next zero = ground arith
round_up_step s max_size h next (suc rounds) = ground (arith, next rounds)

round_up_zero : (max_size : ℕ) → 0 < max_size → (rounds : ℕ) → round_up rounds 0 max_size ≡ none
unfolding round_up
round_up_zero max_size h zero = ground arith
round_up_zero max_size h (suc rounds) = ground (arith, round_up_zero max_size h rounds)

round_up_last :
    (max_size : ℕ)
    → 7 * 2 ^ 29 < max_size
    → (rounds : ℕ) → round_up rounds (7 * 2 ^ 29) max_size ≡ none
round_up_last max_size h = round_up_step (7 * 2 ^ 29) max_size h (
    round_up_step 3221225472 max_size (omega arith)
      (round_up_step 2147483648 max_size (omega arith) (round_up_zero max_size (omega arith))))

round_up_from :
    (d k max_size : ℕ)
    → d + k ≡ 29
    → 7 * 2 ^ 29 < max_size
    → (rounds : ℕ) → round_up rounds (7 * 2 ^ k) max_size ≡ none
round_up_from zero k max_size e h =
    let e' : k ≡ 29 = omega arith in rw e' (round_up_last max_size h)
round_up_from (suc d) k max_size e h =
    let below = pow-le-pow_right {n = 2} (omega arith) {i = suc k} {j = 29} (omega arith) in
    let twice : 2 * (7 * 2 ^ k) % 2 ^ 32 ≡ 7 * 2 ^ suc k = omega (arith, twice_pow k) in
    round_up_step (7 * 2 ^ k) max_size (omega (arith, twice_pow k))
      (rw twice (round_up_from d (suc k) max_size (omega arith) h))

-- With lines of 7 slots, those for objects of 8 bytes, the loop never ends for a size above
-- 7 * 2 ^ 29, however many rounds it makes.
pub round_up-none :
    (max_size : ℕ) → 7 * 2 ^ 29 < max_size → (rounds : ℕ) → round_up rounds 7 max_size ≡ none
round_up-none max_size h = round_up_from 29 0 max_size (omega arith) h

popcount-zero : (n : ℕ) → popcount n 0 ≡ 0
unfolding popcount
popcount-zero zero = refl
popcount-zero (suc n) = omega (arith, popcount-zero n)

pub popcount-ones : (n k : ℕ) → k ≤ n → popcount n (2 ^ k - 1) ≡ k
unfolding popcount
popcount-ones zero k h = omega arith
popcount-ones (suc n) zero h = omega (arith, popcount-zero n)
popcount-ones (suc n) (suc k) h = ground (arith, twice_pow k, popcount-ones n k (omega arith))
