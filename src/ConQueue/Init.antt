-- ===== src/ConQueue/Init.antt =====
-- conqueue.h, the constructors of `ConQueue`.
use native.Mathlib.Nat.{mul-mod_left, pow-le-pow_right, one-le-pow}
use usable_lib.Prelude.{
  ℕ, ◌+◌, ◌-◌, ◌*◌, ◌%◌, ◌^◌, ◌≤◌, ◌<◌, ◌≡◌, refl, ap, ◌∙◌, sym, true, false, ◌&&◌, ◌||◌, Option,
  none, some, List, [], if◌then◌else◌, ◌==◌, arith, Result, ok, throw, sub32, has_bit, length, inl,
  inr, Bool-cases, Option-cases, dec_lt,
}
use usable_lib.Prelude.Bits.{and-mask}
use usable_lib.Prelude.Smear.{smear_lem, pow-add}
use usable_lib.ConQueue.{Pos, ConQueue, aligned_size, to_id}
use usable_lib.ConQueue.Flags.{sp_enq, mp_enq, mp_rts_enq, sc_deq, mc_deq, mc_rts_deq, exact_sz}
use usable_lib.ConQueue.Represents.{Idle-same, slots, Geometry, Represents}

pub data Error : Type 0 where
  ring_null size_zero producer_flags consumer_flags : Error

-- `flags |= bit`, for `bit` a power of two
abbrev pub set_bit : ℕ → ℕ → ℕ
set_bit flags bit = if has_bit flags bit then flags else flags + bit

unfoldable pub check_flags : ℕ → Option Error
check_flags flags =
    if has_bit flags sp_enq && (has_bit flags mp_rts_enq || has_bit flags mp_enq)
    then some producer_flags
    else if has_bit flags mp_rts_enq && has_bit flags mp_enq
    then some producer_flags
    else if has_bit flags sc_deq && (has_bit flags mc_rts_deq || has_bit flags mc_deq)
    then some consumer_flags
    else if has_bit flags mc_rts_deq && has_bit flags mc_deq
    then some consumer_flags
    else none

-- the default mode of a side with no mode bit
unfoldable pub default_side : ℕ → ℕ → ℕ → ℕ → ℕ
default_side flags single rts multi =
    if has_bit flags single || (has_bit flags rts || has_bit flags multi)
    then flags
    else set_bit flags multi

unfoldable pub default_flags : ℕ → ℕ
unfolding default_side
default_flags flags =
    default_side (default_side flags sp_enq mp_rts_enq mp_enq) sc_deq mc_rts_deq mc_deq

abbrev zero_pos : Pos
zero_pos = record { pos = 0; cnt = 0 }

module _ {A : Type 0} where
  -- the members, once the checks have passed
  abbrev pub built : List (Option A) → ℕ → ℕ → ConQueue A
  built ring max_size flags = record {
    ring = ring;
    self_alloc = false;
    flags = flags;
    count_mask = sub32 (aligned_size max_size flags) 1;
    max_size = max_size;
    prod_head = zero_pos;
    prod_tail = zero_pos;
    cons_head = zero_pos;
    cons_tail = zero_pos;
  }

  -- the constructor over a given array; `none` is the null pointer
  unfoldable pub init : Option (List (Option A)) → ℕ → ℕ → Result Error (ConQueue A)
  unfolding check_flags default_flags
  init none max_size flags = throw ring_null
  init (some ring) max_size flags =
      if max_size == 0 then throw size_zero else elim (check_flags flags) [
        | some e ↦ throw e
        | none ↦ ok (built ring max_size (default_flags flags))
      ]

  -- The constructor that allocates; the allocator is the caller's.
  unfoldable pub init_alloc : (ℕ → List (Option A)) → ℕ → ℕ → Result Error (ConQueue A)
  unfolding init aligned_size
  init_alloc allocate max_size flags =
      elim (init (some (allocate (aligned_size max_size flags))) max_size flags) [
        | throw e ↦ throw e
        | ok q ↦ ok (record q { self_alloc = true })
      ]

-- The size of the ring is the least power of two that is not below the size asked for.
pub aligned_size-pow :
    (size flags : ℕ)
    → 0 < size
    → size ≤ 2 ^ 31
    → has_bit flags exact_sz ≡ false
    → (k : ℕ) × (k ≤ 31) × (aligned_size size flags ≡ 2 ^ k) × (size ≤ 2 ^ k) × (2 ^ k < 2 * size)
unfolding aligned_size
aligned_size-pow size flags pos le loose =
    let (k, small, ones, below, least) = smear_lem (sub32 size 1) (omega arith) in
    elim (dec_lt k 32) [
      | yes lt ↦ (k, omega arith, ground arith, omega arith, omega arith)
      | no ge ↦ let full : k ≡ 32 = omega arith in absurd (omega (arith, ap (λ n. 2 ^ n) full))
    ]

pow-divides : (k : ℕ) → k ≤ 32 → 2 ^ 32 % 2 ^ k ≡ 0
pow-divides k h =
    let e : 32 - k + k ≡ 32 = omega arith in
    ap (λ n. n % 2 ^ k) (sym (ap (λ n. 2 ^ n) e) ∙ pow-add (32 - k) k)
    ∙ mul-mod_left (2 ^ (32 - k)) (2 ^ k)

pow-lt : (k : ℕ) → k ≤ 31 → 2 ^ k < 2 ^ 32
pow-lt k h = omega (arith, pow-le-pow_right {n = 2} (omega arith) {i = k} {j = 31} h)

-- The flags that the constructor adds do not change whether the size is exact.
producer_default-exact :
    (flags : ℕ)
    → has_bit (default_side flags sp_enq mp_rts_enq mp_enq) exact_sz ≡ has_bit flags exact_sz
unfolding default_side
producer_default-exact flags = ground arith

consumer_default-exact :
    (flags : ℕ)
    → has_bit (default_side flags sc_deq mc_rts_deq mc_deq) exact_sz ≡ has_bit flags exact_sz
unfolding default_side
consumer_default-exact flags = ground arith

default_flags-exact : (flags : ℕ) → has_bit (default_flags flags) exact_sz ≡ has_bit flags exact_sz
unfolding default_flags
default_flags-exact flags =
    consumer_default-exact (default_side flags sp_enq mp_rts_enq mp_enq)
    ∙ producer_default-exact flags

aligned_size-cong :
    (size flags flags' : ℕ)
    → has_bit flags exact_sz ≡ has_bit flags' exact_sz
    → aligned_size size flags ≡ aligned_size size flags'
unfolding aligned_size
aligned_size-cong size flags flags' e = rw e

pub to_id-mask :
    (flags mask k i : ℕ)
    → has_bit flags exact_sz ≡ false
    → mask ≡ 2 ^ k - 1
    → to_id flags mask i ≡ i % 2 ^ k
unfolding to_id
to_id-mask flags mask k i loose e = rw (loose, e) (and-mask k i)

pub to_id-exact :
    (flags mask n i : ℕ) → has_bit flags exact_sz ≡ true → mask ≡ n → to_id flags mask i ≡ i % n
unfolding to_id
to_id-exact flags mask n i exact e = rw (exact, e)

module _ {A : Type 0} (ring : List (Option A)) (max_size flags : ℕ) where
  -- The constructor succeeds exactly on a positive size and compatible flags.
  init-eq_ok :
      {q : ConQueue A}
      → init (some ring) max_size flags ≡ ok q
      → (0 < max_size) × (q ≡ built ring max_size (default_flags flags))
  unfolding init
  init-eq_ok e = elim (Bool-cases (max_size == 0)) [
    | inl zero_size ↦ ground arith
    | inr pos ↦ elim (Option-cases (check_flags flags)) [
      | inl fine ↦ ground arith
      | inr (error, bad) ↦ ground arith
    ]
  ]

  built-Geometry :
      has_bit flags exact_sz ≡ false
      → 0 < max_size
      → max_size ≤ 2 ^ 31
      → aligned_size max_size flags ≤ length ring
      → Geometry (built ring max_size flags)
  built-Geometry loose pos small memory =
      let (k, le, size, covers, least) = aligned_size-pow max_size flags pos small loose in
      let mask : sub32 (aligned_size max_size flags) 1 ≡ 2 ^ k - 1 =
        omega (arith, size, one-le-pow k 2, pow-lt k le) in
      let cells : slots (built ring max_size flags) ≡ 2 ^ k =
        ground (arith, mask, one-le-pow k 2) in
      record {
        capacity_pos = pos;
        capacity_lt = omega arith;
        room = rw cells covers;
        memory = rw cells (rw size at memory);
        round = rw cells (pow-divides k (omega arith));
        indexed = λ i. rw cells (to_id-mask flags _ k i loose mask);
      }

  exact-Geometry :
      has_bit flags exact_sz ≡ true
      → 0 < max_size
      → max_size < 2 ^ 32
      → 2 ^ 32 % max_size ≡ 0
      → max_size ≤ length ring
      → Geometry (built ring max_size flags)
  unfolding aligned_size
  exact-Geometry exact pos small divides memory =
      let mask : sub32 (aligned_size max_size flags) 1 ≡ max_size = rw exact (omega arith) in
      let cells : slots (built ring max_size flags) ≡ max_size = ground (arith, mask) in
      record {
        capacity_pos = pos;
        capacity_lt = small;
        room = rw cells (omega arith);
        memory = rw cells memory;
        round = rw cells divides;
        indexed = λ i. rw cells (to_id-exact flags _ max_size i exact mask);
      }

  built-Represents :
      Geometry (built ring max_size flags) → Represents (built ring max_size flags) []
  built-Represents g = record {
    geometry = g;
    from_lt = omega arith;
    until = refl;
    fits = omega arith;
    cells = tt;
    producers = Idle-same _ _ zero_pos;
    consumers = Idle-same _ _ zero_pos;
  }

-- A queue that the constructor returns is empty and has the capacity asked for, if the array holds
-- the aligned size and the size is at most 2 ^ 31.
pub init-Represents :
    {A : Type 0} (ring : List (Option A)) (max_size flags : ℕ) {q : ConQueue A}
    → has_bit flags exact_sz ≡ false
    → max_size ≤ 2 ^ 31
    → aligned_size max_size flags ≤ length ring
    → init (some ring) max_size flags ≡ ok q
    → Represents q [] × (q.max_size ≡ max_size)
init-Represents ring max_size flags {q} loose small memory e =
    let (pos, is) = init-eq_ok ring max_size flags e in
    rw is (
      built-Represents ring max_size (default_flags flags) (
          built-Geometry ring max_size (default_flags flags) (default_flags-exact flags ∙ loose) pos
            small (rw (aligned_size-cong max_size _ flags (default_flags-exact flags)) memory)),
      refl,
    )

-- The same for an exact size, if that divides 2 ^ 32.
pub init_exact-Represents :
    {A : Type 0} (ring : List (Option A)) (max_size flags : ℕ) {q : ConQueue A}
    → has_bit flags exact_sz ≡ true
    → max_size < 2 ^ 32
    → 2 ^ 32 % max_size ≡ 0
    → max_size ≤ length ring
    → init (some ring) max_size flags ≡ ok q
    → Represents q [] × (q.max_size ≡ max_size)
init_exact-Represents ring max_size flags {q} exact small divides memory e =
    let (pos, is) = init-eq_ok ring max_size flags e in
    rw is (
      built-Represents ring max_size (default_flags flags) (
          exact-Geometry ring max_size (default_flags flags) (default_flags-exact flags ∙ exact) pos
            small divides memory),
      refl,
    )
