-- ===== src/ClQueue/Wrap.antt =====
-- Where `CLQueue` goes wrong: lines whose 16-bit counters have wrapped, and few lines in blocks.
use native.Mathlib.Nat.{mod-eq_of_lt, div-eq_of_lt, add-mod_right}
use usable_lib.Prelude.{
  ℕ, ◌+◌, ◌*◌, ◌/◌, ◌%◌, ◌^◌, ◌-◌, ◌≤◌, ◌<◌, ◌≡◌, refl, ap, ◌∙◌, sym, Bool, true, false, some, ok,
  has_bit, arith, bit_and, add32,
}
use usable_lib.Prelude.Bits.{and-mask, scaled-le}
use usable_lib.ConQueue.Flags.{sp_enq}
use usable_lib.ClQueue.{
  ClQueue, Line, get_li, get_si, line_full, bump_hf2, set_slot, commit, emplace_impl, line_of,
  slot_of,
}

-- A full line whose pushes have wrapped around 2 ^ 16 later than its pops, of a queue with a single
-- producer: the push succeeds all the same, over the object that is in the slot.
pub emplace_impl_wrapped :
    {A : Type 0} (s : ℕ) (block unsafe : Bool) (q : ClQueue A) (x : A) (cl : Line A)
    → q.cls (get_li s block q q.head) ≡ cl
    → cl.tf2 < 2 ^ 16
    → 0 < s
    → s < 2 ^ 16
    → 2 ^ 16 ≤ cl.tf2 + s
    → cl.hf2 ≡ (cl.tf2 + s) % 2 ^ 16
    → has_bit q.flags sp_enq ≡ true
    → (q' : ClQueue A) × (emplace_impl s block unsafe q x ≡ some (ok true, q'))
      × ((q'.cls (get_li s block q q.head)).slots (get_si s block q q.head) ≡ some x)
unfolding emplace_impl commit
emplace_impl_wrapped s block unsafe q x cl e lt pos small wraps wrapped single =
    let missed : line_full s block (q.cls (get_li s block q q.head)) ≡ false =
      rw e (ground arith) in
    (
      record q {
        head = add32 q.head 1;
        cls = bump_hf2 s block (get_li s block q q.head) (set_slot s block q q.head (some x));
      },
      rw (missed, single) refl,
      ground arith,
    )

small_line : (s b n : ℕ) → 0 < s → n < 64 → line_of s true (2 ^ b - 1) n ≡ n % 2 ^ b
unfolding line_of
small_line s b n pos h =
    let wide = scaled-le 64 s pos in
    let block : n / (s * 64) ≡ 0 = div-eq_of_lt {n = n} {m = s * 64} (omega arith) in
    ap (λ k. bit_and k (2 ^ b - 1)) (omega arith) ∙ and-mask b n

small_slot : (s n : ℕ) → 0 < s → n < 64 → n % (s * 64) / 64 ≡ 0
small_slot s n pos h =
    let wide = scaled-le 64 s pos in
    let same : n % (s * 64) ≡ n = mod-eq_of_lt {n = n} {m = s * 64} (omega arith) in
    ap (λ k. k / 64) same ∙ div-eq_of_lt {n = n} {m = 64} h

-- With blocks and less than 64 lines, `2 ^ b` of them, positions below 64 that are `2 ^ b` apart
-- have the same line and the same slot.
pub blocks_collide :
    (s b n : ℕ)
    → 0 < s
    → n + 2 ^ b < 64
    → (line_of s true (2 ^ b - 1) (n + 2 ^ b) ≡ line_of s true (2 ^ b - 1) n)
      × (slot_of s true b (n + 2 ^ b) ≡ slot_of s true b n)
unfolding line_of slot_of
blocks_collide s b n pos h = (
  rw (small_line s b (n + 2 ^ b) pos h, small_line s b n pos (omega arith))
      (add-mod_right n (2 ^ b)),
  small_slot s (n + 2 ^ b) pos h ∙ sym (small_slot s n pos (omega arith)),
)
