-- ===== src/ClQueue/Layout.antt =====
-- conqueue.h, `CLQueue::get_li` and `get_si`: which positions share a line and a slot.
use native.Mathlib.Nat.{
  mod-eq_of_lt, add-mod_right, suc-mul, one-le-pow, add-div_right, div-eq_of_lt, zero-div, mod-lt,
}
use usable_lib.Prelude.Bits.{and-mask}
use usable_lib.ConQueue.Window.{index-ne}
use usable_lib.ClQueue.{line_of, slot_of}
use usable_lib.Prelude.{
  ℕ, zero, suc, ◌+◌, ◌-◌, ◌*◌, ◌/◌, ◌%◌, ◌^◌, ◌≤◌, ◌<◌, ◌≡◌, ◌≢◌, ap, ◌∙◌, sym, arith, ◌==◌, false,
  ◌↔◌, if◌then◌else◌, dec_lt, ltb,
}

-- how many positions below `n` are in line `l`
unfoldable pub count : (ℕ → ℕ) → ℕ → ℕ → ℕ
count li l zero = 0
count li l (suc n) = count li l n + (if li n == l then 1 else 0)

-- A way to give each position a line and a slot: going round all slots fills each line, and a line
-- gives out its slots in turn.
pub record Layout (s lines : ℕ) (li si : ℕ → ℕ) : Type 0 where
  pub slots_pos : 0 < s
  pub below : (p : ℕ) → li p < lines
  pub around : (l p : ℕ) → l < lines → count li l (p + s * lines) ≡ count li l p + s
  pub in_turn : (p : ℕ) → si p ≡ count li (li p) p % s

pub count-le : (li : ℕ → ℕ) (l a b : ℕ) → a ≤ b → count li l a ≤ count li l b
unfolding count
count-le li l a zero h = let e : a ≡ 0 = omega arith in rw e (omega arith)
count-le li l a (suc b) h = elim (dec_lt b a) [
  | yes lt ↦ let e : a ≡ suc b = omega arith in rw e (omega arith)
  | no ge ↦ omega (arith, count-le li l a b (omega arith))
]

pub count-at : (li : ℕ → ℕ) (p : ℕ) → count li (li p) (p + 1) ≡ count li (li p) p + 1
unfolding count
count-at li p = let e : p + 1 ≡ suc p = omega arith in rw e (ground arith)

pub count_other : (li : ℕ → ℕ) (l p : ℕ) → li p ≢ l → count li l (p + 1) ≡ count li l p
unfolding count
count_other li l p h = let e : p + 1 ≡ suc p = omega arith in rw e (ground arith)

module _ {s lines : ℕ} {li si : ℕ → ℕ} (g : Layout s lines li si) where
  -- A line has `s` objects more at the head than at the tail when all slots are taken only.
  pub full_iff :
      (tail head : ℕ)
      → tail ≤ head
      → head ≤ tail + s * lines
      → (count li (li head) head ≡ count li (li head) tail + s) ↔ (head ≡ tail + s * lines)
  full_iff tail head h k =
      let round = g.around (li head) tail (g.below head) in
      (
        λ e. elim (dec_lt head (tail + s * lines)) [
          | yes lt ↦ absurd (
              omega (
                arith,
                count-at li head,
                count-le li (li head) (head + 1) (tail + s * lines) (omega arith),
              ))
          | no ge ↦ omega arith
        ],
        λ e. ap (count li (li head)) e ∙ round,
      )

  -- The line at the tail has as many at the head as at the tail when nothing is held only.
  pub empty_iff :
      (tail head : ℕ)
      → tail ≤ head
      → (count li (li tail) head ≡ count li (li tail) tail) ↔ (head ≡ tail)
  empty_iff tail head h = (
    λ e. elim (dec_lt tail head) [
      | yes lt ↦
          absurd
            (omega (arith, count-at li tail, count-le li (li tail) (tail + 1) head (omega arith)))
      | no ge ↦ omega arith
    ],
    λ e. ap (count li (li tail)) e,
  )

  -- Positions of one line less than a round apart have different slots.
  pub slots_apart : (p q : ℕ) → p < q → q < p + s * lines → li p ≡ li q → si p ≢ si q
  slots_apart p q h k e same =
      let l : ℕ = li p in
      let d : ℕ = count li l q - count li l p in
      let low : 0 < d = omega (arith, count-at li p, count-le li l (p + 1) q (omega arith)) in
      let after : count li l (q + 1) ≡ count li l q + 1 =
        ap (λ m. count li m (q + 1)) e ∙ count-at li q ∙ ap (λ m. count li m q + 1) (sym e) in
      let high : d < s = omega (
        arith,
        after,
        count-le li l (q + 1) (p + s * lines) (omega arith),
        g.around l p (g.below p),
      ) in
      let sum : count li l p + d ≡ count li (li q) q = omega arith ∙ ap (λ m. count li m q) e in
      index-ne s (count li l p) d low high
        (ap (λ c. c % s) sum ∙ sym (g.in_turn q) ∙ sym same ∙ g.in_turn p)

-- without blocks: the lines in turn, and a slot further after each round
module _ (s b : ℕ) where
  abbrev lines : ℕ
  lines = 2 ^ b

  line_mod : (p : ℕ) → line_of s false (2 ^ b - 1) p ≡ p % 2 ^ b
  unfolding line_of
  line_mod p = and-mask b p

  abbrev li : ℕ → ℕ
  li = line_of s false (2 ^ b - 1)

  count_first : (l n : ℕ) → n ≤ 2 ^ b → count li l n ≡ (if ltb l n then 1 else 0)
  unfolding count
  count_first l zero h = ground arith
  count_first l (suc n) h =
      ground (arith, count_first l n (omega arith), line_mod n, mod-eq_of_lt {n = n} {m = 2 ^ b} h)

  li-around : (p : ℕ) → li (p + 2 ^ b) ≡ li p
  li-around p = line_mod (p + 2 ^ b) ∙ add-mod_right p (2 ^ b) ∙ sym (line_mod p)

  count-around : (l p : ℕ) → l < 2 ^ b → count li l (p + 2 ^ b) ≡ count li l p + 1
  unfolding count
  count-around l zero h = ground (arith, count_first l (2 ^ b) (omega arith))
  count-around l (suc p) h =
      let e : suc p + 2 ^ b ≡ suc (p + 2 ^ b) = omega arith in
      rw e (ground (arith, count-around l p h, li-around p))

  count-rounds : (l p k : ℕ) → l < 2 ^ b → count li l (p + k * 2 ^ b) ≡ count li l p + k
  count-rounds l p zero h = let e : p + 0 * 2 ^ b ≡ p = omega arith in rw e (omega arith)
  count-rounds l p (suc k) h =
      let e : p + suc k * 2 ^ b ≡ p + k * 2 ^ b + 2 ^ b = omega (arith, suc-mul k (2 ^ b)) in
      ap (count li l) e ∙ count-around l (p + k * 2 ^ b) h ∙ omega (arith, count-rounds l p k h)

  count-next : (q p : ℕ) → p ≡ q + 2 ^ b → count li (li p) p ≡ count li (li q) q + 1
  count-next q p e =
      let same : li p ≡ li q = ap li e ∙ li-around q in
      let below : li q < 2 ^ b =
        rw (line_mod q) (mod-lt q {m = 2 ^ b} (one-le-pow b 2 (omega arith))) in
      rw same (rw e (omega (arith, count-around (li q) q below)))

  -- by the rounds before `p`
  slot-in_turn : (n p : ℕ) → p ≤ n → p / 2 ^ b ≡ count li (li p) p
  unfolding count
  slot-in_turn zero p h = let e : p ≡ 0 = omega arith in rw e (zero-div (2 ^ b))
  slot-in_turn (suc n) p h = elim (dec_lt p (2 ^ b)) [
    | yes lt ↦ ground (
      arith,
      count_first (li p) p (omega arith),
      line_mod p,
      mod-eq_of_lt lt,
      div-eq_of_lt {n = p} {m = 2 ^ b} lt,
    )
    | no ge ↦
        let q : ℕ = p - 2 ^ b in
        let whole : p ≡ q + 2 ^ b = omega arith in
        let pos : 0 < 2 ^ b = one-le-pow b 2 (omega arith) in
        ap (λ x. x / 2 ^ b) whole
        ∙ add-div_right q pos
        ∙ ap (λ x. x + 1) (slot-in_turn n q (omega arith))
        ∙ sym (count-next q p whole)
  ]

  -- The layout without blocks.
  pub rows-Layout : 0 < s → Layout s (2 ^ b) li (slot_of s false b)
  unfolding slot_of
  rows-Layout h = record {
    slots_pos = h;
    below = λ p. rw (line_mod p) (mod-lt p {m = 2 ^ b} (one-le-pow b 2 (omega arith)));
    around = λ l p lt. count-rounds l p s lt;
    in_turn = λ p. ap (λ c. c % s) (slot-in_turn p p (omega arith));
  }
