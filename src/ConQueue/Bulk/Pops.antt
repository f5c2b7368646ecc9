-- ===== src/ConQueue/Bulk/Pops.antt =====
-- `pop_bulk` on an idle `ConQueue`: with several consumers it does what that of `Fifo` does, with a
-- single one it does not.
use native.Mathlib.Nat.{mod-eq_of_lt}
use usable_lib.Fifo
use usable_lib.Prelude.{
  ◌<◌, ◌%◌, ◌^◌, ℕ, ◌≡◌, ◌≢◌, refl, ap, true, false, some, List, [], ◌++◌, arith, add32, has_bit,
  length, take, drop, length-take, take-append-drop, min, take-eq-nil, take-min, drop-min, zero,
  suc, Bool-cases, Option-cases, inl, inr, drop-eq_self, ltb, if◌then◌else◌, Option, ℕ_discrete,
}
use usable_lib.ConQueue.{Pos, ConQueue}
use usable_lib.ConQueue.Flags.{sc_deq, mc_deq}
use usable_lib.ConQueue.Represents.{SameSetup, Represents, distance}
use usable_lib.ConQueue.Calls.{
  alone, default, rts, mode, default_update_ht-Idle, rts_update_ht-Idle,
}
use usable_lib.ConQueue.Bulk.{fetch_from, take_cell, fetch_while, pop_bulk, pop_count}
use usable_lib.ConQueue.Bulk.Rounds.{Represents-fetch_from}

module _ {A : Type 0} (junk : ℕ) where
  module _ {q : ConQueue A} {xs : List A} (r : Represents q xs) where
    pop_count-some :
        (count l : ℕ)
        → has_bit q.flags sc_deq ≡ false
        → l ≡ min count (length xs)
        → l ≢ 0
        → (q' : ConQueue A) × (pop_count junk q count ≡ some (take l xs, q'))
          × SameSetup q q'
          × Represents q' (drop l xs)
    unfolding pop_count
    pop_count-some count l many e ne =
        let split : Represents q (take l xs ++ drop l xs) = rw (take-append-drop l xs) r in
        let (ring, taken, rest) = Represents-fetch_from (take l xs) split in
        let n : length (take l xs) ≡ l = omega (arith, length-take l xs) in
        elim (mode (has_bit q.flags sc_deq) (has_bit q.flags mc_deq) r.consumers) [
          | alone s ↦ cc
          | default s m p ↦
              let head : Pos = record { pos = add32 q.cons_head.pos l; cnt = junk } in
              let tail : Pos = record q.cons_tail { pos = add32 q.cons_tail.pos l } in
              (
                record q { ring = ring; cons_head = head; cons_tail = tail },
                ground (
                  arith,
                  distance xs r,
                  taken,
                  n,
                  default_update_ht-Idle q.cons_head q.cons_tail l,
                  ap (λ i. fetch_from q.flags q.count_mask q.ring i l) p,
                  ap (fetch_from q.flags q.count_mask q.ring q.cons_tail.pos) n,
                ),
                (refl, refl),
                rest head tail (rw n refl) (rw (s, m) (ap (λ i. add32 i l) p)),
              )
          | rts s m p c ↦
              let ends : Pos = record {
                pos = add32 q.cons_head.pos l;
                cnt = add32 q.cons_head.cnt 1;
              } in
              (
                record q { ring = ring; cons_head = ends; cons_tail = ends },
                ground (
                  arith,
                  distance xs r,
                  taken,
                  n,
                  rts_update_ht-Idle q.cons_head q.cons_tail ends.pos,
                  ap (λ i. fetch_from q.flags q.count_mask q.ring i l) p,
                  ap (fetch_from q.flags q.count_mask q.ring q.cons_tail.pos) n,
                ),
                (refl, refl),
                rest ends ends (rw n (ap (λ i. add32 i l) p)) (rw (s, m) (refl, refl)),
              )
        ]

    pop_count-none :
        (count : ℕ)
        → has_bit q.flags sc_deq ≡ false
        → min count (length xs) ≡ 0
        → pop_count junk q count ≡ some ([], q)
    unfolding pop_count
    pop_count-none count many e =
        elim (mode (has_bit q.flags sc_deq) (has_bit q.flags mc_deq) r.consumers) [
          | alone s ↦ cc
          | default s m p ↦ ground (arith, distance xs r)
          | rts s m p c ↦ ground (arith, distance xs r)
        ]

    pop_count-pop_bulk :
        (count : ℕ)
        → has_bit q.flags sc_deq ≡ false
        → (q' : ConQueue A) × (pop_count junk q count ≡ some ((Fifo.pop_bulk count xs).0, q'))
          × SameSetup q q'
          × Represents q' (Fifo.pop_bulk count xs).1
    pop_count-pop_bulk count many = elim (ℕ_discrete (min count (length xs)) 0) [
      | yes e ↦
          rw (take-eq-nil count xs e, drop-eq_self count xs e)
            (q, pop_count-none count many e, (refl, refl), r)
      | no n ↦ rw (← take-min count xs, ← drop-min count xs) (pop_count-some count _ many refl n)
    ]

    -- On an idle queue, whose size is exact only if it divides 2 ^ 32, a bulk pop with several consumers into
    -- a range of fewer than 2 ^ 32 places takes as many objects as there are, up to `count`, oldest first,
    -- and leaves the rest.
    pub pop_bulk-pop_bulk :
        (count : ℕ)
        → count < 2 ^ 32
        → has_bit q.flags sc_deq ≡ false
        → (q' : ConQueue A) × (pop_bulk junk q count ≡ some ((Fifo.pop_bulk count xs).0, q'))
          × SameSetup q q'
          × Represents q' (Fifo.pop_bulk count xs).1
    unfolding pop_bulk
    pop_bulk-pop_bulk count small many = rw (mod-eq_of_lt small) (pop_count-pop_bulk count many)

  length-fetch_while :
      (flags mask h t : ℕ) (ring : List (Option A)) (i n : ℕ) {xs : List A}
      {ring' : List (Option A)}
      → fetch_while flags mask t h ring i n ≡ some (xs, ring')
      → length xs ≡ (if ltb t h then n else 0)
  unfolding fetch_while
  length-fetch_while flags mask h t ring i zero e = ground arith
  length-fetch_while flags mask h t ring i (suc n) e = elim (Bool-cases (ltb t h)) [
    | inr stop ↦ ground arith
    | inl go ↦ elim (Option-cases (take_cell flags mask ring i)) [
      | inl fault ↦ ground arith
      | inr (taken, e₁) ↦ elim (Option-cases (fetch_while flags mask t h taken.1 (add32 i 1) n)) [
        | inl fault ↦ ground arith
        | inr (later, e₂) ↦
            ground (arith, length-fetch_while flags mask h t taken.1 (add32 i 1) n e₂)
      ]
    ]
  ]

  pop_count_single :
      (q q' : ConQueue A) (count : ℕ) (xs : List A)
      → has_bit q.flags sc_deq ≡ true
      → pop_count junk q count ≡ some (xs, q')
      → length xs ≡ (if ltb q.cons_tail.pos q.prod_tail.pos then count else 0)
  unfolding pop_count
  pop_count_single q q' count xs s e =
      elim (Option-cases (
        fetch_while q.flags q.count_mask q.cons_tail.pos q.prod_tail.pos q.ring q.cons_tail.pos
          count)) [
            | inl fault ↦ ground arith
            | inr (taken, e₁) ↦ ground (
              arith,
              length-fetch_while q.flags q.count_mask q.prod_tail.pos q.cons_tail.pos q.ring
                  q.cons_tail.pos count e₁,
            )
          ]

  -- With a single consumer the number of objects that a bulk pop takes does not depend on how
  -- many there are: where it returns, it has taken `count` objects modulo 2 ^ 32 if the position of the
  -- consumer is numerically below that of the producers, and none otherwise.
  pub pop_bulk_single :
      (q q' : ConQueue A) (count : ℕ) (xs : List A)
      → has_bit q.flags sc_deq ≡ true
      → pop_bulk junk q count ≡ some (xs, q')
      → length xs ≡ (if ltb q.cons_tail.pos q.prod_tail.pos then count % 2 ^ 32 else 0)
  unfolding pop_bulk
  pop_bulk_single q q' count xs s e = pop_count_single q q' (count % 2 ^ 32) xs s e
