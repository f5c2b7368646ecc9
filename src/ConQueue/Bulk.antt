-- ===== src/ConQueue/Bulk.antt =====
-- conqueue.h, `ConQueue::push_bulk` and `ConQueue::pop_bulk`, run one call at a time.
pub mod Rounds
pub mod Pushes
pub mod Pops
use usable_lib.Prelude.{
  ℕ, zero, suc, ◌+◌, ◌%◌, ◌^◌, min, Bool, true, false, Option, none, some, List, [], ◌∷◌, length,
  take, get_elem?, set, if◌then◌else◌, ◌==◌, ltb, add32, sub32, has_bit, ◌>>=◌,
}
use usable_lib.ConQueue.{Pos, ConQueue, to_id, capacity, default_update_ht, rts_update_ht}
use usable_lib.ConQueue.Flags.{sp_enq, mp_enq, sc_deq, mc_deq}

module _ {A : Type 0} (flags count_mask : ℕ) where
  -- the copying loop of `push_bulk`
  unfoldable pub construct_from : List (Option A) → ℕ → List A → List (Option A)
  construct_from ring i [] = ring
  construct_from ring i (x ∷ xs) =
      construct_from (set ring (to_id flags count_mask i) (some x)) (add32 i 1) xs

  -- One round of a moving loop: `none` is a read outside the ring or of raw memory.
  abbrev pub take_cell : List (Option A) → ℕ → Option (A × List (Option A))
  take_cell ring i = elim (get_elem? ring (to_id flags count_mask i)) [
    | none ↦ none
    | some none ↦ none
    | some (some x) ↦ some (x, set ring (to_id flags count_mask i) none)
  ]

  -- the moving loop of `pop_bulk`, of `n` rounds
  unfoldable pub fetch_from : List (Option A) → ℕ → ℕ → Option (List A × List (Option A))
  fetch_from ring i zero = some ([], ring)
  fetch_from ring i (suc n) = do
    (x, ring₁) ← take_cell ring i
    (xs, ring₂) ← fetch_from ring₁ (add32 i 1) n
    some (x ∷ xs, ring₂)

  -- The loop for a single consumer: its test reads `cons_tail`, which moves on after the loop only.
  unfoldable pub fetch_while : ℕ → ℕ → List (Option A) → ℕ → ℕ → Option (List A × List (Option A))
  fetch_while cons_tail prod_tail ring i zero = some ([], ring)
  fetch_while cons_tail prod_tail ring i (suc count) = elim (ltb cons_tail prod_tail) [
    | false ↦ some ([], ring)
    | true ↦ do
      (x, ring₁) ← take_cell ring i
      (xs, ring₂) ← fetch_while cons_tail prod_tail ring₁ (add32 i 1) count
      some (x ∷ xs, ring₂)
  ]

module _ {A : Type 0} (junk : ℕ) where
  -- The free cells that a producer sees from position `p`: `capacity() - p + cons_tail.pos`.
  abbrev pub free_from : ConQueue A → ℕ → ℕ
  free_from q p = add32 (sub32 (capacity q) p) q.cons_tail.pos

  unfoldable pub push_bulk : ConQueue A → List A → Option (ℕ × ConQueue A)
  unfolding construct_from
  push_bulk q ys =
      let count : ℕ = length ys % 2 ^ 32 in
      if has_bit q.flags sp_enq
      then (let l : ℕ = min (free_from q q.prod_tail.pos) count in
          some (
            l,
            record q {
              ring = construct_from q.flags q.count_mask q.ring q.prod_tail.pos (take l ys);
              prod_tail = record q.prod_tail { pos = add32 q.prod_tail.pos l };
            },
          ))
      else let l : ℕ = min (free_from q q.prod_head.pos) count in
        if l == 0
        then some (0, q)
        else if has_bit q.flags mp_enq
        then (do
          tail ← default_update_ht q.prod_tail l q.prod_head.pos
          some (
            l,
            record q {
              ring = construct_from q.flags q.count_mask q.ring q.prod_head.pos (take l ys);
              prod_head = record { pos = add32 q.prod_head.pos l; cnt = junk };
              prod_tail = tail;
            },
          ))
        else let nh : Pos = record {
          pos = add32 q.prod_head.pos l;
          cnt = add32 q.prod_head.cnt 1;
        } in
          some (
            l,
            record q {
              ring = construct_from q.flags q.count_mask q.ring q.prod_head.pos (take l ys);
              prod_head = nh;
              prod_tail = rts_update_ht nh q.prod_tail;
            },
          )

  -- `pop_bulk` once `count` is known; the result is what is written to the output range, in order.
  unfoldable pub pop_count : ConQueue A → ℕ → Option (List A × ConQueue A)
  unfolding fetch_from fetch_while
  pop_count q count =
      if has_bit q.flags sc_deq
      then (do
        (xs, ring) ←
            fetch_while q.flags q.count_mask q.cons_tail.pos q.prod_tail.pos q.ring q.cons_tail.pos
              count
        some (
          xs,
          record q {
            ring = ring;
            cons_tail = record q.cons_tail { pos = add32 q.cons_tail.pos (length xs) };
          },
        ))
      else let l : ℕ = min count (sub32 q.prod_tail.pos q.cons_head.pos) in
        if l == 0
        then some ([], q)
        else if has_bit q.flags mc_deq
        then (do
          (xs, ring) ← fetch_from q.flags q.count_mask q.ring q.cons_head.pos l
          tail ← default_update_ht q.cons_tail l q.cons_head.pos
          some (
            xs,
            record q {
              ring = ring;
              cons_head = record { pos = add32 q.cons_head.pos l; cnt = junk };
              cons_tail = tail;
            },
          ))
        else (do
          (xs, ring) ← fetch_from q.flags q.count_mask q.ring q.cons_head.pos l
          let nt : Pos = record { pos = add32 q.cons_head.pos l; cnt = add32 q.cons_head.cnt 1 }
          some (
            xs,
            record q { ring = ring; cons_head = nt; cons_tail = rts_update_ht nt q.cons_tail },
          ))

  -- The room of the output range is cut to 32 bits.
  unfoldable pub pop_bulk : ConQueue A → ℕ → Option (List A × ConQueue A)
  unfolding pop_count
  pop_bulk q distance = pop_count q (distance % 2 ^ 32)
