-- ===== src/ConQueue/Observe.antt =====
-- conqueue.h, `ConQueue`: the operations that look at the queue, and `clear`.
use usable_lib.Prelude.{
  ℕ, zero, suc, ◌≤◌, ◌<◌, ◌≡◌, ◌↔◌, refl, ap, ◌∙◌, sym, Bool, true, false, Option, none, some, List,
  [], ◌∷◌, arith, add32, sub32, has_bit, length, length-set, set, get_elem?,
}
use native.Mathlib.Nat.{mod-eq_of_lt}
use usable_lib.ConQueue.{Pos, ConQueue, index, size, empty, full, top, destroy_from, clear}
use usable_lib.ConQueue.Flags.{sp_enq, sc_deq}
use usable_lib.ConQueue.Represents.{Idle, slots, SameSetup, Geometry-ring, Represents, distance}

Idle-cleared :
    (single multi : Bool) (head tail : Pos)
    → Idle single multi head tail
    → Idle single multi (record head { pos = 0 }) (record tail { pos = 0 })
Idle-cleared true multi head tail i = tt
Idle-cleared false true head tail i = refl
Idle-cleared false false head tail i = (refl, i.1)

module _ {A : Type 0} where
  -- `size`, `empty` and `full` tell the number of objects, whether or not the positions have
  -- wrapped: there are none, and there are `max_size`.
  pub size-length :
      {q : ConQueue A} (xs : List A)
      → Represents q xs
      → (size q ≡ length xs)
        × ((empty q ≡ true) ↔ (length xs ≡ 0))
        × ((full q ≡ true) ↔ (length xs ≡ q.max_size))
  unfolding size empty full
  size-length {q} xs r = (
    distance xs r,
    ground (arith, distance xs r, r.until, r.from_lt, r.fits, r.geometry.capacity_lt),
    ground (arith, distance xs r),
  )

  get_elem?_past : (ring : List (Option A)) (i : ℕ) → length ring ≤ i → get_elem? ring i ≡ none
  get_elem?_past [] i h = refl
  get_elem?_past (x ∷ xs) zero h = absurd (omega arith)
  get_elem?_past (x ∷ xs) (suc i) h = get_elem?_past xs i (omega arith)

  -- On a queue that is not empty `top` is the oldest object while the position of the consumers
  -- is below the number of cells, and reads past the ring from the ring's length on.
  pub top-position :
      {q : ConQueue A} {x : A} {xs : List A}
      → Represents q (x ∷ xs)
      → (q.cons_tail.pos < slots q → top q ≡ some x)
        × (length q.ring ≤ q.cons_tail.pos → top q ≡ none)
  unfolding top
  top-position {q} r = (
    λ lt.
        let e : get_elem? q.ring q.cons_tail.pos ≡ some (some _) =
          ap (get_elem? q.ring) (sym (mod-eq_of_lt lt)) ∙ r.cells.0 in
        ground arith,
    λ past. ground (arith, get_elem?_past q.ring q.cons_tail.pos past),
  )

  length-destroy_from :
      (q : ConQueue A) (ring : List (Option A)) (i n : ℕ)
      → length (destroy_from q ring i n) ≡ length ring
  unfolding destroy_from
  length-destroy_from q ring i zero = refl
  length-destroy_from q ring i (suc n) =
      length-destroy_from q (set ring (index q i) none) (add32 i 1) n ∙ length-set ring _ none

  -- After `clear` the queue is empty, with the capacity that it had, in every mode.
  pub clear-empty :
      {q : ConQueue A} (xs : List A)
      → Represents q xs
      → SameSetup q (clear q) × Represents (clear q) []
  unfolding clear
  clear-empty {q} xs r = (
    (refl, refl),
    record {
      geometry =
          Geometry-ring
            (length-destroy_from q q.ring q.cons_tail.pos (sub32 q.prod_tail.pos q.cons_tail.pos))
            r.geometry;
      from_lt = omega arith;
      until = refl;
      fits = omega arith;
      cells = tt;
      producers = Idle-cleared (has_bit q.flags sp_enq) _ q.prod_head q.prod_tail r.producers;
      consumers = Idle-cleared (has_bit q.flags sc_deq) _ q.cons_head q.cons_tail r.consumers;
    },
  )
