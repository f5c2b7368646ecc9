-- ===== src/ConQueue/Bulk/Rounds.antt =====
-- The loops of the bulk operations, against the objects that the queue holds.
use usable_lib.Prelude.{
  ◌+◌, ◌≤◌, ◌≡◌, refl, ap, Option, some, List, [], ◌∷◌, ◌++◌, append_assoc, append-nil, arith,
  add32, has_bit, length, length-append, get_elem?,
}
use usable_lib.ConQueue.{Pos, ConQueue, construct, destroy}
use usable_lib.ConQueue.Flags.{sp_enq, mp_enq, sc_deq, mc_deq}
use usable_lib.ConQueue.Represents.{
  Idle, Idle-same, Represents, Represents-grown, Represents-shrunk, Represents-ends,
}
use usable_lib.ConQueue.Bulk.{construct_from, take_cell, fetch_from}

module _ {A : Type 0} where
  -- The copying loop appends the objects that it copies.
  pub Represents-construct_from :
      {q : ConQueue A} {xs : List A} (ys : List A) {head tail : Pos}
      → Represents q xs
      → length xs + length ys ≤ q.max_size
      → tail.pos ≡ add32 q.prod_tail.pos (length ys)
      → Idle (has_bit q.flags sp_enq) (has_bit q.flags mp_enq) head tail
      → Represents
          (record q {
            ring = construct_from q.flags q.count_mask q.ring q.prod_tail.pos ys;
            prod_head = head;
            prod_tail = tail;
          })
          (xs ++ ys)
  unfolding construct_from
  Represents-construct_from {q} {xs} [] {head} {tail} r fits moved idle =
      rw append-nil (Represents-ends r (omega (arith, moved, r.until)) refl idle r.consumers)
  Represents-construct_from {q} {xs} (y ∷ ys) {head} {tail} r fits moved idle =
      let mid : Pos = record { pos = add32 q.prod_tail.pos 1; cnt = 0 } in
      let q₁ : ConQueue A = record q {
        ring = construct q q.prod_tail.pos y;
        prod_head = mid;
        prod_tail = mid;
      } in
      let r₁ : Represents q₁ (xs ++ y ∷ []) =
        Represents-grown y r (omega arith) refl (Idle-same _ _ mid) in
      rw (← append_assoc xs (y ∷ []) ys) (
        Represents-construct_from {q = q₁} ys r₁ (omega (arith, length-append xs (y ∷ [])))
          (omega (arith, moved)) idle)

  take_cell-oldest :
      {q : ConQueue A} {x : A} {xs : List A}
      → Represents q (x ∷ xs)
      → take_cell q.flags q.count_mask q.ring q.cons_tail.pos ≡ some (x, destroy q q.cons_tail.pos)
  take_cell-oldest {q} r =
      ground (arith, r.cells, ap (get_elem? q.ring) (r.geometry.indexed q.cons_tail.pos))

  -- The moving loop takes the oldest objects, in order.
  pub Represents-fetch_from :
      {q : ConQueue A} {xs : List A} (ys : List A)
      → Represents q (ys ++ xs)
      → (ring : List (Option A)) × (fetch_from q.flags q.count_mask q.ring q.cons_tail.pos
            (length ys)
          ≡ some (ys, ring))
        × ((head tail : Pos)
            → tail.pos ≡ add32 q.cons_tail.pos (length ys)
            → Idle (has_bit q.flags sc_deq) (has_bit q.flags mc_deq) head tail
            → Represents (record q { ring = ring; cons_head = head; cons_tail = tail }) xs)
  unfolding fetch_from
  Represents-fetch_from {q} {xs} [] r = (
    q.ring,
    refl,
    λ head tail moved idle.
        Represents-ends r refl (omega (arith, moved, r.from_lt)) r.producers idle,
  )
  Represents-fetch_from {q} {xs} (y ∷ ys) r =
      let mid : Pos = record { pos = add32 q.cons_tail.pos 1; cnt = 0 } in
      let q₁ : ConQueue A = record q {
        ring = destroy q q.cons_tail.pos;
        cons_head = mid;
        cons_tail = mid;
      } in
      let r₁ : Represents q₁ (ys ++ xs) = Represents-shrunk y r refl (Idle-same _ _ mid) in
      let (ring, taken, rest) = Represents-fetch_from {q = q₁} {xs = xs} ys r₁ in
      (
        ring,
        ground (arith, take_cell-oldest {q = q} r, taken),
        λ head tail moved idle. rest head tail (omega (arith, moved)) idle,
      )
