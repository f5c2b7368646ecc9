-- ===== src/RteRing.antt =====
-- queue-bench/rte_ring.h, class `RteRing`: `enqueue` and `dequeue`, one call at a time. `size`
-- is a power of 2 up to 2 ^ 31, so that `& mask` is the remainder by it. `none` is a call that waits forever.
pub mod Laps
pub mod Singles
pub mod Tests
use usable_lib.Prelude.{
  ℕ, zero, suc, ◌-◌, ◌%◌, Bool, ◌&&◌, ◌||◌, Option, none, some, List, [], ◌∷◌, length, take, min,
  ltb, add32, sub32, if◌then◌else◌, ◌==◌,
}

pub data Status : Type 0 where
  rte_ring_ok : Status
  rtx_ring_full : Status
  rtx_ring_not_enough : Status

pub record RteRing (T : Type 0) : Type 0 where
  pub prod_head : ℕ
  pub prod_tail : ℕ
  pub cons_head : ℕ
  pub cons_tail : ℕ
  pub objs : ℕ → T

module _ {T : Type 0} where
  abbrev pub store : (ℕ → T) → ℕ → T → ℕ → T
  store objs i x j = if i == j then x else objs j

  unfoldable pub enqueue_sp : ℕ → RteRing T → T → Option (Status × RteRing T)
  enqueue_sp size r obj =
      let mask = size - 1 in
      let free_entries = sub32 (add32 mask r.cons_tail) r.prod_head in
      let prod_next = add32 r.prod_head 1 in
      if free_entries == 0
      then some (rtx_ring_full, r)
      else some (
        rte_ring_ok,
        record r {
          prod_head = prod_next;
          prod_tail = prod_next;
          objs = store r.objs (r.prod_head % size) obj;
        },
      )

  unfoldable pub enqueue_mp : ℕ → RteRing T → T → Option (Status × RteRing T)
  enqueue_mp size r obj =
      let mask = size - 1 in
      let free_entries = sub32 (add32 mask r.cons_tail) r.prod_head in
      let prod_next = add32 r.prod_head 1 in
      let placed = record r {
        prod_head = prod_next;
        objs = store r.objs (r.prod_head % size) obj;
      } in
      if free_entries == 0
      then some (rtx_ring_full, r)
      else (if r.prod_tail == r.prod_head
          then some (rte_ring_ok, record placed { prod_tail = prod_next })
          else none)

  -- the object that is read is given with the status
  unfoldable pub dequeue_sc : ℕ → RteRing T → Option (Status × Option T × RteRing T)
  dequeue_sc size r =
      let mask = size - 1 in
      let entries = sub32 r.prod_tail r.cons_head in
      let cons_next = add32 r.cons_head 1 in
      if entries == 0
      then some (rtx_ring_not_enough, none, r)
      else some (
        rte_ring_ok,
        some (r.objs (r.cons_head % mask)),
        record r { cons_head = cons_next; cons_tail = cons_next },
      )

  unfoldable pub dequeue_mc : ℕ → RteRing T → Option (Status × Option T × RteRing T)
  dequeue_mc size r =
      let mask = size - 1 in
      let entries = sub32 r.prod_tail r.cons_head in
      let cons_next = add32 r.cons_head 1 in
      let taken = record r { cons_head = cons_next } in
      if entries == 0
      then some (rtx_ring_not_enough, none, r)
      else (if r.cons_tail == r.cons_head
          then some (
            rte_ring_ok,
            some (r.objs (r.cons_head % mask)),
            record taken { cons_tail = cons_next },
          )
          else none)

  -- `mp` and `mc` are the bits of `mode`
  unfoldable pub enqueue : Bool → ℕ → RteRing T → T → Option (Status × RteRing T)
  enqueue mp size r obj = if mp then enqueue_mp size r obj else enqueue_sp size r obj

  unfoldable pub dequeue : Bool → ℕ → RteRing T → Option (Status × Option T × RteRing T)
  dequeue mc size r = if mc then dequeue_mc size r else dequeue_sc size r

  -- the loop that places the objects
  unfoldable pub place_from : ℕ → (ℕ → T) → ℕ → List T → ℕ → T
  place_from size objs i [] = objs
  place_from size objs i (x ∷ xs) = place_from size (store objs (i % size) x) (add32 i 1) xs

  -- the loop that takes `n` objects
  unfoldable pub take_from : ℕ → (ℕ → T) → ℕ → ℕ → List T
  take_from size objs i zero = []
  take_from size objs i (suc n) = objs (i % (size - 1)) ∷ take_from size objs (add32 i 1) n

  -- the number that is written to `res_n` is given with the status
  unfoldable pub enqueue_sp_bulk :
      ℕ → RteRing T → List T → Bool → Option (Status × Option ℕ × RteRing T)
  enqueue_sp_bulk size r obj_table fixed =
      let mask = size - 1 in
      let free_entries = sub32 (add32 mask r.cons_tail) r.prod_head in
      let n = min (length obj_table) free_entries in
      let prod_next = add32 r.prod_head n in
      if ltb free_entries (length obj_table) && (fixed || free_entries == 0)
      then some (rtx_ring_full, none, r)
      else some (
        rte_ring_ok,
        some n,
        record r {
          prod_head = prod_next;
          prod_tail = prod_next;
          objs = place_from size r.objs r.prod_head (take n obj_table);
        },
      )

  unfoldable pub enqueue_mp_bulk :
      ℕ → RteRing T → List T → Bool → Option (Status × Option ℕ × RteRing T)
  enqueue_mp_bulk size r obj_table fixed =
      let mask = size - 1 in
      let free_entries = sub32 (add32 mask r.cons_tail) r.prod_head in
      let n = min (length obj_table) free_entries in
      let prod_next = add32 r.prod_head n in
      let placed = record r {
        prod_head = prod_next;
        objs = place_from size r.objs r.prod_head (take n obj_table);
      } in
      if ltb free_entries (length obj_table) && (fixed || free_entries == 0)
      then some (rtx_ring_full, none, r)
      else (if r.prod_tail == r.prod_head
          then some (rte_ring_ok, some n, record placed { prod_tail = prod_next })
          else none)

  -- The pointer `res_n` is set to 0 here, so that no number is written.
  unfoldable pub dequeue_sc_bulk : ℕ → RteRing T → ℕ → Bool → Option (Status × List T × RteRing T)
  dequeue_sc_bulk size r max_n fixed =
      let entries = sub32 r.prod_tail r.cons_head in
      let n = min max_n entries in
      let cons_next = add32 r.cons_head n in
      if ltb entries max_n && (fixed || entries == 0)
      then some (rtx_ring_not_enough, [], r)
      else some (
        rte_ring_ok,
        take_from size r.objs r.cons_head n,
        record r { cons_head = cons_next; cons_tail = cons_next },
      )

  unfoldable pub dequeue_mc_bulk : ℕ → RteRing T → ℕ → Bool → Option (Status × List T × RteRing T)
  dequeue_mc_bulk size r max_n fixed =
      let entries = sub32 r.prod_tail r.cons_head in
      let n = min max_n entries in
      let cons_next = add32 r.cons_head n in
      let taken = record r { cons_head = cons_next } in
      if ltb entries max_n && (fixed || entries == 0)
      then some (rtx_ring_not_enough, [], r)
      else (if r.cons_tail == r.cons_head
          then some (
            rte_ring_ok,
            take_from size r.objs r.cons_head n,
            record taken { cons_tail = cons_next },
          )
          else none)

  unfoldable pub enqueue_bulk :
      Bool → ℕ → RteRing T → List T → Bool → Option (Status × Option ℕ × RteRing T)
  enqueue_bulk mp size r obj_table fixed =
      if mp then enqueue_mp_bulk size r obj_table fixed else enqueue_sp_bulk size r obj_table fixed

  unfoldable pub dequeue_bulk :
      Bool → ℕ → RteRing T → ℕ → Bool → Option (Status × List T × RteRing T)
  dequeue_bulk mc size r n fixed =
      if mc then dequeue_mc_bulk size r n fixed else dequeue_sc_bulk size r n fixed
