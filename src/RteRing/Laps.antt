-- ===== src/RteRing/Laps.antt =====
-- What an object meets when it is put into an empty ring and taken out.
use usable_lib.Prelude.{
  ℕ, ◌-◌, ◌%◌, ◌^◌, ◌≤◌, ◌<◌, ◌≡◌, ◌∙◌, refl, Bool, true, false, some, arith, add32, sub32,
  if◌then◌else◌, ◌==◌,
}
use usable_lib.RteRing.{
  RteRing, rte_ring_ok, store, enqueue_sp, enqueue_mp, dequeue_sc, dequeue_mc, enqueue, dequeue,
}
use native.Mathlib.Nat.{mod-eq_of_lt, mod_self}

free_one :
    (size p : ℕ)
    → 2 ≤ size
    → size ≤ 2 ^ 31
    → p < 2 ^ 32
    → (sub32 (add32 (size - 1) p) p == 0) ≡ false
free_one size p two small h = ground arith

one_entry : (p : ℕ) → p < 2 ^ 32 → (sub32 (add32 p 1) p == 0) ≡ false
one_entry p h = ground arith

module _ {T : Type 0} where
  -- an empty ring on which no call is going on, at position `p`
  pub record EmptyAt (r : RteRing T) (p : ℕ) : Type 0 where
    pub producers : r.prod_head ≡ p
    pub produced : r.prod_tail ≡ p
    pub consumers : r.cons_head ≡ p
    pub consumed : r.cons_tail ≡ p

  -- the ring with one object behind `p`
  abbrev pub with_one : ℕ → RteRing T → ℕ → T → RteRing T
  with_one size r p obj = record r {
    prod_head = add32 p 1;
    prod_tail = add32 p 1;
    objs = store r.objs (p % size) obj;
  }

  enqueued :
      (mp : Bool) (size p : ℕ) (r : RteRing T) (obj : T)
      → 2 ≤ size
      → size ≤ 2 ^ 31
      → p < 2 ^ 32
      → EmptyAt r p
      → enqueue mp size r obj ≡ some (rte_ring_ok, with_one size r p obj)
  unfolding enqueue enqueue_sp enqueue_mp
  enqueued true size p r obj two small h e =
      let free = free_one size p two small h in
      rw (e.producers, e.consumed, e.produced, free) (ground arith)
  enqueued false size p r obj two small h e =
      let free = free_one size p two small h in rw (e.producers, e.consumed, free) (ground arith)

  -- the ring after that
  abbrev pub passed : ℕ → RteRing T → ℕ → T → RteRing T
  passed size r p obj = record (with_one size r p obj) {
    cons_head = add32 p 1;
    cons_tail = add32 p 1;
  }

  dequeued :
      (mc : Bool) (size p : ℕ) (r : RteRing T) (obj : T)
      → p < 2 ^ 32
      → EmptyAt r p
      → dequeue mc size (with_one size r p obj)
        ≡ some
            (rte_ring_ok, some (store r.objs (p % size) obj (p % (size - 1))), passed size r p obj)
  unfolding dequeue dequeue_sc dequeue_mc
  dequeued true size p r obj h e =
      let some_entry = one_entry p h in rw (e.consumers, e.consumed, some_entry) (ground arith)
  dequeued false size p r obj h e =
      let some_entry = one_entry p h in rw (e.consumers, some_entry) (ground arith)

  -- In every mode, on an empty ring at any position with no other call going on, `enqueue` succeeds and then
  -- `dequeue` does, and the ring is empty again one position on. What `dequeue` gives is the object only
  -- when the remainders of the position by the size and by the size less 1 agree, as below the size less
  -- 1; otherwise it gives what is in another cell.
  pub dequeue-enqueue :
      (mp mc : Bool) (size p : ℕ) (r : RteRing T) (obj : T)
      → 2 ≤ size
      → size ≤ 2 ^ 31
      → p < 2 ^ 32
      → EmptyAt r p
      → (r₁ r₂ : RteRing T) × (enqueue mp size r obj ≡ some (rte_ring_ok, r₁))
        × (dequeue mc size r₁
            ≡ some (
              rte_ring_ok,
              some (if p % size == p % (size - 1) then obj else r.objs (p % (size - 1))),
              r₂,
            ))
        × EmptyAt r₂ (add32 p 1)
  dequeue-enqueue mp mc size p r obj two small h e = (
    with_one size r p obj,
    passed size r p obj,
    enqueued mp size p r obj two small h e,
    dequeued mc size p r obj h e,
    record { producers = refl; produced = refl; consumers = refl; consumed = refl },
  )

  -- The first lap ends with an object that is lost: at position `size - 1` of a ring of 2 cells or more,
  -- `dequeue` gives what is in cell 0 in place of the object that `enqueue` has put in.
  pub dequeue_last_cell :
      (mp mc : Bool) (size : ℕ) (r : RteRing T) (obj : T)
      → 2 ≤ size
      → size ≤ 2 ^ 31
      → EmptyAt r (size - 1)
      → (r₁ r₂ : RteRing T) × (enqueue mp size r obj ≡ some (rte_ring_ok, r₁))
        × (dequeue mc size r₁ ≡ some (rte_ring_ok, some (r.objs 0), r₂))
        × EmptyAt r₂ (add32 (size - 1) 1)
  dequeue_last_cell mp mc size r obj two small e =
      let (r₁, r₂, put, got, empty) =
        dequeue-enqueue mp mc size (size - 1) r obj two small (omega arith) e in
      let written : (size - 1) % size ≡ size - 1 = mod-eq_of_lt (omega arith) in
      let read : (size - 1) % (size - 1) ≡ 0 = mod_self (size - 1) in
      let apart : (size - 1 == 0) ≡ false = ground arith in
      (r₁, r₂, put, got ∙ rw (written, read, apart) refl, empty)
