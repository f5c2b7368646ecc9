-- ===== src/RteRing/Singles.antt =====
-- The calls for several objects, with one.
use usable_lib.Prelude.{ℕ, ◌≡◌, Bool, true, false, Option, none, some, List, [], ◌∷◌, arith, ◌>>=◌}
use usable_lib.RteRing.{
  RteRing, Status, rte_ring_ok, rtx_ring_full, rtx_ring_not_enough, enqueue, enqueue_sp, enqueue_mp,
  dequeue, dequeue_sc, dequeue_mc, place_from, take_from, enqueue_bulk, enqueue_sp_bulk,
  enqueue_mp_bulk, dequeue_bulk, dequeue_sc_bulk, dequeue_mc_bulk,
}

module _ {T : Type 0} where
  -- what is put in by a call for one object
  abbrev pub accepted : Status × RteRing T → Status × Option ℕ × RteRing T
  accepted (rte_ring_ok, r) = (rte_ring_ok, some 1, r)
  accepted (rtx_ring_full, r) = (rtx_ring_full, none, r)
  accepted (rtx_ring_not_enough, r) = (rtx_ring_not_enough, none, r)

  pub enqueue_bulk-enqueue :
      (mp : Bool) (size : ℕ) (r : RteRing T) (obj : T) (fixed : Bool)
      → enqueue_bulk mp size r (obj ∷ []) fixed ≡ (enqueue mp size r obj >>= λ a. some (accepted a))
  unfolding enqueue_bulk enqueue_mp_bulk enqueue_sp_bulk enqueue enqueue_mp enqueue_sp place_from
  enqueue_bulk-enqueue true size r obj fixed = ground arith
  enqueue_bulk-enqueue false size r obj fixed = ground arith

  abbrev pub as_list : Option T → List T
  as_list none = []
  as_list (some x) = x ∷ []

  -- In every mode, a call for several objects does with one object what the call for one does: it puts it in
  -- and counts 1 or is refused, and it takes the same one out, whether the number is fixed or not.
  pub enqueue_bulk-dequeue_bulk :
      (mp mc : Bool) (size : ℕ) (r : RteRing T) (obj : T) (fixed : Bool)
      → (enqueue_bulk mp size r (obj ∷ []) fixed
          ≡ (enqueue mp size r obj >>= λ a. some (accepted a)))
        × (dequeue_bulk mc size r 1 fixed
            ≡ (dequeue mc size r >>= λ a. some (a.0, as_list a.1, a.2)))
  unfolding dequeue_bulk dequeue_mc_bulk dequeue_sc_bulk dequeue dequeue_mc dequeue_sc take_from
  enqueue_bulk-dequeue_bulk mp true size r obj fixed =
      (enqueue_bulk-enqueue mp size r obj fixed, ground arith)
  enqueue_bulk-dequeue_bulk mp false size r obj fixed =
      (enqueue_bulk-enqueue mp size r obj fixed, ground arith)
