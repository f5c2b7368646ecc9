-- ===== src/RteRing/Tests.antt =====
-- A ring of 8 cells at position 7, after a lap that left the object 1 in cell 0.
use usable_lib.Prelude.{ℕ, ◌+◌, ◌≡◌, refl, true, false, some, [], ◌∷◌, ◌>>=◌, arith}
use usable_lib.RteRing.{RteRing, rte_ring_ok, enqueue, dequeue, enqueue_bulk, dequeue_bulk}
use usable_lib.RteRing.Singles.{accepted, as_list, enqueue_bulk-dequeue_bulk}
use usable_lib.RteRing.Laps.{EmptyAt, dequeue-enqueue}

abbrev left : ℕ → ℕ
left i = i + 1

abbrev ring : RteRing ℕ
ring = record { prod_head = 7; prod_tail = 7; cons_head = 7; cons_tail = 7; objs = left }

ring-EmptyAt : EmptyAt ring 7
ring-EmptyAt = record { producers = refl; produced = refl; consumers = refl; consumed = refl }

dequeue-enqueue_example :
    (r₁ r₂ : RteRing ℕ) × (enqueue true 8 ring 9 ≡ some (rte_ring_ok, r₁))
    × (dequeue false 8 r₁ ≡ some (rte_ring_ok, some 1, r₂))
    × EmptyAt r₂ 8
dequeue-enqueue_example =
    dequeue-enqueue true false 8 7 ring 9 (omega arith) (omega arith) (omega arith) ring-EmptyAt

enqueue_bulk-dequeue_bulk_example :
    (enqueue_bulk true 8 ring (9 ∷ []) true ≡ (enqueue true 8 ring 9 >>= λ a. some (accepted a)))
    × (dequeue_bulk false 8 ring 1 true
        ≡ (dequeue false 8 ring >>= λ a. some (a.0, as_list a.1, a.2)))
enqueue_bulk-dequeue_bulk_example = enqueue_bulk-dequeue_bulk true false 8 ring 9 true
