-- ===== src/ConQueue/Tests.antt =====
-- `ConQueue` on small inputs, and its theorems at them.
use usable_lib.Prelude.{ℕ, ◌-◌, ◌^◌, ◌≡◌, refl, true, none, some, List, [], ◌∷◌, arith}
use usable_lib.ConQueue.{ConQueue, aligned_size, to_id, emplace, pop}
use usable_lib.ConQueue.Represents.{SameSetup, Geometry, Represents}
use usable_lib.ConQueue.Calls.{emplace-push, pop-pop}
use usable_lib.ConQueue.Bulk.{push_bulk, pop_bulk, pop_count}
use usable_lib.ConQueue.Bulk.Pushes.{push_bulk-push_bulk}
use usable_lib.ConQueue.Bulk.Pops.{pop_bulk-pop_bulk}
use usable_lib.ConQueue.Init.{to_id-mask}
use usable_lib.ConQueue.Session.{
  Call, push, push_many, pop_one, pop_many, ask_size, reset, perform_all, ideal_all,
  perform_all-ideal_all,
}

-- A queue of three over four cells, in the default modes, whose positions have wrapped: it holds 8
-- in the last cell and 9 in the first.
abbrev wrapped : ConQueue ℕ
wrapped = record {
  ring = some 9 ∷ none ∷ none ∷ some 8 ∷ [];
  self_alloc = true;
  flags = 96;
  count_mask = 3;
  max_size = 3;
  prod_head = record { pos = 1; cnt = 7 };
  prod_tail = record { pos = 1; cnt = 0 };
  cons_head = record { pos = 2 ^ 32 - 1; cnt = 5 };
  cons_tail = record { pos = 2 ^ 32 - 1; cnt = 0 };
}

-- One object in a queue with a single producer and a single consumer.
abbrev single : ConQueue ℕ
single = record wrapped {
  flags = 3;
  ring = some 4 ∷ some 5 ∷ none ∷ none ∷ [];
  prod_tail = record { pos = 1; cnt = 0 };
  cons_tail = record { pos = 0; cnt = 0 };
}

abbrev script : List (Call ℕ)
script =
    push 1
    ∷ push 2
    ∷ ask_size
    ∷ pop_many 2
    ∷ push_many (3 ∷ 4 ∷ 5 ∷ [])
    ∷ pop_one
    ∷ reset
    ∷ pop_one
    ∷ []

wrapped-Geometry : Geometry wrapped
wrapped-Geometry = record {
  capacity_pos = omega arith;
  capacity_lt = omega arith;
  room = omega arith;
  memory = omega arith;
  round = refl;
  indexed = λ i. to_id-mask 96 3 2 i refl refl;
}

wrapped-Represents : Represents wrapped (8 ∷ 9 ∷ [])
wrapped-Represents = record {
  geometry = wrapped-Geometry;
  from_lt = omega arith;
  until = refl;
  fits = omega arith;
  cells = (refl, (refl, tt));
  producers = refl;
  consumers = refl;
}

emplace-push_example :
    (q : ConQueue ℕ) × (emplace 0 wrapped 1 ≡ some (true, q))
    × SameSetup wrapped q
    × Represents q (8 ∷ 9 ∷ 1 ∷ [])
emplace-push_example = emplace-push 0 1 wrapped-Represents

pop-pop_example :
    (q : ConQueue ℕ) × (pop 0 wrapped ≡ some (some 8, q))
    × SameSetup wrapped q
    × Represents q (9 ∷ [])
pop-pop_example = pop-pop 0 (8 ∷ 9 ∷ []) wrapped-Represents

push_bulk-push_bulk_example :
    (q : ConQueue ℕ) × (push_bulk 0 wrapped (1 ∷ 2 ∷ []) ≡ some (1, q))
    × SameSetup wrapped q
    × Represents q (8 ∷ 9 ∷ 1 ∷ [])
push_bulk-push_bulk_example = push_bulk-push_bulk 0 wrapped-Represents (1 ∷ 2 ∷ []) (omega arith)

pop_bulk-pop_bulk_example :
    (q : ConQueue ℕ) × (pop_bulk 0 wrapped 5 ≡ some (8 ∷ 9 ∷ [], q))
    × SameSetup wrapped q
    × Represents q []
pop_bulk-pop_bulk_example = pop_bulk-pop_bulk 0 wrapped-Represents 5 (omega arith) refl

-- Two objects are taken where one is held.
abbrev overrun : ConQueue ℕ
overrun = record single {
  ring = none ∷ none ∷ none ∷ none ∷ [];
  cons_tail = record { pos = 2; cnt = 0 };
}

pop_bulk_overruns : pop_bulk 0 single 2 ≡ some (4 ∷ 5 ∷ [], overrun)
unfolding pop_bulk pop_count to_id
pop_bulk_overruns = refl

aligned_size_runs : (aligned_size 5 96 ≡ 8) × (aligned_size 8 96 ≡ 8) × (aligned_size 5 4 ≡ 6)
unfolding aligned_size
aligned_size_runs = (refl, refl, refl)

perform_all-ideal_all_example :
    (q : ConQueue ℕ) × (perform_all 0 wrapped script
      ≡ some ((ideal_all 3 (8 ∷ 9 ∷ []) script).0, q))
    × Represents q (ideal_all 3 (8 ∷ 9 ∷ []) script).1
perform_all-ideal_all_example =
    perform_all-ideal_all 0 script wrapped-Represents
      (tt, (tt, (tt, ((omega arith, refl), (omega arith, (tt, (tt, (tt, tt))))))))
