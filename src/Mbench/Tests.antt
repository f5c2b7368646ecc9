-- ===== src/Mbench/Tests.antt =====
-- The second of two threads for six operations in three phases.
use usable_lib.Prelude.{◌≡◌, List, ok, map, arith}
use usable_lib.Mbench.{Callback, thread_body, thread_ops}
use usable_lib.Mbench.Phases.{ops, phases, reported, thread_body-thread_ops}
use usable_lib.Mbench.Ranges.{range}

thread_body-thread_ops_example :
    (cs : List Callback) × (thread_body 6 3 2 1 1 ≡ ok (cs, 2))
    × (ops cs ≡ thread_ops 1 3 0 3)
    × (phases cs ≡ map (reported 2) (range 2 1))
thread_body-thread_ops_example = thread_body-thread_ops 6 3 2 1 1 (omega arith) (omega arith)
