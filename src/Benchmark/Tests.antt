-- ===== src/Benchmark/Tests.antt =====
-- Runs of the benchmark.
use mathlib.Core.List.{Perm}
use mathlib.Core.List.Perm as PermLaws
use usable_lib.Prelude.{
  ℕ, has_bit, ◌+◌, ◌≤◌, ◌≡◌, ◌^◌, refl, subst, sym, true, false, Option, none, some, List, [], ◌∷◌,
  ◌++◌, ◌%◌, append-nil, length, replicate, length-replicate, ok, arith,
}
use usable_lib.ConQueue.Flags.{exact_sz}
use usable_lib.ConQueue.{ConQueue, aligned_size}
use usable_lib.ConQueue.Alloc.{init_alloc-Represents}
use usable_lib.ConQueue.Represents as ConRepresents
use usable_lib.ConQueue.Init as ConInit
use usable_lib.ClQueue.{Line, ClQueue}
use usable_lib.ClQueue.Represents as ClRepresents
use usable_lib.ClQueue.Init as ClInit
use usable_lib.Mbench.{run_test_task}
use usable_lib.Mbench.Ranges.{range}
use usable_lib.Benchmark.{
  iterations, conq_flag_get, upper_power_of_2, test_over, Bench, Attempt, enqueues, dequeues,
  test_thread_ops, Run,
}
use usable_lib.Benchmark.Modes.{queues_built}
use usable_lib.Benchmark.Runs.{put_in, concat, run_test_task-test_over}
use usable_lib.Benchmark.Delivery.{Delivered, Within, test_thread_ops-Delivered}

abbrev cells : ℕ → List (Option ℕ)
cells n = replicate n none

abbrev lines : ℕ → Line ℕ
lines l = record { hf1 = 0; tf1 = 0; hf2 = 0; tf2 = 0; slots = λ j. none }

queues_built_example :
    ((q : ConQueue ℕ) × (ConInit.init_alloc cells
          (upper_power_of_2 iterations)
          (conq_flag_get 2 4 1)
        ≡ ok q)
      × ConRepresents.Represents q []
      × (q.max_size ≡ 2 ^ 20))
    × ((q : ClQueue ℕ) × (ClInit.init 14 false true lines 0 0
            (upper_power_of_2 iterations)
            (conq_flag_get 2 4 1)
          ≡ some (ok q))
        × ClRepresents.Represents 14 false q []
        × (2 ^ 20 ≤ q.max_size))
queues_built_example =
    queues_built 2 4 1 14 cells lines 0 0
      (λ n. omega (arith, length-replicate {A = Option ℕ} n none)) (omega arith) (omega arith)

all_of_one : Perm (concat (put_in 4 ∷ [])) (put_in 4)
unfolding concat
all_of_one =
    subst (λ xs. Perm xs (put_in 4)) (sym (append-nil (put_in 4))) (PermLaws.refl (put_in 4))

run_test_task-test_over_example :
    (take_out : List ℕ) × (run_test_task (4 ∷ 1 ∷ []) 0 iterations ≡ ok (put_in 4 ++ take_out))
    × (length take_out ≡ iterations)
    × (put_in 4 ≡ range 0 iterations)
    × (test_over (put_in 4 ∷ []) ≡ true)
run_test_task-test_over_example =
    run_test_task-test_over 2 0 4 1 (put_in 4 ∷ []) refl refl all_of_one

abbrev fast : Run → ℕ → ℕ → List ℕ
fast run p c = 57 ∷ []

-- one digit for each number
abbrev digit : ℕ → List ℕ
digit n = (48 + n % 10) ∷ []

fine : ConInit.check_flags (conq_flag_get 1 1 0) ≡ none
unfolding ConInit.check_flags conq_flag_get
fine = refl

loose : has_bit (conq_flag_get 1 1 0) exact_sz ≡ false
unfolding conq_flag_get
loose = refl

enough :
    aligned_size 4 (conq_flag_get 1 1 0) ≤ length (cells (aligned_size 4 (conq_flag_get 1 1 0)))
enough = omega (arith, length-replicate {A = Option ℕ} (aligned_size 4 (conq_flag_get 1 1 0)) none)

-- a queue of four for one producer and one consumer
abbrev small :
    (q : ConQueue ℕ) × (ConInit.init_alloc cells 4 (conq_flag_get 1 1 0) ≡ ok q)
    × ConRepresents.Represents q []
    × (q.max_size ≡ 4)
small =
    init_alloc-Represents cells 4 (conq_flag_get 1 1 0) (omega arith) (omega arith) fine loose
      enough

abbrev before_it : Bench
before_it = record { queue = small.0; put = []; taken = [] ∷ [] ∷ [] }

before_it-Delivered : Delivered before_it 2 []
unfolding concat
before_it-Delivered = record { held = small.2; all_threads = refl; each_once = PermLaws.refl [] }

abbrev mixed : List Attempt
mixed = dequeues 1 ∷ enqueues 7 ∷ enqueues 8 ∷ dequeues 1 ∷ []

mixed-Within : Within 2 mixed
unfolding Within
mixed-Within = ground arith

test_thread_ops-Delivered_example :
    (b' : Bench) × (test_thread_ops 0 before_it mixed ≡ some b') × (ys : List ℕ) × Delivered b' 2 ys
test_thread_ops-Delivered_example =
    test_thread_ops-Delivered 0 2 before_it mixed [] before_it-Delivered mixed-Within
