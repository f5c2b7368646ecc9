-- ===== src/Mbench.antt =====
-- mbench.h, class `mbench_base`: which operations `run_test_task` gives to its threads. The clock, the
-- barrier and the callbacks are the environment's.
pub mod Ranges
pub mod Phases
pub mod Tests
use usable_lib.Prelude.{
  ℕ, zero, suc, ◌+◌, ◌*◌, ◌/◌, ◌%◌, ◌^◌, Bool, List, [], ◌∷◌, ◌++◌, Result, ok, throw,
  if◌then◌else◌, ◌==◌,
}

pub data Failure : Type 0 where
  need_multiple : Failure  -- "need iteration % thread_cnt == 0"
  division_by_zero : Failure

-- the numbers that a thread calls `test_thread_op` with: `count` of them from `thread_iter` on
unfoldable pub thread_ops : ℕ → ℕ → ℕ → ℕ → List ℕ
thread_ops thread_id per_thread thread_iter zero = []
thread_ops thread_id per_thread thread_iter (suc count) =
    (thread_id * per_thread + thread_iter) % 2 ^ 32
    ∷ thread_ops thread_id per_thread (thread_iter + 1) count

-- the threads of one entry of `thread_count`, from `thread_id` on
unfoldable pub group_ops : ℕ → ℕ → ℕ → List ℕ
group_ops per_thread thread_id zero = []
group_ops per_thread thread_id (suc n) =
    thread_ops thread_id per_thread 0 per_thread ++ group_ops per_thread (thread_id + 1) n

abbrev pub after : List ℕ → Result Failure (List ℕ) → Result Failure (List ℕ)
after ops (ok rest) = ok (ops ++ rest)
after ops (throw e) = throw e

-- The operations of all threads, one thread after the other.
unfoldable pub run_test_task : List ℕ → ℕ → ℕ → Result Failure (List ℕ)
run_test_task [] thread_id iteration = ok []
run_test_task (n ∷ thread_count) thread_id iteration =
    let rest = run_test_task thread_count (thread_id + n) iteration in
    if n == 0
    then throw division_by_zero
    else (if iteration % n == 0
        then after (group_ops (iteration / n) thread_id n) rest
        else throw need_multiple)

-- the callbacks of a thread
pub data Callback : Type 0 where
  op : ℕ → Callback
  phase : ℕ → Callback

abbrev pub before :
    List Callback → Result Failure (List Callback × ℕ) → Result Failure (List Callback × ℕ)
before cs (ok (rest, output_time)) = ok (cs ++ rest, output_time)
before cs (throw e) = throw e

-- The loop of a thread with `count` rounds to go, alone: its callbacks, and `output_time` after it.
unfoldable pub thread_loop : ℕ → ℕ → ℕ → ℕ → ℕ → ℕ → Result Failure (List Callback × ℕ)
thread_loop output_internal thread_id per_thread thread_iter output_time zero = ok ([], output_time)
thread_loop output_internal thread_id per_thread thread_iter output_time (suc count) =
    let n = (thread_id * per_thread + thread_iter) % 2 ^ 32 in
    let oiter = (output_time + 1) * output_internal % 2 ^ 32 in
    let silent =
      thread_loop output_internal thread_id per_thread (thread_iter + 1) output_time count in
    let reported =
      thread_loop output_internal thread_id per_thread (thread_iter + 1) (output_time + 1) count in
    if output_internal == 0
    then throw division_by_zero
    else (if (thread_iter + 1) % output_internal == 0
        then before (op n ∷ phase oiter ∷ []) reported
        else before (op n ∷ []) silent)

-- a thread of a group of `n`
unfoldable pub thread_body : ℕ → ℕ → ℕ → ℕ → ℕ → Result Failure (List Callback × ℕ)
thread_body iteration output_internal_time n thread_id output_time =
    let per_thread = iteration / n in
    let looped =
      thread_loop (iteration / output_internal_time) thread_id per_thread 0 output_time
        per_thread in
    if output_internal_time == 0 then throw division_by_zero else looped
