-- ===== src/ThreadPool.antt =====
-- thread_pool.h, class `ThreadPool`: how `execute` chooses a worker, and one worker with the threads
-- that give it tasks and the one that destroys it. A task is a number. A condition variable wakes its
-- waiter at any time, and releases the lock and blocks in one move, as the standard has it.
pub mod Choice
pub mod Steps
pub mod Whole
pub mod Tests
use usable_lib.Prelude.{
  ℕ, zero, suc, ◌+◌, ◌-◌, ◌/◌, ◌%◌, ◌≡◌, ◌⊎◌, Bool, true, false, ◌||◌, List, [], ◌∷◌, ◌++◌, min,
  ltb, if◌then◌else◌, ◌==◌,
}

abbrev pub max_thread_count : ℕ
max_thread_count = 64

-- `add_threads`: the number of workers after it
pub add_threads : ℕ → ℕ → ℕ
add_threads count threads = count + min threads (max_thread_count - count)

-- `ffsll(~bits)` of a word of `n` bits: one more than the place of the lowest bit that is 0, or 0
pub ffs_not : ℕ → ℕ → ℕ
ffs_not zero bits = 0
ffs_not (suc n) bits =
    let rest = ffs_not n (bits / 2) in
    if bits % 2 == 0 then 1 else (if rest == 0 then 0 else rest + 1)

-- `execute`: the worker that it hands the task to, of `count`, when `rng()` gives `random`
pub execute_tid : ℕ → ℕ → ℕ → ℕ
execute_tid count busy_bits random =
    let tid = ffs_not 64 busy_bits in if tid == 0 || ltb count tid then random % count else tid - 1

-- A worker's fields: `mlck` is `locked`, and `asleep` says that it is blocked on `cv`. `busy` is its bit
-- in `busy_bits`; `given` and `started` are the tasks that were put in and taken out, and `ended` says
-- that `routine` has returned.
pub record Worker : Type 0 where
  pub locked : Bool
  pub stop : Bool
  pub tasks : List ℕ
  pub asleep : Bool
  pub busy : Bool
  pub ended : Bool
  pub given : List ℕ
  pub started : List ℕ

pub data Pc : Type 0 where
  at_loop : Pc  -- the worker, before the lock
  looks : Pc  -- has it
  tests : Pc  -- in `cv.wait`, with the lock, before the predicate
  falls_asleep : Pc  -- with the lock, the predicate was false
  blocked : Pc
  woken : Pc  -- without the lock
  awake : Pc  -- past `cv.wait`, with the lock
  fetches : Pc  -- with the lock, and a task to take
  runs : ℕ → Pc
  returned : Pc
  idle : Pc  -- a thread that gives tasks
  wants : ℕ → Pc  -- in `execute_forward`, before the lock
  has_lock : ℕ → Pc
  may_put : ℕ → Pc  -- with the lock, has seen that `stop` is not set
  notifies : Pc
  stops : Pc  -- in `~Worker`, before the lock
  stopping : Pc
  notifies_stop : Pc
  joins : Pc

pub data Move (m : Worker) : Pc → Worker → Pc → Type 0 where
  locks : m.locked ≡ false → Move m at_loop (record m { locked = true }) looks
  finds_task : {t : ℕ} {rest : List ℕ} → m.tasks ≡ t ∷ rest → Move m looks m fetches
  finds_none : m.tasks ≡ [] → Move m looks (record m { busy = false }) tests
  finds_nothing : m.stop ≡ false → m.tasks ≡ [] → Move m tests m falls_asleep
  blocks : Move m falls_asleep (record m { locked = false; asleep = true }) blocked
  passes_stop : m.stop ≡ true → Move m tests m awake
  passes_task : {t : ℕ} {rest : List ℕ} → m.tasks ≡ t ∷ rest → Move m tests m awake
  wakes : Move m blocked (record m { asleep = false }) woken
  relocks : m.locked ≡ false → Move m woken (record m { locked = true }) tests
  returns :
      m.stop ≡ true
      → m.tasks ≡ []
      → Move m awake (record m { locked = false; ended = true }) returned
  marks_running : m.stop ≡ false → Move m awake (record m { busy = true }) fetches
  marks_task :
      {t : ℕ} {rest : List ℕ} → m.tasks ≡ t ∷ rest → Move m awake (record m { busy = true }) fetches
  pops :
      {t : ℕ} {rest : List ℕ}
      → m.tasks ≡ t ∷ rest
      → Move m fetches
          (record m { locked = false; tasks = rest; started = m.started ++ t ∷ [] })
          (runs t)
  finishes : {t : ℕ} → Move m (runs t) m at_loop
  calls : (t : ℕ) → Move m idle m (wants t)
  enters : {t : ℕ} → m.locked ≡ false → Move m (wants t) (record m { locked = true }) (has_lock t)
  throws : {t : ℕ} → m.stop ≡ true → Move m (has_lock t) (record m { locked = false }) idle
  passes_check : {t : ℕ} → m.stop ≡ false → Move m (has_lock t) m (may_put t)
  emplaces :
      {t : ℕ}
      → Move m
          (may_put t)
          (record m { locked = false; tasks = m.tasks ++ t ∷ []; given = m.given ++ t ∷ [] })
          notifies
  notify_one : Move m notifies (record m { asleep = false }) idle
  destroys : Move m idle m stops
  locks_to_stop : m.locked ≡ false → Move m stops (record m { locked = true }) stopping
  sets_stop : Move m stopping (record m { locked = false; stop = true }) notifies_stop
  notify_stop : Move m notifies_stop (record m { asleep = false }) joins
  joined : m.ended ≡ true → Move m joins m idle
