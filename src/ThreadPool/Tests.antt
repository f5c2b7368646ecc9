-- ===== src/ThreadPool/Tests.antt =====
-- A worker that is given one task and destroyed.
use usable_lib.Prelude.{ℕ, ◌≤◌, ◌<◌, ◌≡◌, ◌⊎◌, inl, refl, false, [], arith, if◌then◌else◌, ◌==◌}
use usable_lib.Threads.{System, pick, Reach, here, later}
use usable_lib.ThreadPool.{
  Worker, Pc, at_loop, idle, execute_tid, Move, locks, finds_none, finds_nothing, blocks,
  passes_stop, wakes, relocks, returns, marks_task, passes_task, pops, finishes, calls, enters,
  passes_check, emplaces, notify_one, destroys, locks_to_stop, sets_stop,
}
use usable_lib.ThreadPool.Choice.{bit_at, execute_tid-least}
use usable_lib.ThreadPool.Steps.{will_notify}
use usable_lib.ThreadPool.Whole.{Fresh, ended-started, blocked_notified}

abbrev first_worker : ℕ → Pc
first_worker i = if i == 0 then at_loop else idle

abbrev new_worker : System Worker Pc
new_worker = record {
  mem = record {
    locked = false;
    stop = false;
    tasks = [];
    asleep = false;
    busy = false;
    ended = false;
    given = [];
    started = [];
  };
  pc = first_worker;
}

new_worker-Fresh : Fresh new_worker
new_worker-Fresh = record {
  unlocked = refl;
  running = refl;
  awake_yet = refl;
  not_ended = refl;
  no_tasks = refl;
  none_given = refl;
  none_started = refl;
  worker = refl;
  others = λ i. ground arith;
}

-- The worker waits, and thread 1 has put in task 7.
abbrev waiting : (s : System Worker Pc) × Reach Move 2 new_worker s
waiting = (
  _,
  later
      (later
        (later
          (later
            (later
              (later
                (later (later here (pick 0 (omega arith) (locks refl)))
                  (pick 0 (omega arith) (finds_none refl)))
                (pick 0 (omega arith) (finds_nothing refl refl)))
              (pick 0 (omega arith) blocks))
            (pick 1 (omega arith) (calls 7)))
          (pick 1 (omega arith) (enters refl)))
        (pick 1 (omega arith) (passes_check refl)))
      (pick 1 (omega arith) emplaces),
)

abbrev fetching : (s : System Worker Pc) × Reach Move 2 new_worker s
fetching = (
  _,
  later
      (later
        (later
          (later (later waiting.1 (pick 1 (omega arith) notify_one)) (pick 0 (omega arith) wakes))
          (pick 0 (omega arith) (relocks refl)))
        (pick 0 (omega arith) (passes_task refl)))
      (pick 0 (omega arith) (marks_task refl)),
)

abbrev ended : (s : System Worker Pc) × Reach Move 2 new_worker s
ended = (
  _,
  later
      (later
        (later
          (later
            (later
              (later
                (later
                  (later (later fetching.1 (pick 0 (omega arith) (pops refl)))
                    (pick 0 (omega arith) finishes))
                  (pick 1 (omega arith) destroys))
                (pick 1 (omega arith) (locks_to_stop refl)))
              (pick 1 (omega arith) sets_stop))
            (pick 0 (omega arith) (locks refl)))
          (pick 0 (omega arith) (finds_none refl)))
        (pick 0 (omega arith) (passes_stop refl)))
      (pick 0 (omega arith) (returns refl refl)),
)

blocked_notified_example : (i : ℕ) × (i < 2) × (1 ≤ will_notify (waiting.0.pc i))
blocked_notified_example =
    blocked_notified 2 new_worker waiting.0 (omega arith) new_worker-Fresh waiting.1 refl
      (inl (omega arith))

ended-started_example : ended.0.mem.started ≡ ended.0.mem.given
ended-started_example =
    ended-started 2 new_worker ended.0 (omega arith) new_worker-Fresh ended.1 refl

-- Of 4 workers the first and the third are busy.
execute_tid-least_example :
    (execute_tid 4 5 9 < 4)
    × (((bit_at 5 (execute_tid 4 5 9) ≡ 0) × ((i : ℕ) → i < execute_tid 4 5 9 → bit_at 5 i ≡ 1))
        ⊎ ((i : ℕ) → i < 4 → bit_at 5 i ≡ 1))
execute_tid-least_example = execute_tid-least 4 5 9 (omega arith) (omega arith)
