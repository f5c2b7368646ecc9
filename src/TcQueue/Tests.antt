-- ===== src/TcQueue/Tests.antt =====
-- Runs of `task_enqueue` and of `process_batch` on small inputs.
use usable_lib.Prelude.{ℕ, ◌<◌, ◌≡◌, ◌≢◌, refl, false, none, some, List, [], ◌∷◌, arith, length}
use usable_lib.Threads.{System, pick, Reach, here, later}
use usable_lib.TcQueue.{
  Shared, Pc, Move, idle, set_slot, calls, try_lock_wins, try_lock_fails, resets, readies,
  announces, writes, confirms, closes, locks, unlocks, takes, sees_valid, enters, checks,
  finds_place,
}
use usable_lib.TcQueue.Slots.{Full}
use usable_lib.TcQueue.Whole.{Fresh, leaves-Full, placed_alone}
use usable_lib.TcQueue.Counts.{owes}
use usable_lib.TcQueue.Batch.{process_batch, new_leader, map_uids, insert}
use usable_lib.TcQueue.Promises.{process_batch-gives, Answers, Keys, index_of}
use usable_lib.Prelude.Maps.{find, Once}

abbrev fresh : System Shared Pc
fresh = record {
  mem = record {
    en_lck = false;
    readers = 0;
    writer = false;
    queue_valid = false;
    queue_ver = 0;
    queue_cnt = 0;
    queue_try_cnt = 0;
    queue = λ k. none;
  };
  pc = λ i. idle;
}

fresh-Fresh : Fresh fresh
fresh-Fresh = record {
  unlocked = refl;
  unread = refl;
  unwritten = refl;
  closed = refl;
  all_idle = λ i. refl;
}

-- Thread 0 opens the queue for its task 7.
abbrev leading : (s : System Shared Pc) × Reach (Move 2) 2 fresh s
leading = (
  _,
  later
      (later
        (later
          (later (later here (pick 0 (omega arith) (calls 7)))
            (pick 0 (omega arith) (try_lock_wins refl)))
          (pick 0 (omega arith) resets))
        (pick 0 (omega arith) readies))
      (pick 0 (omega arith) announces),
)

abbrev following : (s : System Shared Pc) × Reach (Move 2) 2 fresh s
following = (
  _,
  later
      (later
        (later
          (later
            (later (later leading.1 (pick 1 (omega arith) (calls 9)))
              (pick 1 (omega arith) (try_lock_fails refl)))
            (pick 1 (omega arith) (sees_valid refl)))
          (pick 1 (omega arith) (enters refl)))
        (pick 1 (omega arith) (checks refl)))
      (pick 1 (omega arith) (finds_place (omega arith))),
)

abbrev taking : (s : System Shared Pc) × Reach (Move 2) 2 fresh s
taking = (
  _,
  later
      (later
        (later
          (later
            (later (later leading.1 (pick 0 (omega arith) writes)) (pick 0 (omega arith) confirms))
            (pick 0 (omega arith) closes))
          (pick 0 (omega arith) (locks refl refl)))
        (pick 0 (omega arith) unlocks))
      (pick 0 (omega arith) takes),
)

leaves-Full_example : Full 2 1 (set_slot (λ k. none) 0 7)
leaves-Full_example =
    leaves-Full 2 2 fresh taking.0 0 1 (set_slot (λ k. none) 0 7) (omega arith) (omega arith)
      (omega arith) fresh-Fresh taking.1 refl

placed_alone_example :
    (1 < 2)
    × (following.0.mem.queue 1 ≡ none)
    × ((j : ℕ) → j < 2 → owes 1 (following.0.pc j) ≡ 1 → j ≡ 1)
placed_alone_example =
    placed_alone 2 2 fresh following.0 1 9 1 (omega arith) (omega arith) (omega arith) fresh-Fresh
      following.1 (omega arith) refl

abbrev hook : ℕ → List (ℕ × ℕ)
hook need_len = (9, 90) ∷ (7, 70) ∷ []

abbrev two_uids : List ℕ
two_uids = 7 ∷ 9 ∷ []

two_uids-Answers : Answers two_uids (hook 2)
unfolding Once Keys find index_of
two_uids-Answers = record { once = (refl, (refl, tt)); known = ((1, refl), ((0, refl), tt)) }

two_uids_asked : length (hook 2) ≡ length (map_uids two_uids 0 [])
unfolding map_uids insert find
two_uids_asked = refl

process_batch-gives_example :
    ((process_batch hook (new_leader two_uids)).1 ≡ none)
    × ((u k : ℕ)
        → index_of two_uids 0 u ≡ some k
        → (process_batch hook (new_leader two_uids)).0.pro_queue k ≡ find (hook 2) u)
    × ((k : ℕ)
        → ((u : ℕ) → index_of two_uids 0 u ≢ some k)
        → (process_batch hook (new_leader two_uids)).0.pro_queue k ≡ none)
process_batch-gives_example =
    process_batch-gives hook two_uids (hook 2) refl two_uids_asked two_uids-Answers
