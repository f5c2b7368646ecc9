-- ===== src/Mutex/Tests.antt =====
-- Runs of a few threads on the locks of extend_mutex.h.
use usable_lib.Prelude.{ℕ, ◌<◌, ◌≡◌, ◌⊎◌, inl, refl, arith}
use usable_lib.Threads.{System, pick, Reach, here, later}
use usable_lib.Mutex.Shared
use usable_lib.Mutex.Shared.Exclusion.{writer_alone}
use usable_lib.Mutex.Spin
use usable_lib.Mutex.Spin.Exclusion.{holder_alone}
use usable_lib.Mutex.Intention
use usable_lib.Mutex.Intention.Exclusion.{promoted_alone}
use usable_lib.Mutex.Ticket
use usable_lib.Mutex.Ticket.Serving.{ticket_holder_alone, someone_is_served}

-- A reader comes and goes, a second thread fails meanwhile, and the third writes.
abbrev shared_run :
    (s : System ℕ Shared.Pc) × Reach (Shared.Move 8) 3 Shared.Exclusion.start s
    × (s.pc 2 ≡ Shared.writing)
shared_run = (
  _,
  later
      (later
        (later (later here (pick 0 (omega arith) (Shared.lock_shared_enters refl)))
          (pick 1 (omega arith) Shared.try_lock_fails))
        (pick 0 (omega arith) Shared.unlock_shared))
      (pick 2 (omega arith) (Shared.try_lock_wins refl)),
  refl,
)

writer_alone_example : ◌≡◌ {A = ℕ} 2 2
writer_alone_example =
    writer_alone 8 3 (omega arith) shared_run.1 2 2 (omega arith) (omega arith) shared_run.2
      (inl shared_run.2)

-- a word of 3 bits and 5 threads
-- Two threads load a free bit 3 and race for it; a third one has bit 5.
abbrev spin_run :
    (s : System ℕ Spin.Pc) × Reach (Spin.Move 8) 3 Spin.Exclusion.start s
    × (s.pc 1 ≡ Spin.holding 3)
spin_run = (
  _,
  later
      (later
        (later
          (later
            (later (later here (pick 0 (omega arith) (Spin.sees_free 3 (omega arith) refl)))
              (pick 1 (omega arith) (Spin.sees_free 3 (omega arith) refl)))
            (pick 2 (omega arith) (Spin.sees_free 5 (omega arith) refl)))
          (pick 2 (omega arith) (Spin.or_wins refl)))
        (pick 1 (omega arith) (Spin.or_wins refl)))
      (pick 0 (omega arith) (Spin.or_loses refl)),
  refl,
)

holder_alone_example : ◌≡◌ {A = ℕ} 1 1
holder_alone_example =
    holder_alone 8 3 spin_run.1 1 1 3 (omega arith) (omega arith) spin_run.2 spin_run.2

-- Two threads share the lock, both ask to be promoted, one leaves and the other is.
abbrev intention_run :
    (s : System ℕ Intention.Pc) × Reach (Intention.Move 8) 2 Intention.Exclusion.start s
    × (s.pc 1 ≡ Intention.exclusive)
intention_run = (
  _,
  later
      (later
        (later
          (later
            (later
              (later
                (later
                  (later (later here (pick 0 (omega arith) Intention.loads))
                    (pick 0 (omega arith) (Intention.swap_wins refl refl)))
                  (pick 1 (omega arith) Intention.loads))
                (pick 1 (omega arith) (Intention.swap_wins refl refl)))
              (pick 1 (omega arith) (Intention.prompt_starts refl)))
            (pick 0 (omega arith) (Intention.prompt_fails refl)))
          (pick 1 (omega arith) Intention.prompt_leaves))
        (pick 0 (omega arith) Intention.unlock_shared))
      (pick 1 (omega arith) (Intention.drain_ends refl)),
  refl,
)

promoted_alone_example : ◌≡◌ {A = ℕ} 1 1
promoted_alone_example =
    promoted_alone 8 2 (omega arith) intention_run.1 1 1 (omega arith) (omega arith) intention_run.2
      (inl refl)

-- Thread 0 has the lock by `try_lock`, threads 1 and 2 wait, and thread 0 unlocks.
abbrev ticket_run :
    (s : System Ticket.Word Ticket.Pc) × Reach Ticket.Move 3 Ticket.Serving.start s
    × (s.pc 1 ≡ Ticket.holds 1)
    × (s.pc 2 ≡ Ticket.waits 2)
ticket_run = (
  _,
  later
      (later
        (later
          (later
            (later
              (later (later here (pick 0 (omega arith) (Ticket.try_sees_free refl)))
                (pick 0 (omega arith) (Ticket.swap_wins refl refl)))
              (pick 1 (omega arith) Ticket.takes))
            (pick 2 (omega arith) Ticket.takes))
          (pick 2 (omega arith) (Ticket.turn_not_yet (λ e. absurd (omega arith)))))
        (pick 0 (omega arith) Ticket.unlock))
      (pick 1 (omega arith) (Ticket.turn_comes refl)),
  refl,
  refl,
)

ticket_holder_alone_example : (◌≡◌ {A = ℕ} 1 1) × (1 ≡ ticket_run.0.mem.l)
ticket_holder_alone_example =
    ticket_holder_alone 3 (omega arith) ticket_run.1 1 1 1 1 (omega arith) (omega arith)
      ticket_run.2 ticket_run.2

someone_is_served_example :
    (j : ℕ) × (j < 3)
    × ((ticket_run.0.pc j ≡ Ticket.holds ticket_run.0.mem.l)
        ⊎ (ticket_run.0.pc j ≡ Ticket.waits ticket_run.0.mem.l))
someone_is_served_example =
    someone_is_served 3 (omega arith) ticket_run.1 2 2 (omega arith) ticket_run.3
