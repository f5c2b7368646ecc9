-- ===== src/ThreadPool/Steps.antt =====
-- What each move of a worker and its clients keeps.
use usable_lib.Prelude.{
  ℕ, ◌+◌, ◌≤◌, ◌<◌, ◌≡◌, ◌⊎◌, sym, true, false, [], ◌∷◌, ◌++◌, length, length-append, append_assoc,
  arith, bit,
}
use usable_lib.ThreadPool.{
  Worker, Pc, at_loop, looks, tests, falls_asleep, blocked, woken, awake, fetches, runs, has_lock,
  may_put, notifies, stopping, notifies_stop, Move, locks, finds_task, finds_none, finds_nothing,
  blocks, passes_stop, passes_task, wakes, relocks, returns, marks_running, marks_task, pops,
  finishes, calls, enters, throws, passes_check, emplaces, notify_one, destroys, locks_to_stop,
  sets_stop, notify_stop, joined,
}
use usable_lib.Threads.{tally, tally-update, update}

-- the threads with the lock
abbrev pub holds : Pc → ℕ
holds looks = 1
holds tests = 1
holds awake = 1
holds fetches = 1
holds (has_lock _) = 1
holds (may_put _) = 1
holds falls_asleep = 1
holds stopping = 1
holds _ = 0

-- the threads in `routine`
abbrev pub works : Pc → ℕ
works at_loop = 1
works looks = 1
works tests = 1
works falls_asleep = 1
works blocked = 1
works woken = 1
works awake = 1
works fetches = 1
works (runs _) = 1
works _ = 0

abbrev pub is_blocked : Pc → ℕ
is_blocked blocked = 1
is_blocked _ = 0

abbrev pub is_awake : Pc → ℕ
is_awake awake = 1
is_awake _ = 0

abbrev pub is_fetching : Pc → ℕ
is_fetching fetches = 1
is_fetching _ = 0

-- the worker when it has found nothing, and the threads that have found `stop` not set or are to set it
abbrev pub is_falling : Pc → ℕ
is_falling falls_asleep = 1
is_falling _ = 0

abbrev pub is_putting : Pc → ℕ
is_putting (may_put _) = 1
is_putting _ = 0

abbrev pub is_stopping : Pc → ℕ
is_stopping stopping = 1
is_stopping _ = 0

-- the threads about to notify
abbrev pub will_notify : Pc → ℕ
will_notify notifies = 1
will_notify notifies_stop = 1
will_notify _ = 0

pub record Counts : Type 0 where
  pub ho : ℕ
  pub wo : ℕ
  pub bl : ℕ
  pub aw : ℕ
  pub fe : ℕ
  pub no : ℕ
  pub fa : ℕ
  pub pu : ℕ
  pub sp : ℕ

abbrev pub counts : ℕ → (ℕ → Pc) → Counts
counts n pc = record {
  ho = tally holds n pc;
  wo = tally works n pc;
  bl = tally is_blocked n pc;
  aw = tally is_awake n pc;
  fe = tally is_fetching n pc;
  no = tally will_notify n pc;
  fa = tally is_falling n pc;
  pu = tally is_putting n pc;
  sp = tally is_stopping n pc;
}

-- one thread goes from `p` to `p'`
pub record Shift (c c' : Counts) (p p' : Pc) : Type 0 where
  pub ho_moved : c'.ho + holds p ≡ c.ho + holds p'
  pub wo_moved : c'.wo + works p ≡ c.wo + works p'
  pub bl_moved : c'.bl + is_blocked p ≡ c.bl + is_blocked p'
  pub aw_moved : c'.aw + is_awake p ≡ c.aw + is_awake p'
  pub fe_moved : c'.fe + is_fetching p ≡ c.fe + is_fetching p'
  pub no_moved : c'.no + will_notify p ≡ c.no + will_notify p'
  pub fa_moved : c'.fa + is_falling p ≡ c.fa + is_falling p'
  pub pu_moved : c'.pu + is_putting p ≡ c.pu + is_putting p'
  pub sp_moved : c'.sp + is_stopping p ≡ c.sp + is_stopping p'

pub counts-Shift :
    (n : ℕ) (pc : ℕ → Pc) (i : ℕ) (p : Pc)
    → i < n
    → Shift (counts n pc) (counts n (update pc i p)) (pc i) p
counts-Shift n pc i p h = record {
  ho_moved = tally-update holds n pc i p h;
  wo_moved = tally-update works n pc i p h;
  bl_moved = tally-update is_blocked n pc i p h;
  aw_moved = tally-update is_awake n pc i p h;
  fe_moved = tally-update is_fetching n pc i p h;
  no_moved = tally-update will_notify n pc i p h;
  fa_moved = tally-update is_falling n pc i p h;
  pu_moved = tally-update is_putting n pc i p h;
  sp_moved = tally-update is_stopping n pc i p h;
}

-- what a worker's fields say of the threads
pub record Kept (m : Worker) (c : Counts) : Type 0 where
  pub lock : bit m.locked ≡ c.ho
  pub one : c.wo + bit m.ended ≡ 1
  pub sleeps :
      (m.asleep ≡ false) ⊎ ((1 ≤ c.bl) × (((length m.tasks ≡ 0) × (m.stop ≡ false)) ⊎ (1 ≤ c.no)))
  pub has_task : (c.fe ≡ 0) ⊎ (1 ≤ length m.tasks)
  pub may_go : (c.aw ≡ 0) ⊎ (m.stop ≡ true) ⊎ (1 ≤ length m.tasks)
  pub nothing : (c.fa ≡ 0) ⊎ ((m.stop ≡ false) × (length m.tasks ≡ 0))
  pub unstopped : (c.pu ≡ 0) ⊎ (m.stop ≡ false)
  pub over : (m.ended ≡ false) ⊎ ((m.stop ≡ true) × (length m.tasks ≡ 0))

pub Move-Kept :
    {m m' : Worker} {p p' : Pc} {c c' : Counts}
    → Move m p m' p'
    → Shift c c' p p'
    → c.aw + c.fe + c.fa + c.pu + c.sp ≤ c.ho
    → Kept m c
    → Kept m' c'
Move-Kept (locks h) s inside k = ground arith
Move-Kept (finds_task e) s inside k = ground (arith, e)
Move-Kept (finds_none e) s inside k = ground (arith, e)
Move-Kept (finds_nothing h e) s inside k = ground (arith, e)
Move-Kept blocks s inside k = ground arith
Move-Kept (passes_stop h) s inside k = ground arith
Move-Kept (passes_task e) s inside k = ground (arith, e)
Move-Kept wakes s inside k = ground arith
Move-Kept (relocks h) s inside k = ground arith
Move-Kept (returns h e) s inside k = ground (arith, e)
Move-Kept (marks_running h) s inside k = ground arith
Move-Kept (marks_task e) s inside k = ground (arith, e)
Move-Kept (pops e) s inside k = ground (arith, e)
Move-Kept finishes s inside k = ground arith
Move-Kept (calls t) s inside k = ground arith
Move-Kept (enters h) s inside k = ground arith
Move-Kept (throws h) s inside k = ground arith
Move-Kept (passes_check h) s inside k = ground arith
Move-Kept {m = m} (emplaces {t = t}) s inside k = ground (arith, length-append m.tasks (t ∷ []))
Move-Kept notify_one s inside k = ground arith
Move-Kept destroys s inside k = ground arith
Move-Kept (locks_to_stop h) s inside k = ground arith
Move-Kept sets_stop s inside k = ground arith
Move-Kept notify_stop s inside k = ground arith
Move-Kept (joined h) s inside k = ground arith

-- The tasks that were put in are those taken out and those still there, in their order.
unfoldable pub Recorded : Worker → Type 0
Recorded m = m.given ≡ m.started ++ m.tasks

pub Move-Recorded : {m m' : Worker} {p p' : Pc} → Move m p m' p' → Recorded m → Recorded m'
unfolding Recorded
Move-Recorded (locks h) r = r
Move-Recorded (finds_task e) r = r
Move-Recorded (finds_none e) r = r
Move-Recorded (finds_nothing h e) r = r
Move-Recorded blocks r = r
Move-Recorded (passes_stop h) r = r
Move-Recorded (passes_task e) r = r
Move-Recorded wakes r = r
Move-Recorded (relocks h) r = r
Move-Recorded (returns h e) r = r
Move-Recorded (marks_running h) r = r
Move-Recorded (marks_task e) r = r
Move-Recorded {m = m} (pops {t = t} {rest = rest} e) r =
    rw r (rw e (sym (append_assoc m.started (t ∷ []) rest)))
Move-Recorded finishes r = r
Move-Recorded (calls t) r = r
Move-Recorded (enters h) r = r
Move-Recorded (throws h) r = r
Move-Recorded (passes_check h) r = r
Move-Recorded {m = m} (emplaces {t = t}) r = rw r (append_assoc m.started m.tasks (t ∷ []))
Move-Recorded notify_one r = r
Move-Recorded destroys r = r
Move-Recorded (locks_to_stop h) r = r
Move-Recorded sets_stop r = r
Move-Recorded notify_stop r = r
Move-Recorded (joined h) r = r
