-- ===== src/ThreadPool/Whole.antt =====
-- A worker and the threads that use it together.
use usable_lib.Prelude.{
  ℕ, ◌+◌, ◌≤◌, ◌<◌, ◌≡◌, ◌⊎◌, ◌∙◌, inl, refl, sym, subst, ap, ap₂, true, false, List, [], ◌∷◌, ◌++◌,
  append-nil, length, arith,
}
use usable_lib.ThreadPool.{
  Worker, Pc, at_loop, looks, tests, falls_asleep, blocked, woken, awake, fetches, runs, returned,
  idle, wants, has_lock, may_put, notifies, stops, stopping, notifies_stop, joins, Move,
}
use usable_lib.ThreadPool.Steps.{
  holds, works, is_blocked, is_awake, is_fetching, is_falling, is_putting, is_stopping, will_notify,
  counts, counts-Shift, Kept, Move-Kept, Recorded, Move-Recorded,
}
use usable_lib.Threads.{
  System, Step, pick, Reach, Reach-keeps, tally, tally_mono, tally_add, tally_first, tally-some,
  weigh-le-tally,
}

holders :
    (p : Pc) → is_awake p + is_fetching p + is_falling p + is_putting p + is_stopping p ≤ holds p
holders at_loop = omega arith
holders looks = omega arith
holders tests = omega arith
holders falls_asleep = omega arith
holders blocked = omega arith
holders woken = omega arith
holders awake = omega arith
holders fetches = omega arith
holders (runs t) = omega arith
holders returned = omega arith
holders idle = omega arith
holders (wants t) = omega arith
holders (has_lock t) = omega arith
holders (may_put t) = omega arith
holders notifies = omega arith
holders stops = omega arith
holders stopping = omega arith
holders notifies_stop = omega arith
holders joins = omega arith

counts_inside :
    (n : ℕ) (pc : ℕ → Pc)
    → (counts n pc).aw + (counts n pc).fe + (counts n pc).fa + (counts n pc).pu + (counts n pc).sp
      ≤ (counts n pc).ho
counts_inside n pc = omega (
  arith,
  tally_mono (λ p. is_awake p + is_fetching p + is_falling p + is_putting p + is_stopping p) holds n
      pc holders,
  tally_add (λ p. is_awake p + is_fetching p + is_falling p + is_putting p) is_stopping n pc,
  tally_add (λ p. is_awake p + is_fetching p + is_falling p) is_putting n pc,
  tally_add (λ p. is_awake p + is_fetching p) is_falling n pc,
  tally_add is_awake is_fetching n pc,
)

pub record Good (n : ℕ) (s : System Worker Pc) : Type 0 where
  pub kept : Kept s.mem (counts n s.pc)
  pub recorded : Recorded s.mem

-- The constructor has started the worker, thread 0, and no one has called it.
pub record Fresh (s : System Worker Pc) : Type 0 where
  pub unlocked : s.mem.locked ≡ false
  pub running : s.mem.stop ≡ false
  pub awake_yet : s.mem.asleep ≡ false
  pub not_ended : s.mem.ended ≡ false
  pub no_tasks : s.mem.tasks ≡ []
  pub none_given : s.mem.given ≡ []
  pub none_started : s.mem.started ≡ []
  pub worker : s.pc 0 ≡ at_loop
  pub others : (i : ℕ) → s.pc (i + 1) ≡ idle

Step-Good : (n : ℕ) (s t : System Worker Pc) → Step Move n s t → Good n s → Good n t
Step-Good n s _ (pick i {m} {p} h mv) g = record {
  kept = Move-Kept mv (counts-Shift n s.pc i p h) (counts_inside n s.pc) g.kept;
  recorded = Move-Recorded mv g.recorded;
}

Fresh-tally :
    (n : ℕ) (s : System Worker Pc) (weigh : Pc → ℕ)
    → 1 ≤ n
    → Fresh s
    → weigh idle ≡ 0
    → tally weigh n s.pc ≡ weigh at_loop
Fresh-tally n s weigh one f e =
    tally_first weigh n s.pc one (λ i. subst (λ p. weigh p ≡ 0) (sym (f.others i)) e)
    ∙ ap weigh f.worker

Fresh-Good : (n : ℕ) (s : System Worker Pc) → 1 ≤ n → Fresh s → Good n s
unfolding Recorded
Fresh-Good n s one f =
    let ho = Fresh-tally n s holds one f refl in
    let wo = Fresh-tally n s works one f refl in
    let bl = Fresh-tally n s is_blocked one f refl in
    let aw = Fresh-tally n s is_awake one f refl in
    let fe = Fresh-tally n s is_fetching one f refl in
    let no = Fresh-tally n s will_notify one f refl in
    let fa = Fresh-tally n s is_falling one f refl in
    let pu = Fresh-tally n s is_putting one f refl in
    record {
      kept = record {
        lock = ground (arith, f.unlocked);
        one = ground (arith, f.not_ended);
        sleeps = inl f.awake_yet;
        has_task = inl fe;
        may_go = inl aw;
        nothing = inl fa;
        unstopped = inl pu;
        over = inl f.not_ended;
      };
      recorded = f.none_given ∙ sym (ap₂ (λ ts us. ts ++ us) f.none_started f.no_tasks);
    }

empty : (ts : List ℕ) → length ts ≡ 0 → ts ≡ []
empty [] h = refl
empty (t ∷ ts) h = absurd (omega arith)

pub Reach-Good :
    (n : ℕ) (start s : System Worker Pc) → 1 ≤ n → Fresh start → Reach Move n start s → Good n s
Reach-Good n start s one f = Reach-keeps Move (Good n) (Step-Good n) (Fresh-Good n start one f)

-- When `routine` has returned, in whatever order the threads have moved, every task that was put in was
-- taken out to be run, once and in the order in which they were put in.
pub ended-started :
    (n : ℕ) (start s : System Worker Pc)
    → 1 ≤ n
    → Fresh start
    → Reach Move n start s
    → s.mem.ended ≡ true
    → s.mem.started ≡ s.mem.given
unfolding Recorded
ended-started n start s one f r e =
    let g = Reach-Good n start s one f r in
    let none_left : s.mem.tasks ≡ [] = empty s.mem.tasks (ground (arith, g.kept.over, e)) in
    sym (g.recorded ∙ ap (λ ts. s.mem.started ++ ts) none_left ∙ append-nil s.mem.started)

-- No wake-up is lost: whenever the worker is blocked on `cv` while there is a task, or after `stop` was
-- set, some thread is about to notify it.
pub blocked_notified :
    (n : ℕ) (start s : System Worker Pc)
    → 1 ≤ n
    → Fresh start
    → Reach Move n start s
    → s.mem.asleep ≡ true
    → (1 ≤ length s.mem.tasks) ⊎ (s.mem.stop ≡ true)
    → (i : ℕ) × (i < n) × (1 ≤ will_notify (s.pc i))
blocked_notified n start s one f r e due =
    let g = Reach-Good n start s one f r in
    tally-some will_notify n s.pc (ground (arith, g.kept.sleeps, e, due))

-- The worker takes a task out only while there is one: `front` and `pop` are never called on no tasks.
pub fetches_some :
    (n : ℕ) (start s : System Worker Pc) (i : ℕ)
    → 1 ≤ n
    → Fresh start
    → Reach Move n start s
    → i < n
    → s.pc i ≡ fetches
    → 1 ≤ length s.mem.tasks
fetches_some n start s i one f r h e =
    let g = Reach-Good n start s one f r in
    let mine : 1 ≤ (counts n s.pc).fe =
      omega (
        arith,
        subst (λ p. is_fetching p ≡ 1) (sym e) refl,
        weigh-le-tally is_fetching n s.pc i h,
      ) in
    ground (arith, g.kept.has_task)
