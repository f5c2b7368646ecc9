-- ===== src/TcQueue/Whole.antt =====
-- The threads of `task_enqueue` together: what holds in every state that they reach.
use usable_lib.Prelude.{
  ℕ, ◌^◌, ◌+◌, ◌≤◌, ◌<◌, ◌≡◌, inl, refl, false, Option, none, arith, sym, subst,
}
use usable_lib.TcQueue.{none32, Shared, Pc, Move, idle, leaves, placed}
use usable_lib.TcQueue.Counts.{
  Counts, counts, counts-Shift, inside, reads, unconfirmed, is_leads, is_opened, is_polling,
  is_closing, is_locked, is_leaving, is_granted, is_writing, is_collecting, is_checked, is_over,
  owes,
}
use usable_lib.TcQueue.Steps.{Locks, Counters, Move-Locks, Move-Counters}
use usable_lib.TcQueue.Slots.{Slot, Move-Slot, Full, Leaving, Move-Leaving}
use usable_lib.TcQueue.Weights.{counts-Sane, checked-le, owes-le, over-le, over_shift}
use usable_lib.Threads.{
  System, Step, pick, Reach, Reach-keeps, tally, tally-update, weigh-le-tally, tally-eq-zero,
  update, update-keeps, tally_unique,
}

pub record Good (max_count n : ℕ) (s : System Shared Pc) : Type 0 where
  pub locks : Locks s.mem (counts n s.pc)
  pub counters :
      Counters max_count n s.mem
        (counts n s.pc)
        (tally (is_over s.mem.queue_ver) n s.pc)
        (tally is_checked n s.pc)
  pub slots : (k : ℕ) → Slot max_count s.mem (counts n s.pc) k (tally (owes k) n s.pc)
  pub batches : (i : ℕ) → Leaving max_count (s.pc i)

-- nobody has begun
pub record Fresh (s : System Shared Pc) : Type 0 where
  pub unlocked : s.mem.en_lck ≡ false
  pub unread : s.mem.readers ≡ 0
  pub unwritten : s.mem.writer ≡ false
  pub closed : s.mem.queue_valid ≡ false
  pub all_idle : (i : ℕ) → s.pc i ≡ idle

idle_tally :
    (n : ℕ) (s : System Shared Pc) (weigh : Pc → ℕ)
    → Fresh s
    → weigh idle ≡ 0
    → tally weigh n s.pc ≡ 0
idle_tally n s weigh f e =
    tally-eq-zero weigh n s.pc (λ i. subst (λ p. weigh p ≡ 0) (sym (f.all_idle i)) e)

pub Fresh-Good : (max_count n : ℕ) (s : System Shared Pc) → Fresh s → Good max_count n s
Fresh-Good max_count n s f =
    let ld = idle_tally n s is_leads f refl in
    let op = idle_tally n s is_opened f refl in
    let gr = idle_tally n s is_granted f refl in
    let wr = idle_tally n s is_writing f refl in
    let po = idle_tally n s is_polling f refl in
    let cl = idle_tally n s is_closing f refl in
    let lk = idle_tally n s is_locked f refl in
    let co = idle_tally n s is_collecting f refl in
    let lv = idle_tally n s is_leaving f refl in
    let rd = idle_tally n s reads f refl in
    let ins = idle_tally n s inside f refl in
    let unc = idle_tally n s unconfirmed f refl in
    record {
      locks = record {
        leader = ground arith;
        valid = ground arith;
        shared = ground arith;
        alone = ground arith;
        used = inl ins;
      };
      counters = record {
        cleared = inl op;
        first = inl gr;
        tried = inl (ground arith);
        open_bound = inl (ground arith);
        closed_bound = inl (ground arith);
      };
      slots = λ k. record { empty = inl op; promised = inl (ground arith) };
      batches = λ i. subst (Leaving max_count) (sym (f.all_idle i)) tt;
    }

Step-Good :
    (max_count n : ℕ) (s t : System Shared Pc)
    → 1 ≤ max_count
    → max_count + n < none32
    → n < 2 ^ 7
    → Step (Move max_count) n s t
    → Good max_count n s
    → Good max_count n t
Step-Good max_count n s _ one small few (pick i {m} {p} h mv) g =
    let shift = counts-Shift n s.pc i p h in
    let a = counts-Sane n s.pc few in
    let a' = counts-Sane n (update s.pc i p) few in
    record {
      locks = Move-Locks mv shift a a' g.locks;
      counters =
          Move-Counters one small mv shift (over_shift n s.pc i mv h)
            (tally-update is_checked n s.pc i p h) (over-le n s.mem.queue_ver s.pc)
            (checked-le n s.pc) a g.locks g.counters;
      slots = λ k.
          Move-Slot one small mv shift (tally-update (owes k) n s.pc i p h) (owes-le n k s.pc)
            (weigh-le-tally (owes k) n s.pc i h) (over-le n s.mem.queue_ver s.pc)
            (checked-le n s.pc) a g.locks g.counters (g.slots k);
      batches = λ j.
          update-keeps (Leaving max_count) s.pc i p j
            (Move-Leaving one mv (weigh-le-tally is_collecting n s.pc i h) a g.locks g.counters
              (λ k. tally (owes k) n s.pc) (λ k. owes-le n k s.pc) g.slots)
            (λ _. g.batches j);
    }

pub Reach-Good :
    (max_count n : ℕ) (start s : System Shared Pc)
    → 1 ≤ max_count
    → max_count + n < none32
    → n < 2 ^ 7
    → Fresh start
    → Reach (Move max_count) n start s
    → Good max_count n s
Reach-Good max_count n start s one small few f =
    Reach-keeps (Move max_count) (Good max_count n) (λ s t. Step-Good max_count n s t one small few)
      (Fresh-Good max_count n start f)

-- In every state that at most 127 threads calling `task_enqueue` on a new queue reach, with `max_count` at
-- least 1 and the sum of it and the number of threads below 2^32 - 1, a leader that leaves has taken a
-- batch of at least one task and of at most `max_count`, with a task in each slot below its length and in
-- no other.
pub leaves-Full :
    (max_count n : ℕ) (start s : System Shared Pc) (i len : ℕ) (batch : ℕ → Option ℕ)
    → 1 ≤ max_count
    → max_count + n < none32
    → n < 2 ^ 7
    → Fresh start
    → Reach (Move max_count) n start s
    → s.pc i ≡ leaves len batch
    → Full max_count len batch
leaves-Full max_count n start s i len batch one small few f r e =
    subst (Leaving max_count) e ((Reach-Good max_count n start s one small few f r).batches i)

owed_slot :
    {max_count k ow : ℕ} {m : Shared} {c : Counts}
    → Locks m c
    → Slot max_count m c k ow
    → 1 ≤ c.ins
    → 1 ≤ ow
    → (k < max_count) × (m.queue k ≡ none) × (ow ≤ 1)
owed_slot q slot ins owed = ground arith

-- In every state that at most 127 threads reach so, the index of a follower about to write is inside the
-- queue, its slot is empty, and no other thread that has yet to write has the same index.
pub placed_alone :
    (max_count n : ℕ) (start s : System Shared Pc) (i uid idx : ℕ)
    → 1 ≤ max_count
    → max_count + n < none32
    → n < 2 ^ 7
    → Fresh start
    → Reach (Move max_count) n start s
    → i < n
    → s.pc i ≡ placed uid idx
    → (idx < max_count)
      × (s.mem.queue idx ≡ none)
      × ((j : ℕ) → j < n → owes idx (s.pc j) ≡ 1 → j ≡ i)
placed_alone max_count n start s i uid idx one small few f r hi e =
    let g = Reach-Good max_count n start s one small few f r in
    let mine : owes idx (s.pc i) ≡ 1 = rw e (ground arith) in
    let ins : 1 ≤ (counts n s.pc).ins =
      omega (arith, subst (λ p. inside p ≡ 1) (sym e) refl, weigh-le-tally inside n s.pc i hi) in
    let slot =
      owed_slot g.locks (g.slots idx) ins
        (omega (arith, mine, weigh-le-tally (owes idx) n s.pc i hi)) in
    (slot.0, slot.1, λ j hj theirs. tally_unique (owes idx) n s.pc j i hj hi theirs mine slot.2)
