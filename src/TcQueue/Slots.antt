-- ===== src/TcQueue/Slots.antt =====
-- Each move of `task_enqueue` keeps the slots of the queue in step with the indices given.
use usable_lib.Prelude.{ℕ, ◌+◌, ◌≤◌, ◌<◌, ◌≡◌, ◌⊎◌, Option, arith, ltb, min, bit}
use usable_lib.TcQueue.{
  none32, Shared, Pc, leaves, Move, calls, try_lock_wins, try_lock_fails, resets, readies,
  announces, writes, confirms, polls_on, closes, locks, unlocks, takes, releases, retries,
  sees_valid, enters, backs_out, checks, finds_place, finds_none, fills, follower_confirms, exits,
  exits_early, reads_version, exits_full, waits_on, wait_ends_closed, wait_ends_reopened,
}
use usable_lib.TcQueue.Counts.{Counts, Shift, owes, fill, is_collecting}
use usable_lib.TcQueue.Steps.{Locks, Sane, Counters, active}

-- Slot `k`, whose content `ow` threads owe.
pub record Slot (max_count : ℕ) (m : Shared) (c : Counts) (k ow : ℕ) : Type 0 where
  pub empty : (c.op ≡ 0) ⊎ (fill (m.queue k) ≡ 0)
  pub promised : (active c ≡ 0) ⊎ (fill (m.queue k) + ow ≡ bit (ltb k (min m.queue_cnt max_count)))

pub Move-Slot :
    {max_count n : ℕ} {m m' : Shared} {p p' : Pc} {c c' : Counts} {ov ch k ow ow' : ℕ}
    → 1 ≤ max_count
    → max_count + n < none32
    → Move max_count m p m' p'
    → Shift c c' p p'
    → ow' + owes k p ≡ ow + owes k p'
    → ow ≤ c.unc + c.gr + c.wr
    → owes k p ≤ ow
    → ov + ch ≤ n
    → ch ≤ c.ins
    → Sane c
    → Locks m c
    → Counters max_count n m c ov ch
    → Slot max_count m c k ow
    → Slot max_count m' c' k ow'
Move-Slot one small (calls uid) s so os pw room chs a l q b = ground arith
Move-Slot one small (try_lock_wins h) s so os pw room chs a l q b = ground arith
Move-Slot one small (try_lock_fails h) s so os pw room chs a l q b = ground arith
Move-Slot one small resets s so os pw room chs a l q b = ground arith
Move-Slot one small readies s so os pw room chs a l q b = ground arith
Move-Slot one small announces s so os pw room chs a l q b = ground arith
Move-Slot one small writes s so os pw room chs a l q b = ground arith
Move-Slot one small confirms s so os pw room chs a l q b = ground arith
Move-Slot one small polls_on s so os pw room chs a l q b = ground arith
Move-Slot one small closes s so os pw room chs a l q b = ground arith
Move-Slot one small (locks h h2) s so os pw room chs a l q b = ground arith
Move-Slot one small unlocks s so os pw room chs a l q b = ground arith
Move-Slot one small takes s so os pw room chs a l q b = ground arith
Move-Slot one small releases s so os pw room chs a l q b = ground arith
Move-Slot one small (retries h) s so os pw room chs a l q b = ground arith
Move-Slot one small (sees_valid h) s so os pw room chs a l q b = ground arith
Move-Slot one small (enters h) s so os pw room chs a l q b = ground arith
Move-Slot one small (backs_out h) s so os pw room chs a l q b = ground arith
Move-Slot one small (checks h) s so os pw room chs a l q b = ground arith
Move-Slot one small (finds_place h) s so os pw room chs a l q b = ground arith
Move-Slot one small (finds_none h) s so os pw room chs a l q b = ground arith
Move-Slot one small fills s so os pw room chs a l q b = ground arith
Move-Slot one small follower_confirms s so os pw room chs a l q b = ground arith
Move-Slot one small exits s so os pw room chs a l q b = ground arith
Move-Slot one small exits_early s so os pw room chs a l q b = ground arith
Move-Slot one small reads_version s so os pw room chs a l q b = ground arith
Move-Slot one small exits_full s so os pw room chs a l q b = ground arith
Move-Slot one small (waits_on h h2) s so os pw room chs a l q b = ground arith
Move-Slot one small (wait_ends_closed h) s so os pw room chs a l q b = ground arith
Move-Slot one small (wait_ends_reopened h) s so os pw room chs a l q b = ground arith

-- A batch is filled below its length and nowhere else.
pub record Full (max_count len : ℕ) (batch : ℕ → Option ℕ) : Type 0 where
  pub nonempty : 1 ≤ len
  pub bounded : len ≤ max_count
  pub filled_below : (k : ℕ) → fill (batch k) ≡ bit (ltb k len)

-- what a thread that leaves has taken
abbrev pub Leaving : ℕ → Pc → Type 0
Leaving max_count (leaves len batch) = Full max_count len batch
Leaving max_count _ = Unit

pub Move-Leaving :
    {max_count n : ℕ} {m m' : Shared} {p p' : Pc} {c : Counts} {ov ch : ℕ}
    → 1 ≤ max_count
    → Move max_count m p m' p'
    → is_collecting p ≤ c.co
    → Sane c
    → Locks m c
    → Counters max_count n m c ov ch
    → (ow : ℕ → ℕ) → ((k : ℕ) → ow k ≤ c.unc + c.gr + c.wr)
    → ((k : ℕ) → Slot max_count m c k (ow k))
    → Leaving max_count p'
Move-Leaving one (calls uid) w a k q ow owed slots = tt
Move-Leaving one (try_lock_wins h) w a k q ow owed slots = tt
Move-Leaving one (try_lock_fails h) w a k q ow owed slots = tt
Move-Leaving one resets w a k q ow owed slots = tt
Move-Leaving one readies w a k q ow owed slots = tt
Move-Leaving one announces w a k q ow owed slots = tt
Move-Leaving one writes w a k q ow owed slots = tt
Move-Leaving one confirms w a k q ow owed slots = tt
Move-Leaving one polls_on w a k q ow owed slots = tt
Move-Leaving one closes w a k q ow owed slots = tt
Move-Leaving one (locks h h2) w a k q ow owed slots = tt
Move-Leaving one unlocks w a k q ow owed slots = tt
Move-Leaving {max_count = max_count} one takes w a k q ow owed slots = record {
  nonempty = ground arith;
  bounded = ground arith;
  filled_below = λ i. ground (arith, slots i, owed i);
}
Move-Leaving one releases w a k q ow owed slots = tt
Move-Leaving one (retries h) w a k q ow owed slots = tt
Move-Leaving one (sees_valid h) w a k q ow owed slots = tt
Move-Leaving one (enters h) w a k q ow owed slots = tt
Move-Leaving one (backs_out h) w a k q ow owed slots = tt
Move-Leaving one (checks h) w a k q ow owed slots = tt
Move-Leaving one (finds_place h) w a k q ow owed slots = tt
Move-Leaving one (finds_none h) w a k q ow owed slots = tt
Move-Leaving one fills w a k q ow owed slots = tt
Move-Leaving one follower_confirms w a k q ow owed slots = tt
Move-Leaving one exits w a k q ow owed slots = tt
Move-Leaving one exits_early w a k q ow owed slots = tt
Move-Leaving one reads_version w a k q ow owed slots = tt
Move-Leaving one exits_full w a k q ow owed slots = tt
Move-Leaving one (waits_on h h2) w a k q ow owed slots = tt
Move-Leaving one (wait_ends_closed h) w a k q ow owed slots = tt
Move-Leaving one (wait_ends_reopened h) w a k q ow owed slots = tt
