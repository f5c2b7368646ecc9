-- ===== src/TcQueue/Steps.antt =====
-- Each move of `task_enqueue` keeps the locks in step with the threads.
use usable_lib.Prelude.{ℕ, ◌^◌, ◌+◌, ◌≤◌, ◌<◌, ◌≡◌, ◌⊎◌, arith, min, bit}
use usable_lib.TcQueue.{
  none32, Shared, Pc, Move, calls, try_lock_wins, try_lock_fails, resets, readies, announces,
  writes, confirms, polls_on, closes, locks, unlocks, takes, releases, retries, sees_valid, enters,
  backs_out, checks, finds_place, finds_none, fills, follower_confirms, exits, exits_early,
  reads_version, exits_full, waits_on, wait_ends_closed, wait_ends_reopened,
}
use usable_lib.TcQueue.Counts.{Counts, Shift, is_leads, is_checked, is_over}

-- The locks and `queue_valid`.
pub record Locks (m : Shared) (c : Counts) : Type 0 where
  pub leader : bit m.en_lck ≡ c.ld + c.op + c.gr + c.wr + c.po + c.cl + c.lk + c.co + c.lv
  pub valid : bit m.queue_valid ≡ c.wr + c.po
  pub shared : m.readers ≡ c.rd
  pub alone : bit m.writer ≡ c.lk
  pub used : (c.ins ≡ 0) ⊎ (c.wr + c.po + c.cl ≡ 1)

-- what holds of any counts
pub record Sane (c : Counts) : Type 0 where
  pub ins_le : c.ins ≤ c.rd
  pub unc_le : c.unc ≤ c.ins
  pub few : c.rd < 2 ^ 7

pub Move-Locks :
    {max_count : ℕ} {m m' : Shared} {p p' : Pc} {c c' : Counts}
    → Move max_count m p m' p'
    → Shift c c' p p'
    → Sane c
    → Sane c'
    → Locks m c
    → Locks m' c'
Move-Locks (calls uid) s a a' k = ground arith
Move-Locks (try_lock_wins h) s a a' k = ground arith
Move-Locks (try_lock_fails h) s a a' k = ground arith
Move-Locks resets s a a' k = ground arith
Move-Locks readies s a a' k = ground arith
Move-Locks announces s a a' k = ground arith
Move-Locks writes s a a' k = ground arith
Move-Locks confirms s a a' k = ground arith
Move-Locks polls_on s a a' k = ground arith
Move-Locks closes s a a' k = ground arith
Move-Locks (locks h h2) s a a' k = ground arith
Move-Locks unlocks s a a' k = ground arith
Move-Locks takes s a a' k = ground arith
Move-Locks releases s a a' k = ground arith
Move-Locks (retries h) s a a' k = ground arith
Move-Locks (sees_valid h) s a a' k = ground arith
Move-Locks (enters h) s a a' k = ground arith
Move-Locks (backs_out h) s a a' k = ground arith
Move-Locks (checks h) s a a' k = ground arith
Move-Locks (finds_place h) s a a' k = ground arith
Move-Locks (finds_none h) s a a' k = ground arith
Move-Locks fills s a a' k = ground arith
Move-Locks follower_confirms s a a' k = ground arith
Move-Locks exits s a a' k = ground arith
Move-Locks exits_early s a a' k = ground arith
Move-Locks reads_version s a a' k = ground arith
Move-Locks exits_full s a a' k = ground arith
Move-Locks (waits_on h h2) s a a' k = ground arith
Move-Locks (wait_ends_closed h) s a a' k = ground arith
Move-Locks (wait_ends_reopened h) s a a' k = ground arith

-- the leader from its index to the taking of the queue
abbrev pub active : Counts → ℕ
active c = c.gr + c.wr + c.po + c.cl + c.lk + c.co

-- The two counters, of which `ov` threads have found the queue full and `ch` are about to look.
pub record Counters (max_count n : ℕ) (m : Shared) (c : Counts) (ov ch : ℕ) : Type 0 where
  pub cleared : (c.op ≡ 0) ⊎ ((m.queue_cnt ≡ 0) × (m.queue_try_cnt ≡ 0))
  pub first : (c.gr ≡ 0) ⊎ (m.queue_cnt ≡ 1)
  pub tried :
      (active c ≡ 0)
      ⊎ ((1 ≤ m.queue_cnt) × (m.queue_try_cnt + c.unc + c.gr + c.wr ≡ min m.queue_cnt max_count))
  pub open_bound : (c.wr + c.po ≡ 0) ⊎ (m.queue_cnt ≤ max_count + ov)
  pub closed_bound : (c.cl + c.lk + c.co ≡ 0) ⊎ (m.queue_cnt + ch ≤ max_count + n)

pub Move-Counters :
    {max_count n : ℕ} {m m' : Shared} {p p' : Pc} {c c' : Counts} {ov ov' ch ch' : ℕ}
    → 1 ≤ max_count
    → max_count + n < none32
    → Move max_count m p m' p'
    → Shift c c' p p'
    → (is_leads p ≡ 1) ⊎ (ov' + is_over m.queue_ver p ≡ ov + is_over m.queue_ver p')
    → ch' + is_checked p ≡ ch + is_checked p'
    → ov + ch ≤ n
    → ch ≤ c.ins
    → Sane c
    → Locks m c
    → Counters max_count n m c ov ch
    → Counters max_count n m' c' ov' ch'
Move-Counters one small (calls uid) s so sc room chs a k q = ground arith
Move-Counters one small (try_lock_wins h) s so sc room chs a k q = ground arith
Move-Counters one small (try_lock_fails h) s so sc room chs a k q = ground arith
Move-Counters one small resets s so sc room chs a k q = ground arith
Move-Counters one small readies s so sc room chs a k q = ground arith
Move-Counters one small announces s so sc room chs a k q = ground arith
Move-Counters one small writes s so sc room chs a k q = ground arith
Move-Counters one small confirms s so sc room chs a k q = ground arith
Move-Counters one small polls_on s so sc room chs a k q = ground arith
Move-Counters one small closes s so sc room chs a k q = ground arith
Move-Counters one small (locks h h2) s so sc room chs a k q = ground arith
Move-Counters one small unlocks s so sc room chs a k q = ground arith
Move-Counters one small takes s so sc room chs a k q = ground arith
Move-Counters one small releases s so sc room chs a k q = ground arith
Move-Counters one small (retries h) s so sc room chs a k q = ground arith
Move-Counters one small (sees_valid h) s so sc room chs a k q = ground arith
Move-Counters one small (enters h) s so sc room chs a k q = ground arith
Move-Counters one small (backs_out h) s so sc room chs a k q = ground arith
Move-Counters one small (checks h) s so sc room chs a k q = ground arith
Move-Counters one small (finds_place h) s so sc room chs a k q = ground arith
Move-Counters one small (finds_none h) s so sc room chs a k q = ground arith
Move-Counters one small fills s so sc room chs a k q = ground arith
Move-Counters one small follower_confirms s so sc room chs a k q = ground arith
Move-Counters one small exits s so sc room chs a k q = ground arith
Move-Counters one small exits_early s so sc room chs a k q = ground arith
Move-Counters one small reads_version s so sc room chs a k q = ground arith
Move-Counters one small exits_full s so sc room chs a k q = ground arith
Move-Counters one small (waits_on h h2) s so sc room chs a k q = ground arith
Move-Counters one small (wait_ends_closed h) s so sc room chs a k q = ground arith
Move-Counters one small (wait_ends_reopened h) s so sc room chs a k q = ground arith
