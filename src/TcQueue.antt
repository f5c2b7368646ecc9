-- ===== src/TcQueue.antt =====
-- tcq.h, `TCQueue::task_enqueue`: threads that combine their tasks in one queue. The thread that has
-- `en_lck` leads: it opens the queue, closes it and takes it; the others follow. A task is its UID.
-- The locks are taken at their word: `en_lck` has one holder; `wlck` is its count of readers, which wraps
-- around, and whether there is a writer.
pub mod Batch
pub mod Promises
pub mod Counts
pub mod Slots
pub mod Steps
pub mod Weights
pub mod Whole
pub mod Tests
use usable_lib.Prelude.{
  ℕ, ◌+◌, ◌-◌, ◌%◌, ◌^◌, ◌≤◌, ◌<◌, ◌≡◌, ◌≢◌, Bool, true, false, Option, none, some, if◌then◌else◌,
  ltb, add32, ◌==◌,
}

pub record Shared : Type 0 where
  pub en_lck : Bool
  pub readers : ℕ
  pub writer : Bool
  pub queue_valid : Bool
  pub queue_ver : ℕ
  pub queue_cnt : ℕ
  pub queue_try_cnt : ℕ
  pub queue : ℕ → Option ℕ  -- `uid_queue`, `task_queue` and `pro_queue`

-- `-1` as `uint32_t`
abbrev pub none32 : ℕ
none32 = 2 ^ 32 - 1

-- `enqueue_ready`: the index, and the queue's counter
abbrev pub ready_index : ℕ → ℕ → ℕ
ready_index max_count cnt = if ltb cnt max_count then cnt else none32

-- Where a thread stands, with the UID of its task.
pub data Pc : Type 0 where
  idle : Pc
  tries : ℕ → Pc  -- at `retry`
  leads : ℕ → Pc  -- has `en_lck`
  opened : ℕ → Pc  -- the queue is empty
  granted : ℕ → ℕ → Pc  -- has its index
  announced : ℕ → ℕ → Pc  -- `queue_valid` is set
  written : Pc  -- its task is in the queue
  polls : Pc  -- confirmed
  closing : Pc  -- `queue_valid` is cleared
  locked : Pc  -- has `wlck` as writer
  collects : Pc  -- has released `wlck`
  leaves : ℕ → (ℕ → Option ℕ) → Pc  -- has taken the queue, with its length
  refused : ℕ → Pc  -- follows
  waits : ℕ → Pc  -- has seen `queue_valid`
  entered : ℕ → Pc  -- has `wlck` as reader
  retreats : ℕ → Pc  -- has seen it cleared
  checked : ℕ → Pc  -- has seen `queue_valid` again
  placed : ℕ → ℕ → Pc  -- has its index
  filled : Pc  -- its task is in the queue
  confirmed : Pc
  overflowed : ℕ → Pc  -- the queue is full
  turned_away : ℕ → ℕ → Pc  -- has read `queue_ver`
  waits_over : ℕ → ℕ → Pc  -- has released `wlck`

-- a slot written
abbrev pub set_slot : (ℕ → Option ℕ) → ℕ → ℕ → ℕ → Option ℕ
set_slot queue idx uid k = if idx == k then some uid else queue k

-- The count of readers in the word of `wlck`, a `shared_mutex_b8`: 7 bits over the one of the writer.
abbrev pub with_reader : ℕ → ℕ
with_reader readers = (readers + 1) % 2 ^ 7

abbrev pub without_reader : ℕ → ℕ
without_reader readers = (readers + (2 ^ 7 - 1)) % 2 ^ 7

-- One access to the shared state. Until it sets `queue_valid` the leader alone uses the counters and
-- the queue, and again after it has had `wlck` to itself: it resets and takes them in one move each.
pub data Move (max_count : ℕ) (m : Shared) : Pc → Shared → Pc → Type 0 where
  calls : (uid : ℕ) → Move max_count m idle m (tries uid)
  try_lock_wins :
      {uid : ℕ}
      → m.en_lck ≡ false
      → Move max_count m (tries uid) (record m { en_lck = true }) (leads uid)
  try_lock_fails : {uid : ℕ} → m.en_lck ≡ true → Move max_count m (tries uid) m (refused uid)
  resets :
      {uid : ℕ}
      → Move max_count m
          (leads uid)
          (record m {
            queue_cnt = 0;
            queue_try_cnt = 0;
            queue = λ k. none;
            queue_ver = (m.queue_ver + 1) % 2 ^ 8;
          })
          (opened uid)
  readies :
      {uid : ℕ}
      → Move max_count m
          (opened uid)
          (record m { queue_cnt = add32 m.queue_cnt 1 })
          (granted uid (ready_index max_count m.queue_cnt))
  announces :
      {uid idx : ℕ}
      → Move max_count m (granted uid idx) (record m { queue_valid = true }) (announced uid idx)
  writes :
      {uid idx : ℕ}
      → Move max_count m (announced uid idx) (record m { queue = set_slot m.queue idx uid }) written
  confirms : Move max_count m written (record m { queue_try_cnt = add32 m.queue_try_cnt 1 }) polls
  polls_on : Move max_count m polls m polls
  closes : Move max_count m polls (record m { queue_valid = false }) closing
  locks :
      m.readers ≡ 0
      → m.writer ≡ false
      → Move max_count m closing (record m { writer = true }) locked
  unlocks : Move max_count m locked (record m { writer = false }) collects
  takes :
      Move max_count m collects (record m { queue = λ k. none }) (leaves m.queue_try_cnt m.queue)
  releases :
      {len : ℕ} {batch : ℕ → Option ℕ}
      → Move max_count m (leaves len batch) (record m { en_lck = false }) idle
  retries : {uid : ℕ} → m.queue_valid ≡ false → Move max_count m (refused uid) m (tries uid)
  sees_valid : {uid : ℕ} → m.queue_valid ≡ true → Move max_count m (refused uid) m (waits uid)
  enters :
      {uid : ℕ}
      → m.writer ≡ false
      → Move max_count m (waits uid) (record m { readers = with_reader m.readers }) (entered uid)
  backs_out : {uid : ℕ} → m.queue_valid ≡ false → Move max_count m (entered uid) m (retreats uid)
  checks : {uid : ℕ} → m.queue_valid ≡ true → Move max_count m (entered uid) m (checked uid)
  finds_place :
      {uid : ℕ}
      → m.queue_cnt < max_count
      → Move max_count m
          (checked uid)
          (record m { queue_cnt = add32 m.queue_cnt 1 })
          (placed uid m.queue_cnt)
  finds_none :
      {uid : ℕ}
      → max_count ≤ m.queue_cnt
      → Move max_count m
          (checked uid)
          (record m { queue_cnt = add32 m.queue_cnt 1 })
          (overflowed uid)
  fills :
      {uid idx : ℕ}
      → Move max_count m (placed uid idx) (record m { queue = set_slot m.queue idx uid }) filled
  follower_confirms :
      Move max_count m filled (record m { queue_try_cnt = add32 m.queue_try_cnt 1 }) confirmed
  exits : Move max_count m confirmed (record m { readers = without_reader m.readers }) idle
  exits_early :
      {uid : ℕ}
      → Move max_count m
          (retreats uid)
          (record m { readers = without_reader m.readers })
          (tries uid)
  reads_version : {uid : ℕ} → Move max_count m (overflowed uid) m (turned_away uid m.queue_ver)
  exits_full :
      {uid ver : ℕ}
      → Move max_count m
          (turned_away uid ver)
          (record m { readers = without_reader m.readers })
          (waits_over uid ver)
  waits_on :
      {uid ver : ℕ}
      → m.queue_valid ≡ true
      → m.queue_ver ≡ ver
      → Move max_count m (waits_over uid ver) m (waits_over uid ver)
  wait_ends_closed :
      {uid ver : ℕ} → m.queue_valid ≡ false → Move max_count m (waits_over uid ver) m (tries uid)
  wait_ends_reopened :
      {uid ver : ℕ} → m.queue_ver ≢ ver → Move max_count m (waits_over uid ver) m (tries uid)
