-- ===== src/Benchmark.antt =====
-- queue-bench/benchmark.cc: which runs it makes and what it writes. What a run measures, and how numbers
-- are printed, are parameters; texts are lists of character codes.
pub mod Modes
pub mod Runs
pub mod Delivery
pub mod Files
pub mod Tests
use usable_lib.Prelude.{
  ℕ, zero, suc, ◌+◌, ◌-◌, ◌*◌, ◌/◌, Bool, ◌&&◌, Option, none, some, List, [], ◌∷◌, ◌++◌, map, sum,
  ltb, add32, sub32, if◌then◌else◌, ◌==◌, ◌>>=◌,
}
use usable_lib.Prelude.Smear.{smear}
use usable_lib.ConQueue.{ConQueue, emplace, pop}
use usable_lib.ConQueue.Flags.{sp_enq, mp_enq, mp_rts_enq, sc_deq, mc_deq, mc_rts_deq}
use usable_lib.ConQueue.Init.{set_bit}
use usable_lib.CsvFile.{create_file, append_entry}

abbrev pub iterations : ℕ
iterations = 1000000

unfoldable pub upper_power_of_2 : ℕ → ℕ
upper_power_of_2 n = add32 (smear (sub32 n 1)) 1

-- `ts` is `_ts_`: 0 for the default mode, 1 for RTS
unfoldable pub conq_flag_get : ℕ → ℕ → ℕ → ℕ
conq_flag_get prod_th_num cons_th_num ts =
    let flag =
      if prod_th_num == 1
      then set_bit 0 sp_enq
      else if ts == 0
      then set_bit 0 mp_enq
      else set_bit 0 mp_rts_enq in
    if cons_th_num == 1
    then set_bit flag sc_deq
    else if ts == 0
    then set_bit flag mc_deq
    else set_bit flag mc_rts_deq

pub data RteRingMode : Type 0 where
  spsc : RteRingMode
  mc : RteRingMode
  mp : RteRingMode
  mpmc : RteRingMode

-- the ring that `main` runs
unfoldable pub rte_mode : ℕ → ℕ → RteRingMode
rte_mode prod_th_num cons_th_num =
    if cons_th_num == 1 && prod_th_num == 1
    then spsc
    else if ltb 1 cons_th_num && prod_th_num == 1
    then mc
    else if cons_th_num == 1 && ltb 1 prod_th_num
    then mp
    else mpmc

-- `test_over`: whether `DLOG_EXPR` holds of what the threads have taken out
unfoldable pub test_over : List (List ℕ) → Bool
test_over taken = sum (map sum taken) == iterations * (iterations - 1) / 2

-- `queue_bench` over `ConQueue`, with what its threads do. `put` is what `enqueue` has accepted, and
-- `taken` the numbers that were added to each `s[thread_id].c`.
pub record Bench : Type 0 where
  pub queue : ConQueue ℕ
  pub put : List ℕ
  pub taken : List (List ℕ)

-- one round of a loop of `test_thread_op`
pub data Attempt : Type 0 where
  enqueues : ℕ → Attempt
  dequeues : ℕ → Attempt  -- by the thread of that number

-- `s[thread_id].c += r`
pub add_to : ℕ → ℕ → List (List ℕ) → Option (List (List ℕ))
add_to thread r [] = none
add_to zero r (xs ∷ xss) = some ((xs ++ r ∷ []) ∷ xss)
add_to (suc thread) r (xs ∷ xss) = add_to thread r xss >>= λ yss. some (xs ∷ yss)

abbrev pub received : ℕ → Bench → Option ℕ → ConQueue ℕ → Option Bench
received thread b none q = some (record b { queue = q })
received thread b (some r) q =
    add_to thread r b.taken >>= λ xss. some (record b { queue = q; taken = xss })

unfoldable pub test_thread_op : ℕ → Bench → Attempt → Option Bench
test_thread_op junk b (enqueues n) = emplace junk b.queue n >>= λ r.
    some (record b { queue = r.1; put = if r.0 then b.put ++ n ∷ [] else b.put })
test_thread_op junk b (dequeues thread) = pop junk b.queue >>= λ r. received thread b r.0 r.1

unfoldable pub test_thread_ops : ℕ → Bench → List Attempt → Option Bench
test_thread_ops junk b [] = some b
test_thread_ops junk b (a ∷ attempts) =
    test_thread_op junk b a >>= λ b'. test_thread_ops junk b' attempts

abbrev pub thread_numbers : List ℕ
thread_numbers = 1 ∷ 2 ∷ 4 ∷ 5 ∷ 8 ∷ 10 ∷ 16 ∷ 20 ∷ []

-- the queues that the header names
pub data Queue : Type 0 where
  rte_ring : Queue
  atomic_queue : Queue
  moodycamel : Queue
  conqueue : Queue
  clqueue : Queue

-- the words of the header
abbrev pub word : Queue → List ℕ
word rte_ring = 114 ∷ 116 ∷ 101 ∷ 95 ∷ 114 ∷ 105 ∷ 110 ∷ 103 ∷ []
word atomic_queue = 97 ∷ 116 ∷ 111 ∷ 109 ∷ 105 ∷ 99 ∷ 95 ∷ 113 ∷ 117 ∷ 101 ∷ 117 ∷ 101 ∷ []
word moodycamel = 109 ∷ 111 ∷ 111 ∷ 100 ∷ 121 ∷ 99 ∷ 97 ∷ 109 ∷ 101 ∷ 108 ∷ []
word conqueue = 99 ∷ 111 ∷ 110 ∷ 113 ∷ 117 ∷ 101 ∷ 117 ∷ 101 ∷ []
word clqueue = 99 ∷ 108 ∷ 113 ∷ 117 ∷ 101 ∷ 117 ∷ 101 ∷ []

abbrev pub prod_word : List ℕ
prod_word = 112 ∷ 114 ∷ 111 ∷ 100 ∷ []

unfoldable pub columns : ℕ → List (List ℕ)
columns ts =
    if ts == 0
    then prod_word ∷ word rte_ring ∷ word clqueue ∷ []
    else prod_word ∷ word rte_ring ∷ word atomic_queue ∷ word moodycamel ∷ word clqueue ∷ []

-- a run of `queue_bench`, with the mode of the queue
pub data Run : Type 0 where
  ring_run : RteRingMode → Run
  atomic_run : Run
  moodycamel_run : Run
  conqueue_run : ℕ → Run
  clqueue_run : ℕ → Run

-- the variables of `main` in one round; `none` is one that is not set
pub record Throughputs : Type 0 where
  pub rte_ring_throughput : Option (List ℕ)
  pub atomic_queue_throughput : Option (List ℕ)
  pub moodycamel_throughput : Option (List ℕ)
  pub conqueue_throughput : Option (List ℕ)
  pub clqueue_throughput : Option (List ℕ)

-- what `appendEntry` gets behind the number of producers
unfoldable pub entries : ℕ → Throughputs → Option (List (List ℕ))
entries ts v =
    if ts == 0
    then (v.rte_ring_throughput >>= λ a. v.clqueue_throughput >>= λ b. some (a ∷ b ∷ []))
    else (v.rte_ring_throughput >>= λ a. v.atomic_queue_throughput >>= λ b.
        v.moodycamel_throughput >>= λ c. v.clqueue_throughput >>= λ d. some (a ∷ b ∷ c ∷ d ∷ []))

-- `throughput` is `result_throughput` after a run with so many producers and consumers, as it is printed
module _ (print : ℕ → List ℕ) (throughput : Run → ℕ → ℕ → List ℕ) where
  -- the runs of a round, with `p` producers and `c` consumers
  unfoldable pub measured : ℕ → ℕ → ℕ → Throughputs
  measured ts c p = record {
    rte_ring_throughput = some (throughput (ring_run (rte_mode p c)) p c);
    atomic_queue_throughput = if ts == 1 then some (throughput atomic_run p c) else none;
    moodycamel_throughput = if ts == 1 then some (throughput moodycamel_run p c) else none;
    conqueue_throughput = some (throughput (conqueue_run (conq_flag_get p c ts)) p c);
    clqueue_throughput = some (throughput (clqueue_run (conq_flag_get p c ts)) p c);
  }

  -- the loop over the numbers of producers
  unfoldable pub append_rows : ℕ → ℕ → List ℕ → List ℕ → Option (List ℕ)
  append_rows ts c [] file = some file
  append_rows ts c (p ∷ ps) file =
      entries ts (measured ts c p) >>= λ row. append_rows ts c ps (append_entry file (print p) row)

  -- the file for `c` consumers
  unfoldable pub csv_file : ℕ → ℕ → Option (List ℕ)
  csv_file ts c = create_file (columns ts) >>= λ file. append_rows ts c thread_numbers file
