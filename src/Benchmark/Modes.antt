-- ===== src/Benchmark/Modes.antt =====
-- The modes in which the queues are run.
use usable_lib.Prelude.{
  ℕ, ◌^◌, ◌≤◌, ◌<◌, ◌≡◌, refl, ◌∙◌, Bool, true, false, Option, none, some, List, [], arith, has_bit,
  if◌then◌else◌, ◌==◌, length, ok,
}
use usable_lib.ConQueue.Flags.{sp_enq, mp_enq, mp_rts_enq, sc_deq, mc_deq, mc_rts_deq, exact_sz}
use usable_lib.ConQueue.Init as ConInit
use usable_lib.ConQueue.Init.{set_bit}
use usable_lib.ClQueue.Init as ClInit
use usable_lib.ConQueue.{ConQueue}
use usable_lib.ConQueue.Alloc.{init_alloc-Represents}
use usable_lib.ConQueue.Represents as ConRepresents
use usable_lib.ClQueue.{Line, ClQueue}
use usable_lib.ClQueue.Represents as ClRepresents
use usable_lib.ClQueue.Build.{init-ClQueue}
use usable_lib.Prelude.Smear.{smear}
use usable_lib.Benchmark.{
  conq_flag_get, rte_mode, RteRingMode, spsc, mc, mp, mpmc, upper_power_of_2, iterations,
}

-- the flags by what they depend on: one producer, one consumer, and the default mode
flags_by : Bool → Bool → Bool → ℕ
flags_by p c ts =
    let flag =
      if p then set_bit 0 sp_enq else if ts then set_bit 0 mp_enq else set_bit 0 mp_rts_enq in
    if c then set_bit flag sc_deq else if ts then set_bit flag mc_deq else set_bit flag mc_rts_deq

-- what both constructors and the comparison need of the flags
record Accepted (p c : Bool) (flags : ℕ) : Type 0 where
  conqueue_takes : ConInit.check_flags flags ≡ none
  clqueue_takes : ClInit.check_flags flags ≡ none
  rounded : has_bit flags exact_sz ≡ false
  single_producer : has_bit flags sp_enq ≡ p
  single_consumer : has_bit flags sc_deq ≡ c

flags_by-Accepted : (p c ts : Bool) → Accepted p c (flags_by p c ts)
unfolding flags_by ConInit.check_flags ClInit.check_flags
flags_by-Accepted true true true = record {
  conqueue_takes = refl;
  clqueue_takes = refl;
  rounded = refl;
  single_producer = refl;
  single_consumer = refl;
}
flags_by-Accepted true true false = record {
  conqueue_takes = refl;
  clqueue_takes = refl;
  rounded = refl;
  single_producer = refl;
  single_consumer = refl;
}
flags_by-Accepted true false true = record {
  conqueue_takes = refl;
  clqueue_takes = refl;
  rounded = refl;
  single_producer = refl;
  single_consumer = refl;
}
flags_by-Accepted true false false = record {
  conqueue_takes = refl;
  clqueue_takes = refl;
  rounded = refl;
  single_producer = refl;
  single_consumer = refl;
}
flags_by-Accepted false true true = record {
  conqueue_takes = refl;
  clqueue_takes = refl;
  rounded = refl;
  single_producer = refl;
  single_consumer = refl;
}
flags_by-Accepted false true false = record {
  conqueue_takes = refl;
  clqueue_takes = refl;
  rounded = refl;
  single_producer = refl;
  single_consumer = refl;
}
flags_by-Accepted false false true = record {
  conqueue_takes = refl;
  clqueue_takes = refl;
  rounded = refl;
  single_producer = refl;
  single_consumer = refl;
}
flags_by-Accepted false false false = record {
  conqueue_takes = refl;
  clqueue_takes = refl;
  rounded = refl;
  single_producer = refl;
  single_consumer = refl;
}

conq_flag_get-Accepted : (p c ts : ℕ) → Accepted (p == 1) (c == 1) (conq_flag_get p c ts)
unfolding conq_flag_get flags_by
conq_flag_get-Accepted p c ts = flags_by-Accepted (p == 1) (c == 1) (ts == 0)

-- whether the ring has one producer, and one consumer
abbrev pub one_producer : RteRingMode → Bool
one_producer spsc = true
one_producer mc = true
one_producer mp = false
one_producer mpmc = false

abbrev pub one_consumer : RteRingMode → Bool
one_consumer spsc = true
one_consumer mc = false
one_consumer mp = true
one_consumer mpmc = false

-- With at least one thread on each side, the queues that are compared run in the same mode: the flags
-- have the bit for a single producer when the ring is one of a single producer, and so for consumers.
pub conq_flag_get-rte_mode :
    (p c ts : ℕ)
    → 1 ≤ p
    → 1 ≤ c
    → (has_bit (conq_flag_get p c ts) sp_enq ≡ one_producer (rte_mode p c))
      × (has_bit (conq_flag_get p c ts) sc_deq ≡ one_consumer (rte_mode p c))
unfolding rte_mode
conq_flag_get-rte_mode p c ts hp hc =
    let a = conq_flag_get-Accepted p c ts in
    (a.single_producer ∙ ground arith, a.single_consumer ∙ ground arith)

rounded_iterations : upper_power_of_2 iterations ≡ 2 ^ 20
unfolding upper_power_of_2 smear
rounded_iterations = refl

-- The two queues of the library that a run uses are built: for any numbers of threads, in either mode,
-- both constructors return an empty queue with room for 2 ^ 20 numbers at least, when the allocator gives
-- as many cells as it is asked for and a line of `CLQueue` has from 1 to 4095 slots.
pub queues_built :
    (p c ts slots : ℕ) (allocate : ℕ → List (Option ℕ)) (memory : ℕ → Line ℕ) (head tail : ℕ)
    → ((n : ℕ) → n ≤ length (allocate n))
    → 1 ≤ slots
    → slots < 2 ^ 12
    → ((q : ConQueue ℕ) × (ConInit.init_alloc allocate
            (upper_power_of_2 iterations)
            (conq_flag_get p c ts)
          ≡ ok q)
        × ConRepresents.Represents q []
        × (q.max_size ≡ 2 ^ 20))
      × ((q : ClQueue ℕ) × (ClInit.init slots false true memory head tail
              (upper_power_of_2 iterations)
              (conq_flag_get p c ts)
            ≡ some (ok q))
          × ClRepresents.Represents slots false q []
          × (2 ^ 20 ≤ q.max_size))
queues_built p c ts slots allocate memory head tail gives one few =
    let a = conq_flag_get-Accepted p c ts in
    rw rounded_iterations (
      init_alloc-Represents allocate (2 ^ 20) (conq_flag_get p c ts) (omega arith) (omega arith)
          a.conqueue_takes a.rounded (gives _),
      (let made =
            init-ClQueue slots memory head tail (conq_flag_get p c ts) true (2 ^ 20) 20 refl
              (omega arith) (omega arith) (omega arith) (omega arith) (omega arith)
              a.clqueue_takes in
          (made.0, made.1, made.2, made.3)),
    )
