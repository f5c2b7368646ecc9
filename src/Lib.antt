-- ===== src/Lib.antt =====
-- Verification of usable_lib, a collection of C++ headers that are used independently of each
-- other: concurrent queues, locks, allocators, caches and small tools.
--
-- Modules and the code they model:
--
--   ConQueue, conqueue.h: class `ConQueue`, the bounded ring buffer. The state is the class's
--     fields: `ring`, `flags`, `count_mask`, `max_size` and the four positions. `aligned_size`,
--     `to_id`, `default_update_ht`, `rts_update_ht`, `emplace`, `pop`, `push_bulk`, `pop_bulk`,
--     `size`, `empty`, `full`, `top` and `clear` have the names of the methods, and `init` is the
--     constructor. `pop_bulk` cuts the length of its range to 32 bits and `pop_count` is the rest of it.
--     Positions and counters are 32-bit words with their wrap-around written out. The
--     calls run one at a time; a call that would read a cell without an object or wait forever
--     returns `none`.
--       Flags are the bits of `ConQueueMode`; Window, Represents say when a queue holds a list;
--       Calls, Bulk, Init, Observe are the operations; Session is any sequence of calls; Wrap is
--       about the positions at 2^32.
--   ClQueue, conqueue.h: class `CLQueue`, whose cache lines are filled in turn. The state is the
--     class's fields, with `cls` as a function from the index of a line; `s` is `SLOT_MAX_INLINE`,
--     `block` is `USE_BLOCK`. `line_of` and `slot_of` are `get_li` and `get_si`; `commit` and
--     `release` are the parts of `emplace_impl` and `pop` from the object's construction, or its
--     move out, on. The calls run one at a time, as for `ConQueue`. Destroying a slot without an object
--     changes nothing, which is right where the destructor is trivial; `init` is told by `trivial`
--     whether it is, and returns `none` where another one would run on memory without objects.
--       Layout is which positions share a line; Turns and Represents say when a queue holds a list;
--       Pushes, Pops, Init, Build and Clear are the operations; Wrap is where the counters and the blocks
--       go wrong. The rounding loop of the constructor takes its rounds as fuel: 32 are enough
--       whenever it ends.
--   Fifo: the bounded first-in first-out list that a queue promises to be.
--   Mutex, extend_mutex.h: the locks that the file implements on one atomic word, `Spin`
--     (`__spin_mutex_impl`), `Ticket` (`ticket_mutex`), `Shared` (`__shared_mutex_impl`) and
--     `Intention` (`__intention_mutex_impl`). `Pc` is where a thread stands, and `Move` has a
--     constructor for each outcome of each atomic access of the operations. Words have `w` bits, a
--     parameter that stands for the width of the template argument.
--   SegAllocator, seg_allocator.h: class `SegAllocator`, whose fields `free_seg_set_off` and
--     `free_seg_set_siz` are the lists `by_off` and `by_siz`, with the operations of `std::map`
--     (OffMap) and `std::set` (SizeSet) that the class uses. `create` is the constructor; `allocate`,
--     `placement_allocate` and `deallocate` have the names of the methods, `merge` is the `switch` of
--     `deallocate`. The reverse iterator of `placement_allocate` is followed through the changes of the
--     map; where it stands for no entry, the result is `none`. Reverse is class `SegAllocatorReverse`.
--     Sizes and addresses are 64-bit words.
--       Segs is the set of free addresses; Freeing, Taking, Taken and Placement say what the
--       operations do to the map, Entries and Keys what they add and remove; Validity, Allocate,
--       Deallocate, Placing and OutOfStep are about whole calls.
--   PlAllocator, pl_allocator.h: class `pl_allocator` for one thread, over an allocator that is a
--     parameter (`Alloc`); Owned is who has which object, with the laws assumed of that allocator.
--   TcQueue, tcq.h: `task_enqueue` of class `TCQueue` as moves of threads, and `process_batch`. `Shared`
--     is the class's fields that threads share, a slot of `queue` stands for the same index of
--     `uid_queue`, `task_queue` and `pro_queue`, and a task is its UID. The two locks are taken at
--     their word, which Mutex is about, but for the readers of `wlck`, whose count wraps at 2^7 as in
--     the 8-bit lock; the leader may stop polling at any time, as the clock decides.
--     Where a leader or a follower yields and tries again, `Move` has a move back to `retry`.
--       Counts and Weights are how many threads stand where; Steps and Slots are what each move
--       keeps; Whole is what holds in every state reached; Batch is the map of UIDs and
--       `process_batch`, whose hook is a parameter, and Promises what it gives.
--   LruCache, cache.h: class `LRUCache`. `lru_list` has nodes with their keys, and a node stands for the
--     iterator to it; `put` and `get` have the names of the methods, and `update_entry`, `evict` and
--     `push_entry` are the three ways through `put`. Keys are numbers. A call that would move a node that
--     is not in the list returns `none`. Recency and Holds relate it to a list of pairs, Calls is what
--     the calls do.
--   CachedBind, cache.h: class `cached_bind_helper`, where a number stands for a tuple of arguments. The
--     function is a parameter, and so is what is left of arguments that are moved into it; `call_bound` is
--     what `cached_bind` returns, which passes the same arguments at each call.
--   CsvFile, csv.h: class `CSVFileStream` on the contents of the file. `open_file` and `create_file` are
--     its constructors, `append_entry` is `appendEntry`. Characters are their codes. The loop that reads
--     the header takes its rounds as fuel: as many as the line has characters, and one, are enough.
--   Mbench, mbench.h: the operations that `run_test_task` of class `mbench_base` gives to its threads
--     (Ranges), and the body of a thread with the phases that it reports (Phases), without the clock and
--     the barrier. `thread_body` runs one thread alone; `output_time` is what the others have counted.
--   Benchmark, queue-bench/benchmark.cc: the modes and sizes of the queues that are run, the check of the
--     sum, and the files. `measured` and `entries` are a round of `main`, `append_rows` its inner loop,
--     and `csv_file` the body of its outer one. A run's throughput is a parameter. `test_thread_op` is
--     one round of the loops of that method, on `ConQueue`.
--       Modes, Runs, Delivery and Files are about what its sections do; they use what is proved of
--       ConQueue, ClQueue, Mbench and CsvFile.
--   RteRing, queue-bench/rte_ring.h: class `RteRing`, with the names of its methods, one call at a time.
--     The calls for several objects are `enqueue_bulk` and `dequeue_bulk`. Laps is what `dequeue` finds
--     of what `enqueue` has put in, Singles compares the calls for one and for several objects.
--   ThreadPool, thread_pool.h: class `ThreadPool`. `execute_tid` is the choice that `execute` makes;
--     `Move` has a constructor for each step of `routine` of one worker (thread 0), of `execute_forward`
--     and of `~Worker`. Taking the lock is a move of its own, and so are the test of the predicate and
--     blocking, and the check of `stop` and the insertion, which only the lock keeps together. A task is a
--     number.
--       Choice is about the choice, Steps what each move keeps, Whole what holds in every state.
--   Histogram, statistic.h: class `Histogram`, with the names of its methods. The arithmetic of
--     `double` is the record `Double` in Arithmetic; an `int` that overflows gives
--     `none`. Counting, Percentile and Merging are about `add`, `percentile` and `merge`.
--   Statistics, statistic.h: the functions on ranges, over the same `Double`; Moments is about those
--     that take an operation.
--   ExtendNew, extend_new.h: `aligned_new`, `aligned_delete` and the flexible arrays, over an allocator
--     that is a parameter. `operator_new`, `flexible_init`, `flexible_done` and `operator_delete` are the
--     members of `__flexible_array_impl__`. Objects is about the loops, Flexible about a whole array.
--   ThreadLocal, extend_new.h: class `thread_local_specific`, on a heap. Values is what each thread sees.
--   Dlog, dlog.h: the macros, as the list of what they print and do. `c_string` ends a text at
--     its first character of code 0. Formats is how `printf` reads the texts they put together, Asserts
--     what a comparison that fails does.
--   Threads: any number of threads that make such moves in any order, and what is reachable.
--   Prelude: lists, maps, machine words, bits, Boolean tests and results that the others share.
--
-- The two queues share their mode bits and the contract in Fifo, and Benchmark uses both, with Mbench and
-- CsvFile; no other part uses another. The models of the queues have no interleavings of calls, and the
-- memory of the locks, of `TCQueue` and of `ThreadPool` is sequentially consistent. Not modelled are the
-- locks that wrap those of POSIX, `zipf_distribution` of statistic.h, which draws random numbers, the
-- compile-time function_traits.h, and the destructors but that of a worker and those of extend_new.h; moodycamel.h and
-- atomic_queue.h under queue-bench are copies of other projects, which are kept there for comparison.
--
-- No definition but that rounding loop and the one that reads a header runs on fuel. The loop of
-- `pop_bulk` for a single consumer recurs on the count it was called with, which bounds it in the
-- source; a lock's loops are moves that can repeat.
pub mod RteRing
pub mod Statistics
pub mod Prelude
pub mod Fifo
pub mod ConQueue
pub mod ClQueue
pub mod Threads
pub mod TcQueue
pub mod LruCache
pub mod CachedBind
pub mod CsvFile
pub mod Mbench
pub mod ThreadPool
pub mod Histogram
pub mod ExtendNew
pub mod ThreadLocal
pub mod Benchmark
pub mod Dlog
pub mod Mutex
pub mod PlAllocator
pub mod SegAllocator
