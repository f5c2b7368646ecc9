-- ===== src/ThreadLocal.antt =====
-- extend_new.h, class `thread_local_specific`: what each thread has stored, behind the key that POSIX
-- gives. `pointers` is what `pthread_getspecific` gives to a thread, and `values` is the heap.
pub mod Values
pub mod Tests
use usable_lib.Prelude.{ℕ, ◌+◌, Option, none, some, if◌then◌else◌, ◌==◌}
use usable_lib.Threads.{update}

pub record ThreadLocal (T : Type 0) : Type 0 where
  pub pointers : ℕ → Option ℕ
  pub values : ℕ → T
  pub next_pointer : ℕ

module _ {T : Type 0} where
  -- `new T(x)` and `pthread_setspecific`
  abbrev pub store_new : ThreadLocal T → ℕ → T → ThreadLocal T
  store_new s thread x = record {
    pointers = update s.pointers thread (some s.next_pointer);
    values = update s.values s.next_pointer x;
    next_pointer = s.next_pointer + 1;
  }

  -- both overloads of `set`, which `operator=` calls: the pointer that the reference is to
  pub set : ThreadLocal T → ℕ → T → ThreadLocal T × ℕ
  set s thread x = elim (s.pointers thread) [
    | none ↦ (store_new s thread x, s.next_pointer)
    | some p ↦ (record s { values = update s.values p x }, p)
  ]

  -- `get`, which the conversion calls, where `new T()` is `initial`
  pub get : T → ThreadLocal T → ℕ → ThreadLocal T × ℕ
  get initial s thread = elim (s.pointers thread) [
    | none ↦ (store_new s thread initial, s.next_pointer)
    | some p ↦ (s, p)
  ]

  -- `dtor_func`, when a thread ends
  pub thread_ends : ThreadLocal T → ℕ → ThreadLocal T
  thread_ends s thread = record s { pointers = update s.pointers thread none }
