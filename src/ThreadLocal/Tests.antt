-- ===== src/ThreadLocal/Tests.antt =====
-- Two threads, of which the first has stored a value.
use usable_lib.Prelude.{ℕ, Option, none, some, arith, if◌then◌else◌, ◌==◌}
use usable_lib.ThreadLocal.{ThreadLocal}
use usable_lib.ThreadLocal.Values.{IsOwn}

abbrev only_first : ℕ → Option ℕ
only_first i = if i == 0 then some 0 else none

abbrev stored : ThreadLocal ℕ
stored = record { pointers = only_first; values = λ p. 5; next_pointer = 1 }

stored-IsOwn : IsOwn stored
stored-IsOwn = record {
  apart = λ i j p e f. ground (arith, e, f);
  given = λ i p e. ground (arith, e);
}
