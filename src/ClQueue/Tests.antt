-- ===== src/ClQueue/Tests.antt =====
-- `CLQueue` with 7 slots in a line and 2 lines, in the default mode.
use usable_lib.Prelude.{
  ℕ, ◌*◌, ◌<◌, ◌≤◌, ◌≡◌, ◌⊎◌, refl, true, false, Option, none, some, [], ◌∷◌, arith, ok, ltb,
  if◌then◌else◌,
}
use usable_lib.ClQueue.Layout.{count, rows-Layout}
use usable_lib.ClQueue.Represents.{Represents, Holds}
use usable_lib.ClQueue.Pushes.{emplace_impl-push}
use usable_lib.ClQueue.Init.{init, check_flags}
use usable_lib.ClQueue.Build.{init-ClQueue}
use usable_lib.ClQueue.{Line, ClQueue, line_of, slot_of, emplace_impl}

abbrev counters : ℕ → ℕ → ℕ → ℕ → (ℕ → Option ℕ) → Line ℕ
counters hf1 tf1 hf2 tf2 slots = record {
  hf1 = hf1;
  tf1 = tf1;
  hf2 = hf2;
  tf2 = tf2;
  slots = slots;
}

-- after two pushes and a pop
abbrev one_left : ClQueue ℕ
one_left = record {
  flags = 96;
  cls = λ l.
      if ltb l 1
      then counters 2 1 2 2 (λ j. none)
      else counters 1 1 2 1 (λ j. if ltb j 1 then some 5 else none);
  max_line = 2;
  max_size = 14;
  max_line_mask = 1;
  max_line_mask_bits = 1;
  dequeue_overcommit = 1;
  overcommit = 0;
  head = 2;
  tail = 1;
}

one_left-Represents : Represents 7 false one_left (5 ∷ [])
unfolding Holds count line_of slot_of
one_left-Represents = record {
  layout = rows-Layout 7 1 (omega arith);
  capacity = refl;
  head_lt = omega arith;
  until = refl;
  fits = omega arith;
  pushed = λ l h. ground arith;
  popped = λ l h. ground arith;
  early = λ l h. ground arith;
  producers = λ l h. ground arith;
  consumers = λ l h. ground arith;
  over = (omega arith, omega arith, refl);
  held = (refl, tt);
}

emplace_impl-push_example :
    (q' : ClQueue ℕ) × (emplace_impl 7 false false one_left 8 ≡ some (ok true, q'))
    × Represents 7 false q' (5 ∷ 8 ∷ [])
unfolding count line_of
emplace_impl-push_example =
    emplace_impl-push 7 false 8 one_left-Represents (omega arith) (omega arith)

-- the tail is in line 1
-- one line of one slot, taken
abbrev full_one : ClQueue ℕ
full_one = record {
  flags = 96;
  cls = λ l. counters 2 1 2 1 (λ j. some 5);
  max_line = 1;
  max_size = 1;
  max_line_mask = 0;
  max_line_mask_bits = 0;
  dequeue_overcommit = 0;
  overcommit = 0;
  head = 1;
  tail = 0;
}

abbrev raw : ℕ → Line ℕ
raw l = counters 0 0 0 0 (λ j. none)

-- 100 objects want 16 lines of 7 slots.
init-ClQueue_example :
    (q : ClQueue ℕ) × (init 7 false true raw 0 0 100 96 ≡ some (ok q))
    × Represents 7 false q []
    × (100 ≤ q.max_size)
    × ((q.max_size ≡ 7) ⊎ (q.max_size < 2 * 100))
unfolding check_flags
init-ClQueue_example =
    init-ClQueue 7 raw 0 0 96 true 100 4 refl (omega arith) (omega arith) (omega arith)
      (omega arith) (omega arith) refl
