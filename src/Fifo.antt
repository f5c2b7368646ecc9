-- ===== src/Fifo.antt =====
-- The contract of both queues of conqueue.h: a first-in first-out queue of at most `cap` objects.
use usable_lib.Prelude.{
  ℕ, Bool, true, false, Option, none, some, List, [], ◌∷◌, ◌++◌, length, take, drop, ◌==◌,
  if◌then◌else◌, ◌-◌, min,
}

module _ {ℓ} {A : Type ℓ} where
  abbrev pub push : ℕ → List A → A → Bool × List A
  push cap xs x = if length xs == cap then (false, xs) else (true, xs ++ x ∷ [])

  abbrev pub pop : List A → Option A × List A
  pop [] = (none, [])
  pop (x ∷ xs) = (some x, xs)

  -- as many of `ys` as fit, in order
  abbrev pub push_bulk : ℕ → List A → List A → ℕ × List A
  push_bulk cap xs ys = (min (cap - length xs) (length ys), xs ++ take (cap - length xs) ys)

  -- at most `n` objects, the oldest first
  abbrev pub pop_bulk : ℕ → List A → List A × List A
  pop_bulk n xs = (take n xs, drop n xs)
