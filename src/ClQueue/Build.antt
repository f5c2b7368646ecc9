-- ===== src/ClQueue/Build.antt =====
-- What the constructor of `CLQueue` builds, without blocks.
use native.Mathlib.Nat.{mul-div_right}
use usable_lib.Prelude.{
  Bool, true, ◌||◌, ℕ, ◌-◌, ◌*◌, ◌/◌, ◌^◌, ◌≤◌, ◌<◌, ◌≡◌, ◌⊎◌, inl, inr, refl, ap, ◌∙◌, sym, subst,
  arith, false, none, some, ok, [], ◌==◌,
}
use usable_lib.ClQueue.Layout.{Layout, rows-Layout}
use usable_lib.ClQueue.Represents.{Represents}
use usable_lib.ClQueue.Init.{check_flags, built, init, round_up_least, popcount, popcount-ones}
use usable_lib.ClQueue.Clear.{Sized, built-Represents}
use usable_lib.ClQueue.{Line, ClQueue, clear, line_of, slot_of}

module _ {A : Type 0} (slots : ℕ) (memory : ℕ → Line A) (head tail flags : ℕ) where
  doubled-Sized :
      (j : ℕ)
      → 0 < slots
      → j ≤ 32
      → Sized slots false (built slots false memory head tail flags (slots * 2 ^ j))
  doubled-Sized j pos le =
      let lines : slots * 2 ^ j / slots ≡ 2 ^ j = mul-div_right (2 ^ j) pos in
      record {
        layout =
            subst
              (λ n.
                Layout slots n (line_of slots false (n - 1))
                  (slot_of slots false (popcount 32 (n - 1))))
              (sym lines)
              (subst
                (λ b.
                  Layout slots (2 ^ j) (line_of slots false (2 ^ j - 1)) (slot_of slots false b))
                (sym (popcount-ones 32 j le)) (rows-Layout slots j pos));
        capacity = ap (λ n. slots * n) (sym lines);
      }

  -- Without USE_BLOCK, for objects whose destructor does nothing, or else when the memory of the queue
  -- happens to have the same head and tail: with compatible flags and a positive number of slots in a line,
  -- when a doubling of that number covers a positive size within 32 bits, the constructor returns an empty
  -- queue. Its capacity covers the size, and is below twice the size unless it is one line.
  pub init-ClQueue :
      (trivial : Bool) (max_size k : ℕ)
      → (trivial || head == tail) ≡ true
      → 0 < slots
      → 0 < max_size
      → k ≤ 31
      → max_size ≤ slots * 2 ^ k
      → slots * 2 ^ k < 2 ^ 32
      → check_flags flags ≡ none
      → (q : ClQueue A) × (init slots false trivial memory head tail max_size flags ≡ some (ok q))
        × Represents slots false q []
        × (max_size ≤ q.max_size)
        × ((q.max_size ≡ slots) ⊎ (q.max_size < 2 * max_size))
  unfolding init
  init-ClQueue trivial max_size k harmless pos some_size le covers small fine =
      let (j, jle, ends, enough, least) =
        round_up_least 32 k slots max_size (omega arith) covers small pos in
      let nonzero : (max_size == 0) ≡ false = ground arith in
      let b : ClQueue A = built slots false memory head tail flags (slots * 2 ^ j) in
      let (empty, size) =
        built-Represents slots false b (doubled-Sized j pos (omega arith)) refl refl in
      (
        clear slots false b,
        rw (nonzero, fine, ends, harmless) refl,
        empty,
        omega (arith, size),
        elim least [
          | inl z ↦ inl (size ∙ ap (λ i. slots * 2 ^ i) z ∙ omega arith)
          | inr l ↦ inr (omega (arith, size))
        ],
      )
