-- ===== src/Mutex/Shared/Overflow.antt =====
-- The bound on the threads is needed: the count of the readers wraps.
use native.Mathlib.Nat.{mod-add-mod, mod_self, zero-mod, one-le-pow}
use usable_lib.Prelude.Bits.{mod_double, twice_pow}
use usable_lib.Prelude.{
  ℕ, zero, suc, ◌+◌, ◌*◌, ◌%◌, ◌^◌, ◌≤◌, ◌<◌, ◌≡◌, ap, ◌∙◌, sym, subst, false, has_bit, arith, ltb,
  if◌then◌else◌,
}
use usable_lib.Threads.{System, pick, Reach, here, later}
use usable_lib.Mutex.Shared.{
  Pc, idle, reading, writing, Move, add_reader, try_lock_wins, lock_shared_enters,
}
use usable_lib.Mutex.Shared.Exclusion.{start}

-- The first `k` threads read.
abbrev readers : ℕ → ℕ → System ℕ Pc
readers w k = record { mem = 2 * k % 2 ^ w; pc = λ j. if ltb j k then reading else idle }

module _ (v n : ℕ) where
  one_more : (k : ℕ) → add_reader (suc v) (2 * k % 2 ^ suc v) ≡ 2 * (k + 1) % 2 ^ suc v
  one_more k = mod-add-mod (2 * k) (2 ^ suc v) 2 ∙ ap (λ x. x % 2 ^ suc v) (omega arith)

  even_word : (k : ℕ) → has_bit (2 * k % 2 ^ suc v) 1 ≡ false
  even_word k = ground (arith, mod_double (2 * k) (2 ^ v), twice_pow v)

  -- A state is its word and its threads.
  same_state :
      {m m' : ℕ} {pc pc' : ℕ → Pc}
      → m ≡ m'
      → ((j : ℕ) → pc j ≡ pc' j)
      → ◌≡◌ {A = System ℕ Pc} (record { mem = m; pc = pc }) (record { mem = m'; pc = pc' })
  same_state e h i = record { mem = e i; pc = λ j. h j i }

  -- thread `k` of `readers w k` moves as an idle one
  from_idle :
      (k : ℕ) {m : ℕ} {p : Pc}
      → Move (suc v) (readers (suc v) k).mem idle m p
      → Move (suc v) (readers (suc v) k).mem ((readers (suc v) k).pc k) m p
  from_idle k {m} {p} mv =
      let e : idle ≡ (readers (suc v) k).pc k = ground arith in
      subst (λ here. Move (suc v) (readers (suc v) k).mem here m p) e mv

  readers-Reach : (k : ℕ) → k ≤ n → Reach (Move (suc v)) n start (readers (suc v) k)
  readers-Reach zero h =
      subst (Reach (Move (suc v)) n start)
        (same_state (sym (zero-mod (2 ^ suc v))) (λ j. ground arith)) here
  readers-Reach (suc k) h =
      subst (Reach (Move (suc v)) n start)
        (same_state (one_more k ∙ ap (λ x. 2 * x % 2 ^ suc v) (omega arith)) (λ j. ground arith))
        (later (readers-Reach k (omega arith))
          (pick k h (from_idle k (lock_shared_enters (even_word k)))))

  full_word : 2 * 2 ^ v % 2 ^ suc v ≡ 0
  full_word = rw (twice_pow v).0 (mod_self (2 * 2 ^ v))

  -- With more than 2 ^ v threads on a word of v + 1 bits, a state is reachable in which thread 0
  -- reads and thread 2 ^ v writes.
  pub writer_among_readers :
      2 ^ v < n
      → (s : System ℕ Pc) × Reach (Move (suc v)) n start s
        × (s.pc 0 ≡ reading)
        × (s.pc (2 ^ v) ≡ writing)
  writer_among_readers h = (
    _,
    later (readers-Reach (2 ^ v) (omega arith))
        (pick (2 ^ v) {p = writing} h (from_idle (2 ^ v) (try_lock_wins full_word))),
    ground (arith, one-le-pow v 2),
    ground arith,
  )
