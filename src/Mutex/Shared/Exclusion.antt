-- ===== src/Mutex/Shared/Exclusion.antt =====
-- A writer is alone, as long as the readers fit the word.
use native.Mathlib.Nat.{mod-eq_of_lt, add-mod_right}
use usable_lib.Prelude.{
  ℕ, ◌+◌, ◌-◌, ◌*◌, ◌/◌, ◌%◌, ◌^◌, ◌≤◌, ◌<◌, ◌≡◌, ◌⊎◌, inl, inr, refl, ap, ◌∙◌, bit_xor, arith,
}
use usable_lib.Prelude.Bits.{xor_digit, xor-zero}
use usable_lib.Threads.{
  System, Step, pick, Reach, Reach-keeps, update, tally, tally-update, weigh-le-tally, tally_unique,
  tally-eq-zero, tally-le, tally_mono,
}
use usable_lib.Mutex.Shared.{
  Pc, add_reader, sub_reader, idle, reading, writing, Move, try_lock_wins, try_lock_fails,
  lock_shared_enters, lock_shared_waits, wait_ends, wait_goes_on, try_lock_shared_enters,
  try_lock_shared_counts, try_lock_shared_fails, unlock, unlock_shared,
}

-- the threads that the word counts as readers, those that read, and the writers
abbrev counted : Pc → ℕ
counted idle = 0
counted writing = 0
counted _ = 1

abbrev reads : Pc → ℕ
reads reading = 1
reads _ = 0

abbrev writes : Pc → ℕ
writes writing = 1
writes _ = 0

-- What the word tells of the numbers of threads: counted, reading, writing.
abbrev Good : ℕ → ℕ → ℕ → ℕ → Type 0
Good l c r wr = (l ≡ 2 * c + wr) × (wr ≤ 1) × ((wr ≡ 0) ⊎ (r ≡ 0))

xor-one : (l : ℕ) → l % 2 ≡ 1 → bit_xor l 1 ≡ l - 1
xor-one l h = ground (arith, xor_digit l 1, xor-zero (l / 2))

add_reader_lem : (w l : ℕ) → l + 2 < 2 ^ w → add_reader w l ≡ l + 2
add_reader_lem w l h = mod-eq_of_lt h

sub_reader_lem : (w l : ℕ) → 2 ≤ l → l < 2 ^ w → sub_reader w l ≡ l - 2
sub_reader_lem w l h k =
    let e : l + 2 ^ w - 2 ≡ l - 2 + 2 ^ w = omega arith in
    ap (λ x. x % 2 ^ w) e ∙ add-mod_right (l - 2) (2 ^ w) ∙ mod-eq_of_lt (omega arith)

module _ (w n : ℕ) (few : 2 * n + 1 < 2 ^ w) where
  Move-Good :
      {l l' : ℕ} {p p' : Pc} (c c' r r' wr wr' : ℕ)
      → Move w l p l' p'
      → c' + counted p ≡ c + counted p'
      → r' + reads p ≡ r + reads p'
      → wr' + writes p ≡ wr + writes p'
      → (c ≤ n) × (c' ≤ n) × (r ≤ c) × (r' ≤ c')
      → Good l c r wr
      → Good l' c' r' wr'
  Move-Good {l} c c' r r' wr wr' (try_lock_wins free) ec er ew b g = ground arith
  Move-Good {l} c c' r r' wr wr' try_lock_fails ec er ew b g = ground arith
  Move-Good {l} c c' r r' wr wr' (lock_shared_enters even) ec er ew b g =
      ground (arith, add_reader_lem w l)
  Move-Good {l} c c' r r' wr wr' (lock_shared_waits odd) ec er ew b g =
      ground (arith, add_reader_lem w l)
  Move-Good {l} c c' r r' wr wr' (wait_ends even) ec er ew b g = ground arith
  Move-Good {l} c c' r r' wr wr' (wait_goes_on odd) ec er ew b g = ground arith
  Move-Good {l} c c' r r' wr wr' (try_lock_shared_enters even) ec er ew b g =
      ground (arith, add_reader_lem w l)
  Move-Good {l} c c' r r' wr wr' (try_lock_shared_counts odd) ec er ew b g =
      ground (arith, add_reader_lem w l)
  Move-Good {l} c c' r r' wr wr' try_lock_shared_fails ec er ew b g =
      ground (arith, sub_reader_lem w l)
  Move-Good {l} c c' r r' wr wr' unlock ec er ew b g = ground (arith, xor-one l)
  Move-Good {l} c c' r r' wr wr' unlock_shared ec er ew b g = ground (arith, sub_reader_lem w l)

-- The word of an idle lock is 0.
abbrev pub start : System ℕ Pc
start = record { mem = 0; pc = λ _. idle }

module _ (w n : ℕ) (few : 2 * n + 1 < 2 ^ w) where
  pub Inv : System ℕ Pc → Type 0
  Inv s = Good s.mem (tally counted n s.pc) (tally reads n s.pc) (tally writes n s.pc)

  Step-Inv : (s t : System ℕ Pc) → Step (Move w) n s t → Inv s → Inv t
  unfolding Inv
  Step-Inv s t (pick i {m} {p} lt mv) g =
      let pc' : ℕ → Pc = update s.pc i p in
      Move-Good w n few _ _ _ _ _ _ mv (tally-update counted n s.pc i p lt)
        (tally-update reads n s.pc i p lt) (tally-update writes n s.pc i p lt)
        (
          tally-le counted n s.pc (λ p. ground arith),
          tally-le counted n pc' (λ p. ground arith),
          tally_mono reads counted n s.pc (λ p. ground arith),
          tally_mono reads counted n pc' (λ p. ground arith),
        )
        g

  Inv-start : Inv start
  unfolding Inv
  Inv-start =
      let none_counted : tally counted n start.pc ≡ 0 = tally-eq-zero counted n _ (λ _. refl) in
      let none_writes : tally writes n start.pc ≡ 0 = tally-eq-zero writes n _ (λ _. refl) in
      (omega arith, omega arith, inl none_writes)

  Reach-Inv : {s : System ℕ Pc} → Reach (Move w) n start s → Inv s
  Reach-Inv r = Reach-keeps (Move w) Inv Step-Inv Inv-start r

  -- With at most 2 ^ (w - 1) - 1 threads, in any interleaving of the operations, a thread that
  -- writes is alone: no other thread reads or writes.
  pub writer_alone :
      {s : System ℕ Pc}
      → Reach (Move w) n start s
      → (i j : ℕ) → i < n
      → j < n
      → s.pc i ≡ writing
      → (s.pc j ≡ writing) ⊎ (s.pc j ≡ reading)
      → i ≡ j
  unfolding Inv
  writer_alone {s} r i j hi hj wi (inl wj) =
      tally_unique writes n s.pc i j hi hj (rw wi refl) (rw wj refl) (Reach-Inv r).1
  writer_alone {s} r i j hi hj wi (inr wj) =
      ground
        (arith, Reach-Inv r, weigh-le-tally writes n s.pc i hi, weigh-le-tally reads n s.pc j hj)
