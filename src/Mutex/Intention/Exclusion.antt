-- ===== src/Mutex/Intention/Exclusion.antt =====
-- A promoted thread is alone, as long as the sharers fit the word.
use native.Mathlib.Nat.{mod-eq_of_lt, add-mod_right}
use usable_lib.Prelude.{
  ℕ, ◌+◌, ◌-◌, ◌*◌, ◌/◌, ◌%◌, ◌^◌, ◌≤◌, ◌<◌, ◌≡◌, ◌⊎◌, inl, inr, refl, ap, ◌∙◌, bit_or, arith,
}
use usable_lib.Prelude.Bits.{or_digit, or-zero}
use usable_lib.Threads.{
  System, Step, pick, Reach, Reach-keeps, update, tally, tally-update, weigh-le-tally, tally_unique,
  tally-eq-zero, tally-le, tally_mono,
}
use usable_lib.Mutex.Intention.{
  Pc, add_sharer, sub_sharer, idle, sharing, promoting, draining, exclusive, Move, loads, reloads,
  swap_wins, swap_fails, prompt_fails, prompt_starts, prompt_leaves, drain_ends, drain_goes_on,
  unlock, unlock_shared,
}

-- the threads that the word counts as sharers, those with the bit, and those promoted
abbrev counted : Pc → ℕ
counted sharing = 1
counted promoting = 1
counted _ = 0

abbrev flagged : Pc → ℕ
flagged promoting = 1
flagged draining = 1
flagged exclusive = 1
flagged _ = 0

abbrev owns : Pc → ℕ
owns exclusive = 1
owns _ = 0

-- What the word tells of the numbers of threads: counted, flagged, promoted.
abbrev Good : ℕ → ℕ → ℕ → ℕ → Type 0
Good l c f o = (l ≡ 2 * c + f) × (f ≤ 1) × ((o ≡ 0) ⊎ (c ≡ 0))

or-one : (l : ℕ) → bit_or l 1 ≡ l + (1 - l % 2)
or-one l = ground (arith, or_digit l 1, or-zero (l / 2))

add_sharer_lem : (w l : ℕ) → l + 2 < 2 ^ w → add_sharer w l ≡ l + 2
add_sharer_lem w l h = mod-eq_of_lt h

sub_sharer_lem : (w l : ℕ) → 2 ≤ l → l < 2 ^ w → sub_sharer w l ≡ l - 2
sub_sharer_lem w l h k =
    let e : l + 2 ^ w - 2 ≡ l - 2 + 2 ^ w = omega arith in
    ap (λ x. x % 2 ^ w) e ∙ add-mod_right (l - 2) (2 ^ w) ∙ mod-eq_of_lt (omega arith)

module _ (w n : ℕ) (few : 2 * n + 1 < 2 ^ w) where
  Move-Good :
      {l l' : ℕ} {p p' : Pc} (c c' f f' o o' : ℕ)
      → Move w l p l' p'
      → c' + counted p ≡ c + counted p'
      → f' + flagged p ≡ f + flagged p'
      → o' + owns p ≡ o + owns p'
      → (c ≤ n) × (c' ≤ n) × (o ≤ f) × (o' ≤ f')
      → Good l c f o
      → Good l' c' f' o'
  Move-Good {l} c c' f f' o o' loads ec ef eo b g = ground arith
  Move-Good {l} c c' f f' o o' (reloads odd) ec ef eo b g = ground arith
  Move-Good {l} c c' f f' o o' (swap_wins {v} even same) ec ef eo b g =
      ground (arith, add_sharer_lem w v)
  Move-Good {l} c c' f f' o o' (swap_fails even) ec ef eo b g = ground arith
  Move-Good {l} c c' f f' o o' (prompt_fails odd) ec ef eo b g = ground (arith, or-one l)
  Move-Good {l} c c' f f' o o' (prompt_starts even) ec ef eo b g = ground (arith, or-one l)
  Move-Good {l} c c' f f' o o' prompt_leaves ec ef eo b g = ground (arith, sub_sharer_lem w l)
  Move-Good {l} c c' f f' o o' (drain_ends empty) ec ef eo b g = ground arith
  Move-Good {l} c c' f f' o o' (drain_goes_on more) ec ef eo b g = ground arith
  Move-Good {l} c c' f f' o o' unlock ec ef eo b g = ground arith
  Move-Good {l} c c' f f' o o' unlock_shared ec ef eo b g = ground (arith, sub_sharer_lem w l)

-- The word of a new lock is 0.
abbrev pub start : System ℕ Pc
start = record { mem = 0; pc = λ _. idle }

module _ (w n : ℕ) (few : 2 * n + 1 < 2 ^ w) where
  pub Inv : System ℕ Pc → Type 0
  Inv s = Good s.mem (tally counted n s.pc) (tally flagged n s.pc) (tally owns n s.pc)

  Step-Inv : (s t : System ℕ Pc) → Step (Move w) n s t → Inv s → Inv t
  unfolding Inv
  Step-Inv s t (pick i {m} {p} lt mv) g =
      let pc' : ℕ → Pc = update s.pc i p in
      Move-Good w n few _ _ _ _ _ _ mv (tally-update counted n s.pc i p lt)
        (tally-update flagged n s.pc i p lt) (tally-update owns n s.pc i p lt)
        (
          tally-le counted n s.pc (λ p. ground arith),
          tally-le counted n pc' (λ p. ground arith),
          tally_mono owns flagged n s.pc (λ p. ground arith),
          tally_mono owns flagged n pc' (λ p. ground arith),
        )
        g

  Inv-start : Inv start
  unfolding Inv
  Inv-start =
      let none_counted : tally counted n start.pc ≡ 0 = tally-eq-zero counted n _ (λ _. refl) in
      let none_flagged : tally flagged n start.pc ≡ 0 = tally-eq-zero flagged n _ (λ _. refl) in
      (omega arith, omega arith, inr none_counted)

  Reach-Inv : {s : System ℕ Pc} → Reach (Move w) n start s → Inv s
  Reach-Inv r = Reach-keeps (Move w) Inv Step-Inv Inv-start r

  -- With at most 2 ^ (w - 1) - 1 threads, in any interleaving of the operations, a thread that
  -- `try_lock_prompt` has promoted is alone: no other thread shares the lock, is being promoted or
  -- has been.
  pub promoted_alone :
      {s : System ℕ Pc}
      → Reach (Move w) n start s
      → (i j : ℕ) → i < n
      → j < n
      → s.pc i ≡ exclusive
      → (flagged (s.pc j) ≡ 1) ⊎ (s.pc j ≡ sharing)
      → i ≡ j
  unfolding Inv
  promoted_alone {s} r i j hi hj ei (inl fj) =
      tally_unique flagged n s.pc i j hi hj (rw ei refl) fj (Reach-Inv r).1
  promoted_alone {s} r i j hi hj ei (inr sj) =
      ground
        (arith, Reach-Inv r, weigh-le-tally owns n s.pc i hi, weigh-le-tally counted n s.pc j hj)
