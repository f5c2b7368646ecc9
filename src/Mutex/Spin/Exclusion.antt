-- ===== src/Mutex/Spin/Exclusion.antt =====
-- Each bit of the word has at most one holder, whatever the other bits are used for.
use native.Mathlib.Nat.{zero-div}
use usable_lib.Prelude.{
  ℕ, zero, suc, ◌+◌, ◌-◌, ◌/◌, bit_or, bit_xor, ◌%◌, ◌^◌, ◌≤◌, ◌<◌, ◌≡◌, refl, true, false, arith,
  ◌==◌, if◌then◌else◌,
}
use usable_lib.Prelude.Bits.{or-bit, xor-bit, pow-bit}
use Prim.Native.Nat.{differ}
use usable_lib.Threads.{
  System, Step, pick, Reach, Reach-keeps, tally, tally-update, tally_unique, tally-eq-zero,
}
use usable_lib.Mutex.Spin.{
  Pc, idle, holding, check_lock, Move, sees_locked, sees_free, or_wins, or_loses, unlock,
}

abbrev holds : ℕ → Pc → ℕ
holds b (holding c) = if c == b then 1 else 0
holds b _ = 0

-- a bit set that was clear, and a bit flipped
bit-taken :
    (l b c : ℕ)
    → check_lock l c ≡ false
    → bit_or l (2 ^ c) / 2 ^ b % 2 ≡ l / 2 ^ b % 2 + (if c == b then 1 else 0)
bit-taken l b c free = ground (arith, or-bit b l (2 ^ c), pow-bit b c)

bit-kept : (l b c : ℕ) → check_lock l c ≡ true → bit_or l (2 ^ c) / 2 ^ b % 2 ≡ l / 2 ^ b % 2
bit-kept l b c taken = ground (arith, or-bit b l (2 ^ c), pow-bit b c)

flip : (x y : ℕ) → x < 2 → y ≤ x → differ x y ≡ x - y
flip zero zero h k = refl
flip zero (suc y) h k = absurd (omega arith)
flip (suc zero) zero h k = refl
flip (suc zero) (suc zero) h k = refl
flip (suc zero) (suc (suc y)) h k = absurd (omega arith)
flip (suc (suc x)) y h k = absurd (omega arith)

bit-given :
    (l b c : ℕ)
    → (if c == b then 1 else 0) ≤ l / 2 ^ b % 2
    → bit_xor l (2 ^ c) / 2 ^ b % 2 ≡ l / 2 ^ b % 2 - (if c == b then 1 else 0)
bit-given l b c h =
    ground (arith, xor-bit b l (2 ^ c), pow-bit b c, flip (l / 2 ^ b % 2) (if c == b then 1 else 0))

Move-bit :
    {w l l' : ℕ} {p p' : Pc} (b t t' : ℕ)
    → Move w l p l' p'
    → t' + holds b p ≡ t + holds b p'
    → l / 2 ^ b % 2 ≡ t
    → l' / 2 ^ b % 2 ≡ t'
Move-bit b t t' (sees_locked i h e) ec g = omega arith
Move-bit b t t' (sees_free i h e) ec g = omega arith
Move-bit {l = l} b t t' (or_wins {i} e) ec g = omega (arith, bit-taken l b i e)
Move-bit {l = l} b t t' (or_loses {i} e) ec g = omega (arith, bit-kept l b i e)
Move-bit {l = l} b t t' (unlock {i}) ec g = ground (arith, bit-given l b i)

-- The word of a new lock is 0.
abbrev pub start : System ℕ Pc
start = record { mem = 0; pc = λ _. idle }

module _ (w n : ℕ) where
  -- Each bit of the word is the number of its holders.
  pub Inv : System ℕ Pc → Type 0
  Inv s = (b : ℕ) → s.mem / 2 ^ b % 2 ≡ tally (holds b) n s.pc

  Step-Inv : (s t : System ℕ Pc) → Step (Move w) n s t → Inv s → Inv t
  unfolding Inv
  Step-Inv s t (pick i {m} {p} lt mv) g b =
      Move-bit b _ _ mv (tally-update (holds b) n s.pc i p lt) (g b)

  Inv-start : Inv start
  unfolding Inv
  Inv-start b = omega (arith, zero-div (2 ^ b), tally-eq-zero (holds b) n start.pc (λ _. refl))

  Reach-Inv : {s : System ℕ Pc} → Reach (Move w) n start s → Inv s
  Reach-Inv r = Reach-keeps (Move w) Inv Step-Inv Inv-start r

  -- For any number of threads and in any interleaving of the operations on all the bits of the
  -- word, two threads that both hold the lock of bit `b` are the same thread.
  pub holder_alone :
      {s : System ℕ Pc}
      → Reach (Move w) n start s
      → (i j b : ℕ) → i < n
      → j < n
      → s.pc i ≡ holding b
      → s.pc j ≡ holding b
      → i ≡ j
  unfolding Inv
  holder_alone {s} r i j b hi hj ei ej =
      let one : holds b (holding b) ≡ 1 = ground arith in
      tally_unique (holds b) n s.pc i j hi hj (rw ei one) (rw ej one) (omega (arith, Reach-Inv r b))
