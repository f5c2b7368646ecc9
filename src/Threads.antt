-- ===== src/Threads.antt =====
-- Threads over shared memory, interleaved one atomic access at a time. The accesses are
-- sequentially consistent; the orders that the source asks of the hardware are not modelled.
use usable_lib.Prelude.{
  ℕ, zero, suc, ◌+◌, ◌≤◌, ◌<◌, ◌≡◌, ◌≢◌, refl, subst, arith, dec_lt, ◌==◌, if◌then◌else◌,
  Bool-cases, inl, inr,
}

-- a family of local states, changed at one thread
abbrev pub update {ℓ} : {A : Type ℓ} → (ℕ → A) → ℕ → A → ℕ → A
update pc i p j = if i == j then p else pc j

pub update-keeps :
    {A : Type 0} (P : A → Type 0) (pc : ℕ → A) (i : ℕ) (p : A) (j : ℕ)
    → P p
    → (i ≢ j → P (pc j))
    → P (update pc i p j)
update-keeps P pc i p j new kept = elim (Bool-cases (i == j)) [
  | inl e ↦ rw e new
  | inr e ↦ rw e (kept (ground arith))
]

-- `Pc` is where a thread stands, `Mem` what the threads share.
pub record System (Mem Pc : Type 0) : Type 0 where
  pub mem : Mem
  pub pc : ℕ → Pc

module _ {Mem Pc : Type 0} (Move : Mem → Pc → Mem → Pc → Type 0) where
  -- One of the threads below `n` makes a move.
  pub data Step (n : ℕ) (s : System Mem Pc) : System Mem Pc → Type 0 where
    pick :
        (i : ℕ) {m : Mem} {p : Pc}
        → i < n
        → Move s.mem (s.pc i) m p
        → Step n s (record { mem = m; pc = update s.pc i p })

  pub data Reach (n : ℕ) (start : System Mem Pc) : System Mem Pc → Type 0 where
    here : Reach n start start
    later : {s t : System Mem Pc} → Reach n start s → Step n s t → Reach n start t

  -- What every move keeps holds in every reachable state.
  pub Reach-keeps :
      (P : System Mem Pc → Type 0) {n : ℕ} {start s : System Mem Pc}
      → ((s t : System Mem Pc) → Step n s t → P s → P t)
      → P start
      → Reach n start s
      → P s
  Reach-keeps P keep p here = p
  Reach-keeps P keep p (later r st) = keep _ _ st (Reach-keeps P keep p r)

-- The sum over the first `n` threads of what each one's state weighs.
module _ {Pc : Type 0} (weigh : Pc → ℕ) where
  pub tally : ℕ → (ℕ → Pc) → ℕ
  tally zero pc = 0
  tally (suc n) pc = tally n pc + weigh (pc n)

  tally-update_past :
      (n : ℕ) (pc : ℕ → Pc) (i : ℕ) (p : Pc) → n ≤ i → tally n (update pc i p) ≡ tally n pc
  unfolding tally
  tally-update_past zero pc i p h = refl
  tally-update_past (suc n) pc i p h = ground (arith, tally-update_past n pc i p)

  -- When thread `i` moves, its weight is exchanged.
  pub tally-update :
      (n : ℕ) (pc : ℕ → Pc) (i : ℕ) (p : Pc)
      → i < n
      → tally n (update pc i p) + weigh (pc i) ≡ tally n pc + weigh p
  unfolding tally
  tally-update zero pc i p h = absurd (omega arith)
  tally-update (suc n) pc i p h = elim (dec_lt i n) [
    | yes lt ↦ ground (arith, tally-update n pc i p lt)
    | no ge ↦ ground (arith, tally-update_past n pc i p)
  ]

  pub weigh-le-tally : (n : ℕ) (pc : ℕ → Pc) (i : ℕ) → i < n → weigh (pc i) ≤ tally n pc
  unfolding tally
  weigh-le-tally zero pc i h = absurd (omega arith)
  weigh-le-tally (suc n) pc i h = elim (dec_lt i n) [
    | yes lt ↦ omega (arith, weigh-le-tally n pc i lt)
    | no ge ↦ let e : i ≡ n = omega arith in rw e (omega arith)
  ]

  pub two-le-tally :
      (n : ℕ) (pc : ℕ → Pc) (i j : ℕ) → i < j → j < n → weigh (pc i) + weigh (pc j) ≤ tally n pc
  unfolding tally
  two-le-tally zero pc i j h k = absurd (omega arith)
  two-le-tally (suc n) pc i j h k = elim (dec_lt j n) [
    | yes lt ↦ omega (arith, two-le-tally n pc i j h lt)
    | no ge ↦
        let e : j ≡ n = omega arith in rw e (omega (arith, weigh-le-tally n pc i (omega arith)))
  ]

  pub tally-eq-zero : (n : ℕ) (pc : ℕ → Pc) → ((i : ℕ) → weigh (pc i) ≡ 0) → tally n pc ≡ 0
  unfolding tally
  tally-eq-zero zero pc h = refl
  tally-eq-zero (suc n) pc h = omega (arith, tally-eq-zero n pc h, h n)

  pub tally-le : (n : ℕ) (pc : ℕ → Pc) → ((p : Pc) → weigh p ≤ 1) → tally n pc ≤ n
  unfolding tally
  tally-le zero pc h = omega arith
  tally-le (suc n) pc h = omega (arith, tally-le n pc h, h (pc n))

-- A total that is not 0 comes from some thread.
pub tally-some :
    {Pc : Type 0} (weigh : Pc → ℕ) (n : ℕ) (pc : ℕ → Pc)
    → 1 ≤ tally weigh n pc
    → (i : ℕ) × (i < n) × (1 ≤ weigh (pc i))
unfolding tally
tally-some weigh zero pc h = absurd (omega arith)
tally-some weigh (suc n) pc h = elim (dec_lt 0 (weigh (pc n))) [
  | yes lt ↦ (n, omega arith, lt)
  | no ge ↦
      let rest = tally-some weigh n pc (omega arith) in (rest.0, omega (arith, rest.1), rest.2)
]

pub tally_mono :
    {Pc : Type 0} (u v : Pc → ℕ) (n : ℕ) (pc : ℕ → Pc)
    → ((p : Pc) → u p ≤ v p)
    → tally u n pc ≤ tally v n pc
unfolding tally
tally_mono u v zero pc h = omega arith
tally_mono u v (suc n) pc h = omega (arith, tally_mono u v n pc h, h (pc n))

-- A total of at most one is the weight of a single thread.
pub tally_unique :
    {Pc : Type 0} (weigh : Pc → ℕ) (n : ℕ) (pc : ℕ → Pc) (i j : ℕ)
    → i < n
    → j < n
    → weigh (pc i) ≡ 1
    → weigh (pc j) ≡ 1
    → tally weigh n pc ≤ 1
    → i ≡ j
tally_unique weigh n pc i j hi hj wi wj one = elim (dec_lt i j) [
  | yes lt ↦ absurd (omega (arith, two-le-tally weigh n pc i j lt hj))
  | no ge ↦ elim (dec_lt j i) [
    | yes lt ↦ absurd (omega (arith, two-le-tally weigh n pc j i lt hi))
    | no le ↦ omega arith
  ]
]

pub tally_add :
    {Pc : Type 0} (u v : Pc → ℕ) (n : ℕ) (pc : ℕ → Pc)
    → tally (λ p. u p + v p) n pc ≡ tally u n pc + tally v n pc
unfolding tally
tally_add u v zero pc = refl
tally_add u v (suc n) pc = omega (arith, tally_add u v n pc)

-- When only the first thread weighs anything, the total is its weight.
pub tally_first :
    {Pc : Type 0} (weigh : Pc → ℕ) (n : ℕ) (pc : ℕ → Pc)
    → 1 ≤ n
    → ((i : ℕ) → weigh (pc (i + 1)) ≡ 0)
    → tally weigh n pc ≡ weigh (pc 0)
unfolding tally
tally_first weigh zero pc h none_else = absurd (omega arith)
tally_first weigh (suc zero) pc h none_else = omega arith
tally_first weigh (suc (suc n)) pc h none_else =
    let next : n + 1 ≡ suc n = omega arith in
    let last : weigh (pc (suc n)) ≡ 0 = subst (λ i. weigh (pc i) ≡ 0) next (none_else n) in
    omega (arith, tally_first weigh (suc n) pc (omega arith) none_else, last)
