-- ===== src/Mutex/Ticket/Serving.antt =====
-- The tickets given and not yet back are those from the served one up to the next one, each with
-- one thread.
use usable_lib.Prelude.{
  ℕ, ◌+◌, ◌-◌, ◌%◌, ◌^◌, ◌≤◌, ◌<◌, ◌≡◌, ◌⊎◌, inl, inr, refl, arith, ◌==◌, if◌then◌else◌, ltb, sym,
  subst,
}
use usable_lib.Threads.{
  System, Step, pick, Reach, Reach-keeps, update, update-keeps, tally, tally-some, tally-update,
  weigh-le-tally, tally_unique, tally-eq-zero, tally-le,
}
use usable_lib.Mutex.Ticket.{
  Word, Pc, idle, waits, tries, holds, Move, takes, turn_comes, turn_not_yet, try_sees_busy,
  try_sees_free, swap_wins, swap_fails, unlock,
}

-- the threads with ticket `b`, and those with any
abbrev has : ℕ → Pc → ℕ
has b (waits t) = if t == b then 1 else 0
has b (holds t) = if t == b then 1 else 0
has b _ = 0

abbrev out : Pc → ℕ
out (waits _) = 1
out (holds _) = 1
out _ = 0

-- how far ticket `b` is behind the served one
abbrev behind : ℕ → ℕ → ℕ
behind l b = (b + 2 ^ 16 - l) % 2 ^ 16

-- The words with `q` tickets out, and the number of threads with ticket `b`.
abbrev Halves : Word → ℕ → Type 0
Halves m q = (m.h < 2 ^ 16) × (m.l < 2 ^ 16) × (m.h ≡ (m.l + q) % 2 ^ 16)

abbrev Given : Word → ℕ → ℕ → ℕ → Type 0
Given m q b k = k ≡ (if ltb (behind m.l b) q then 1 else 0)

-- What a thread's own state tells: a holder has the served ticket.
abbrev Served : Word → Pc → Type 0
Served m (holds t) = t ≡ m.l
Served m _ = Unit

Move-Halves :
    {m m' : Word} {p p' : Pc} (q q' : ℕ)
    → Move m p m' p'
    → q' + out p ≡ q + out p'
    → q ≤ 2 ^ 16
    → q' ≤ 2 ^ 16
    → out p ≤ q
    → Halves m q
    → Halves m' q'
Move-Halves q q' takes eq hq hq' ho g = ground arith
Move-Halves q q' (turn_comes e) eq hq hq' ho g = ground arith
Move-Halves q q' (turn_not_yet e) eq hq hq' ho g = ground arith
Move-Halves q q' (try_sees_busy e) eq hq hq' ho g = ground arith
Move-Halves q q' (try_sees_free e) eq hq hq' ho g = ground arith
Move-Halves q q' (swap_wins e e') eq hq hq' ho g = ground arith
Move-Halves q q' swap_fails eq hq hq' ho g = ground arith
Move-Halves q q' unlock eq hq hq' ho g = ground arith

Move-Given :
    {m m' : Word} {p p' : Pc} (b q q' k k' : ℕ)
    → b < 2 ^ 16
    → Move m p m' p'
    → q' + out p ≡ q + out p'
    → k' + has b p ≡ k + has b p'
    → q ≤ 2 ^ 16
    → q' ≤ 2 ^ 16
    → out p ≤ q
    → Halves m q
    → Served m p
    → Given m q b k
    → Given m' q' b k'
Move-Given b q q' k k' hb takes eq ek hq hq' ho g sv c = ground arith
Move-Given b q q' k k' hb (turn_comes e) eq ek hq hq' ho g sv c = ground arith
Move-Given b q q' k k' hb (turn_not_yet e) eq ek hq hq' ho g sv c = ground arith
Move-Given b q q' k k' hb (try_sees_busy e) eq ek hq hq' ho g sv c = ground arith
Move-Given b q q' k k' hb (try_sees_free e) eq ek hq hq' ho g sv c = ground arith
Move-Given b q q' k k' hb (swap_wins e e') eq ek hq hq' ho g sv c = ground arith
Move-Given b q q' k k' hb swap_fails eq ek hq hq' ho g sv c = ground arith
Move-Given b q q' k k' hb unlock eq ek hq hq' ho g sv c = ground arith

-- the mover's own state, and what another thread's state tells after the move
Move-Served : {m m' : Word} {p p' : Pc} → Move m p m' p' → Served m p → Served m' p'
Move-Served takes sv = tt
Move-Served (turn_comes e) sv = sym e
Move-Served (turn_not_yet e) sv = tt
Move-Served (try_sees_busy e) sv = tt
Move-Served (try_sees_free e) sv = tt
Move-Served (swap_wins e e') sv = refl
Move-Served swap_fails sv = tt
Move-Served unlock sv = tt

Move-l : {m m' : Word} {p p' : Pc} → Move m p m' p' → Served m p → (m'.l ≡ m.l) ⊎ (has m.l p ≡ 1)
Move-l takes sv = inl refl
Move-l (turn_comes e) sv = inl refl
Move-l (turn_not_yet e) sv = inl refl
Move-l (try_sees_busy e) sv = inl refl
Move-l (try_sees_free e) sv = inl refl
Move-l (swap_wins e e') sv = inl (sym e')
Move-l swap_fails sv = inl refl
Move-l unlock sv = inr (ground arith)

Served-kept : (m m' : Word) (p : Pc) → (m'.l ≡ m.l) ⊎ (has m.l p ≡ 0) → Served m p → Served m' p
Served-kept m m' idle e sv = tt
Served-kept m m' (waits t) e sv = tt
Served-kept m m' (tries t) e sv = tt
Served-kept m m' (holds t) e sv = ground arith

has-bit : (b : ℕ) (p : Pc) → (has b p ≡ 0) ⊎ (has b p ≡ 1)
has-bit b p = ground arith

has-some : (b : ℕ) (p : Pc) → 1 ≤ has b p → (p ≡ holds b) ⊎ (p ≡ waits b)
has-some b idle h = absurd (omega arith)
has-some b (tries t) h = absurd (omega arith)
has-some b (waits t) h = ground arith
has-some b (holds t) h = ground arith

-- Both halves of a new lock are 0.
abbrev pub start : System Word Pc
start = record { mem = record { h = 0; l = 0 }; pc = λ _. idle }

module _ (n : ℕ) (few : n ≤ 2 ^ 16) where
  pub Inv : System Word Pc → Type 0
  Inv s =
      Halves s.mem (tally out n s.pc)
      × ((b : ℕ) → b < 2 ^ 16 → Given s.mem (tally out n s.pc) b (tally (has b) n s.pc))
      × ((i : ℕ) → i < n → Served s.mem (s.pc i))

  one_each : (s : System Word Pc) → Inv s → (b : ℕ) → b < 2 ^ 16 → tally (has b) n s.pc ≤ 1
  unfolding Inv
  one_each s g b hb = ground (arith, g.1 b hb)

  out-fits : (pc : ℕ → Pc) → tally out n pc ≤ 2 ^ 16
  out-fits pc = omega (arith, tally-le out n pc (λ p. ground arith))

  Step-Served :
      (s : System Word Pc) (i : ℕ) {m : Word} {p : Pc}
      → i < n
      → Move s.mem (s.pc i) m p
      → Inv s
      → (j : ℕ) → j < n
      → Served m (update s.pc i p j)
  unfolding Inv
  Step-Served s i {m} {p} lt mv g j hj =
      update-keeps (Served m) s.pc i p j (Move-Served mv (g.2 i lt)) (λ other.
        Served-kept s.mem m (s.pc j)
          (elim (Move-l mv (g.2 i lt)) [
            | inl same ↦ inl same
            | inr mine ↦ elim (has-bit s.mem.l (s.pc j)) [
              | inl none ↦ inr none
              | inr his ↦ absurd (
                  other (
                    tally_unique (has s.mem.l) n s.pc i j lt hj mine his
                      (one_each s g s.mem.l g.0.1)))
            ]
          ])
          (g.2 j hj))

  Step-Inv : (s t : System Word Pc) → Step Move n s t → Inv s → Inv t
  unfolding Inv
  Step-Inv s t (pick i {m} {p} lt mv) g =
      let eq = tally-update out n s.pc i p lt in
      let ho = weigh-le-tally out n s.pc i lt in
      (
        Move-Halves _ _ mv eq (out-fits _) (out-fits _) ho g.0,
        λ b hb.
            Move-Given b _ _ _ _ hb mv eq (tally-update (has b) n s.pc i p lt) (out-fits _)
              (out-fits _) ho g.0 (g.2 i lt) (g.1 b hb),
        Step-Served s i lt mv g,
      )

  Inv-start : Inv start
  unfolding Inv
  Inv-start =
      let none : tally out n start.pc ≡ 0 = tally-eq-zero out n _ (λ _. refl) in
      (
        ground arith,
        λ b hb. ground (arith, tally-eq-zero (has b) n start.pc (λ _. refl)),
        λ i hi. tt,
      )

  Reach-Inv : {s : System Word Pc} → Reach Move n start s → Inv s
  Reach-Inv r = Reach-keeps Move Inv Step-Inv Inv-start r

  -- With at most 2 ^ 16 threads, in any interleaving of `lock`, `try_lock` and `unlock`, two threads
  -- that hold the lock are the same thread, and its ticket is the one that is served.
  pub ticket_holder_alone :
      {s : System Word Pc}
      → Reach Move n start s
      → (i j t u : ℕ) → i < n
      → j < n
      → s.pc i ≡ holds t
      → s.pc j ≡ holds u
      → (i ≡ j) × (t ≡ s.mem.l)
  unfolding Inv
  ticket_holder_alone {s} r i j t u hi hj ei ej =
      let g = Reach-Inv r in
      let et : Served s.mem (holds t) = subst (Served s.mem) ei (g.2 i hi) in
      let eu : Served s.mem (holds u) = subst (Served s.mem) ej (g.2 j hj) in
      let mine : has s.mem.l (holds t) ≡ 1 = ground arith in
      let his : has s.mem.l (holds u) ≡ 1 = ground arith in
      (
        tally_unique (has s.mem.l) n s.pc i j hi hj (rw ei mine) (rw ej his)
            (one_each s g s.mem.l g.0.1),
        et,
      )

  -- With at most 2 ^ 16 threads, in every reachable state in which a thread waits with a ticket,
  -- some thread holds the served ticket or waits with it.
  pub someone_is_served :
      {s : System Word Pc}
      → Reach Move n start s
      → (i t : ℕ) → i < n
      → s.pc i ≡ waits t
      → (j : ℕ) × (j < n) × ((s.pc j ≡ holds s.mem.l) ⊎ (s.pc j ≡ waits s.mem.l))
  unfolding Inv
  someone_is_served {s} r i t hi ei =
      let g = Reach-Inv r in
      let o : 1 ≤ tally out n s.pc = ground (arith, weigh-le-tally out n s.pc i hi) in
      let one : tally (has s.mem.l) n s.pc ≡ 1 = ground (arith, g.1 s.mem.l g.0.1) in
      let found = tally-some (has s.mem.l) n s.pc (omega arith) in
      (found.0, found.1, has-some s.mem.l (s.pc found.0) found.2)
