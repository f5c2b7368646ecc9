-- ===== src/TcQueue/Weights.antt =====
-- What the numbers of threads are to each other, and how the move of one shifts them.
use usable_lib.Prelude.{◌^◌, ℕ, ◌+◌, ◌≤◌, ◌<◌, ◌≡◌, ◌⊎◌, inl, inr, refl, arith}
use usable_lib.TcQueue.{
  Shared, Pc, Move, calls, try_lock_wins, try_lock_fails, resets, readies, announces, writes,
  confirms, polls_on, closes, locks, unlocks, takes, releases, retries, sees_valid, enters,
  backs_out, checks, finds_place, finds_none, fills, follower_confirms, exits, exits_early,
  reads_version, exits_full, waits_on, wait_ends_closed, wait_ends_reopened, idle, tries, leads,
  opened, granted, announced, written, polls, closing, locked, collects, leaves, refused, waits,
  entered, retreats, checked, placed, filled, confirmed, overflowed, turned_away, waits_over,
}
use usable_lib.TcQueue.Counts.{
  counts, inside, reads, unconfirmed, is_leads, is_granted, is_writing, is_checked, is_over,
  over_or_checked, owes,
}
use usable_lib.TcQueue.Steps.{Sane}
use usable_lib.Threads.{tally, tally-update, tally_mono, tally_add, tally-le, update}

-- what the weights of one thread's state are to each other
record Weights (ver k : ℕ) (p : Pc) : Type 0 where
  ins_weight : inside p ≤ reads p
  unc_weight : unconfirmed p ≤ inside p
  checked_weight : is_checked p ≤ inside p
  owes_weight : owes k p ≤ unconfirmed p + is_granted p + is_writing p
  over_weight : over_or_checked ver p ≤ 1

Pc-Weights : (ver k : ℕ) (p : Pc) → Weights ver k p
Pc-Weights ver k idle = ground arith
Pc-Weights ver k (tries u) = ground arith
Pc-Weights ver k (leads u) = ground arith
Pc-Weights ver k (opened u) = ground arith
Pc-Weights ver k (granted u i) = ground arith
Pc-Weights ver k (announced u i) = ground arith
Pc-Weights ver k written = ground arith
Pc-Weights ver k polls = ground arith
Pc-Weights ver k closing = ground arith
Pc-Weights ver k locked = ground arith
Pc-Weights ver k collects = ground arith
Pc-Weights ver k (leaves u b) = ground arith
Pc-Weights ver k (refused u) = ground arith
Pc-Weights ver k (waits u) = ground arith
Pc-Weights ver k (entered u) = ground arith
Pc-Weights ver k (retreats u) = ground arith
Pc-Weights ver k (checked u) = ground arith
Pc-Weights ver k (placed u i) = ground arith
Pc-Weights ver k filled = ground arith
Pc-Weights ver k confirmed = ground arith
Pc-Weights ver k (overflowed u) = ground arith
Pc-Weights ver k (turned_away u v) = ground arith
Pc-Weights ver k (waits_over u v) = ground arith

pub counts-Sane : (n : ℕ) (pc : ℕ → Pc) → n < 2 ^ 7 → Sane (counts n pc)
counts-Sane n pc small = record {
  ins_le = tally_mono inside reads n pc (λ p. (Pc-Weights 0 0 p).ins_weight);
  unc_le = tally_mono unconfirmed inside n pc (λ p. (Pc-Weights 0 0 p).unc_weight);
  few = omega (arith, tally-le reads n pc (λ p. ground arith));
}

pub checked-le : (n : ℕ) (pc : ℕ → Pc) → tally is_checked n pc ≤ (counts n pc).ins
checked-le n pc = tally_mono is_checked inside n pc (λ p. (Pc-Weights 0 0 p).checked_weight)

pub owes-le :
    (n k : ℕ) (pc : ℕ → Pc)
    → tally (owes k) n pc ≤ (counts n pc).unc + (counts n pc).gr + (counts n pc).wr
owes-le n k pc = omega (
  arith,
  tally_mono (owes k) (λ p. unconfirmed p + is_granted p + is_writing p) n pc
      (λ p. (Pc-Weights 0 k p).owes_weight),
  tally_add (λ p. unconfirmed p + is_granted p) is_writing n pc,
  tally_add unconfirmed is_granted n pc,
)

pub over-le : (n ver : ℕ) (pc : ℕ → Pc) → tally (is_over ver) n pc + tally is_checked n pc ≤ n
over-le n ver pc = omega (
  arith,
  tally-le (over_or_checked ver) n pc (λ p. (Pc-Weights ver 0 p).over_weight),
  tally_add (is_over ver) is_checked n pc,
)

-- Only the leader that resets the queue changes its version.
Move_version :
    {max_count : ℕ} {m m' : Shared} {p p' : Pc}
    → Move max_count m p m' p'
    → (is_leads p ≡ 1) ⊎ (m'.queue_ver ≡ m.queue_ver)
Move_version (calls uid) = inr refl
Move_version (try_lock_wins h) = inr refl
Move_version (try_lock_fails h) = inr refl
Move_version resets = inl refl
Move_version readies = inr refl
Move_version announces = inr refl
Move_version writes = inr refl
Move_version confirms = inr refl
Move_version polls_on = inr refl
Move_version closes = inr refl
Move_version (locks h h2) = inr refl
Move_version unlocks = inr refl
Move_version takes = inr refl
Move_version releases = inr refl
Move_version (retries h) = inr refl
Move_version (sees_valid h) = inr refl
Move_version (enters h) = inr refl
Move_version (backs_out h) = inr refl
Move_version (checks h) = inr refl
Move_version (finds_place h) = inr refl
Move_version (finds_none h) = inr refl
Move_version fills = inr refl
Move_version follower_confirms = inr refl
Move_version exits = inr refl
Move_version exits_early = inr refl
Move_version reads_version = inr refl
Move_version exits_full = inr refl
Move_version (waits_on h h2) = inr refl
Move_version (wait_ends_closed h) = inr refl
Move_version (wait_ends_reopened h) = inr refl

pub over_shift :
    {max_count : ℕ} {m m' : Shared} {p : Pc} (n : ℕ) (pc : ℕ → Pc) (i : ℕ)
    → Move max_count m (pc i) m' p
    → i < n
    → (is_leads (pc i) ≡ 1)
      ⊎ (tally (is_over m'.queue_ver) n (update pc i p) + is_over m.queue_ver (pc i)
          ≡ tally (is_over m.queue_ver) n pc + is_over m.queue_ver p)
over_shift n pc i mv h = elim (Move_version mv) [
  | inl e ↦ inl e
  | inr e ↦ inr (rw e (tally-update (is_over _) n pc i _ h))
]
