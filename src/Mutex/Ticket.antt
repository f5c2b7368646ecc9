-- ===== src/Mutex/Ticket.antt =====
-- extend_mutex.h, `ticket_mutex`: the ticket given next and the ticket served, of 16 bits each.
pub mod Serving
use usable_lib.Prelude.{ℕ, ◌+◌, ◌%◌, ◌^◌, ◌≡◌, ◌≢◌}

-- `atomic_val_t`
pub record Word : Type 0 where
  pub h : ℕ
  pub l : ℕ

-- Where a thread stands. A holder keeps its ticket for the proofs only.
pub data Pc : Type 0 where
  idle : Pc
  waits : ℕ → Pc  -- in the loop of `lock`, with its ticket `ct`
  tries : ℕ → Pc  -- in `try_lock`, with the value that both halves had
  holds : ℕ → Pc

-- the 16-bit increment
abbrev pub next : ℕ → ℕ
next t = (t + 1) % 2 ^ 16

-- One atomic access. `compare_exchange_weak` may fail on an equal word too.
pub data Move (m : Word) : Pc → Word → Pc → Type 0 where
  takes : Move m idle (record m { h = next m.h }) (waits m.h)
  turn_comes : {t : ℕ} → m.l ≡ t → Move m (waits t) m (holds t)
  turn_not_yet : {t : ℕ} → m.l ≢ t → Move m (waits t) m (waits t)
  try_sees_busy : m.h ≢ m.l → Move m idle m idle
  try_sees_free : m.h ≡ m.l → Move m idle m (tries m.h)
  swap_wins :
      {v : ℕ} → m.h ≡ v → m.l ≡ v → Move m (tries v) (record { h = next v; l = v }) (holds v)
  swap_fails : {v : ℕ} → Move m (tries v) m idle
  unlock : {t : ℕ} → Move m (holds t) (record m { l = next m.l }) idle
