-- ===== src/ClQueue/Pops.antt =====
-- `CLQueue::pop`: it does what the bounded queue of `Fifo` does.
use usable_lib.Fifo
use usable_lib.Prelude.{ℕ, ◌+◌, Bool, none}
use usable_lib.ClQueue.Represents.{Represents}
use usable_lib.ClQueue.{Line, ClQueue, get_li, set_slot, bump_tf1, bump_tf2}

module _ {A : Type 0} (s : ℕ) (block : Bool) where
  -- the line of the tail, erased
  module _ (q : ClQueue A) where
    abbrev from : ℕ
    from = get_li s block q q.tail

    abbrev erased : ℕ → Line A
    erased = set_slot s block q q.tail none

    abbrev taken : ℕ → Line A
    taken = bump_tf2 s block from erased

    abbrev handed : ℕ → Line A
    handed = bump_tf2 s block from (bump_tf1 s block (get_li s block q (q.tail + 1)) erased)
