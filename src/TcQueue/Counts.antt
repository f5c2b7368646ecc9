-- ===== src/TcQueue/Counts.antt =====
-- The threads of `task_enqueue` by where they stand.
use usable_lib.Prelude.{ℕ, Option, none, some, ◌+◌, ◌<◌, ◌≡◌, if◌then◌else◌, ◌==◌}
use usable_lib.TcQueue.{
  Pc, leads, opened, granted, announced, written, polls, closing, locked, collects, leaves, entered,
  retreats, checked, placed, filled, confirmed, overflowed, turned_away, waits_over,
}
use usable_lib.Threads.{tally, tally-update, update}

-- the leader, from its lock to the end
abbrev pub is_leads : Pc → ℕ
is_leads (leads _) = 1
is_leads _ = 0

abbrev pub is_opened : Pc → ℕ
is_opened (opened _) = 1
is_opened _ = 0

abbrev pub is_granted : Pc → ℕ
is_granted (granted _ _) = 1
is_granted _ = 0

abbrev pub is_writing : Pc → ℕ
is_writing (announced _ _) = 1
is_writing written = 1
is_writing _ = 0

abbrev pub is_polling : Pc → ℕ
is_polling polls = 1
is_polling _ = 0

abbrev pub is_closing : Pc → ℕ
is_closing closing = 1
is_closing _ = 0

abbrev pub is_locked : Pc → ℕ
is_locked locked = 1
is_locked _ = 0

abbrev pub is_collecting : Pc → ℕ
is_collecting collects = 1
is_collecting _ = 0

abbrev pub is_leaving : Pc → ℕ
is_leaving (leaves _ _) = 1
is_leaving _ = 0

-- the readers of `wlck`, those that will use the queue, those with an index, and those before it
abbrev pub reads : Pc → ℕ
reads (entered _) = 1
reads (retreats _) = 1
reads (checked _) = 1
reads (placed _ _) = 1
reads filled = 1
reads confirmed = 1
reads (overflowed _) = 1
reads (turned_away _ _) = 1
reads _ = 0

abbrev pub inside : Pc → ℕ
inside (checked _) = 1
inside (placed _ _) = 1
inside filled = 1
inside _ = 0

abbrev pub unconfirmed : Pc → ℕ
unconfirmed (placed _ _) = 1
unconfirmed filled = 1
unconfirmed _ = 0

abbrev pub is_checked : Pc → ℕ
is_checked (checked _) = 1
is_checked _ = 0

-- those that have found the queue of version `ver` full
abbrev pub is_over : ℕ → Pc → ℕ
is_over ver (overflowed _) = 1
is_over ver (turned_away _ v) = if v == ver then 1 else 0
is_over ver (waits_over _ v) = if v == ver then 1 else 0
is_over ver _ = 0

abbrev pub over_or_checked : ℕ → Pc → ℕ
over_or_checked ver p = is_over ver p + is_checked p

-- those that have index `k` and have not written
abbrev pub owes : ℕ → Pc → ℕ
owes k (granted _ idx) = if idx == k then 1 else 0
owes k (announced _ idx) = if idx == k then 1 else 0
owes k (placed _ idx) = if idx == k then 1 else 0
owes k _ = 0

abbrev pub fill : Option ℕ → ℕ
fill none = 0
fill (some _) = 1

pub record Counts : Type 0 where
  pub ld : ℕ
  pub op : ℕ
  pub gr : ℕ
  pub wr : ℕ
  pub po : ℕ
  pub cl : ℕ
  pub lk : ℕ
  pub co : ℕ
  pub lv : ℕ
  pub rd : ℕ
  pub ins : ℕ
  pub unc : ℕ

abbrev pub counts : ℕ → (ℕ → Pc) → Counts
counts n pc = record {
  ld = tally is_leads n pc;
  op = tally is_opened n pc;
  gr = tally is_granted n pc;
  wr = tally is_writing n pc;
  po = tally is_polling n pc;
  cl = tally is_closing n pc;
  lk = tally is_locked n pc;
  co = tally is_collecting n pc;
  lv = tally is_leaving n pc;
  rd = tally reads n pc;
  ins = tally inside n pc;
  unc = tally unconfirmed n pc;
}

-- one thread goes from `p` to `p'`
pub record Shift (c c' : Counts) (p p' : Pc) : Type 0 where
  pub ld_moved : c'.ld + is_leads p ≡ c.ld + is_leads p'
  pub op_moved : c'.op + is_opened p ≡ c.op + is_opened p'
  pub gr_moved : c'.gr + is_granted p ≡ c.gr + is_granted p'
  pub wr_moved : c'.wr + is_writing p ≡ c.wr + is_writing p'
  pub po_moved : c'.po + is_polling p ≡ c.po + is_polling p'
  pub cl_moved : c'.cl + is_closing p ≡ c.cl + is_closing p'
  pub lk_moved : c'.lk + is_locked p ≡ c.lk + is_locked p'
  pub co_moved : c'.co + is_collecting p ≡ c.co + is_collecting p'
  pub lv_moved : c'.lv + is_leaving p ≡ c.lv + is_leaving p'
  pub rd_moved : c'.rd + reads p ≡ c.rd + reads p'
  pub ins_moved : c'.ins + inside p ≡ c.ins + inside p'
  pub unc_moved : c'.unc + unconfirmed p ≡ c.unc + unconfirmed p'

pub counts-Shift :
    (n : ℕ) (pc : ℕ → Pc) (i : ℕ) (p : Pc)
    → i < n
    → Shift (counts n pc) (counts n (update pc i p)) (pc i) p
counts-Shift n pc i p h = record {
  ld_moved = tally-update is_leads n pc i p h;
  op_moved = tally-update is_opened n pc i p h;
  gr_moved = tally-update is_granted n pc i p h;
  wr_moved = tally-update is_writing n pc i p h;
  po_moved = tally-update is_polling n pc i p h;
  cl_moved = tally-update is_closing n pc i p h;
  lk_moved = tally-update is_locked n pc i p h;
  co_moved = tally-update is_collecting n pc i p h;
  lv_moved = tally-update is_leaving n pc i p h;
  rd_moved = tally-update reads n pc i p h;
  ins_moved = tally-update inside n pc i p h;
  unc_moved = tally-update unconfirmed n pc i p h;
}
