-- ===== src/ConQueue/Flags.antt =====
-- conqueue.h, `enum ConQueueMode`: the mode bits that both queues take.
use usable_lib.Prelude.{ℕ}

abbrev pub sp_enq : ℕ
sp_enq = 1

abbrev pub sc_deq : ℕ
sc_deq = 2

abbrev pub exact_sz : ℕ
exact_sz = 4

abbrev pub mp_rts_enq : ℕ
mp_rts_enq = 8

abbrev pub mc_rts_deq : ℕ
mc_rts_deq = 16

abbrev pub mp_enq : ℕ
mp_enq = 32

abbrev pub mc_deq : ℕ
mc_deq = 64
