-- ===== src/ConQueue.antt =====
-- conqueue.h, class `ConQueue`: a bounded ring buffer with 32-bit positions, run one call at a
-- time. A cell of the ring is `some x` while an object is alive in it, and `none` while it is raw
-- memory. Alone, the compare-exchange of a call sees the value that the call has just loaded.
pub mod Flags
pub mod Window
pub mod Represents
pub mod Calls
pub mod Bulk
pub mod Init
pub mod Alloc
pub mod Observe
pub mod Session
pub mod Wrap
mod Tests
use usable_lib.Prelude.{
  ℕ, zero, suc, ◌%◌, bit_and, Bool, true, false, Option, none, some, List, if◌then◌else◌, ◌==◌,
  add32, sub32, has_bit, get_elem?, set, ◌>>=◌,
}
use usable_lib.Prelude.Smear.{smear}
use Flags.{sp_enq, mp_enq, sc_deq, mc_deq, exact_sz}

-- `union po_val_t`
pub record Pos : Type 0 where
  pub pos : ℕ
  pub cnt : ℕ

pub record ConQueue (A : Type 0) : Type 0 where
  pub ring : List (Option A)
  pub self_alloc : Bool
  pub flags : ℕ
  pub count_mask : ℕ
  pub max_size : ℕ
  pub prod_head : Pos
  pub prod_tail : Pos
  pub cons_head : Pos
  pub cons_tail : Pos

-- `aligned_size`
unfoldable pub aligned_size : ℕ → ℕ → ℕ
unfolding smear
aligned_size size flags =
    if has_bit flags exact_sz then add32 size 1 else add32 (smear (sub32 size 1)) 1

-- `to_id`
unfoldable pub to_id : ℕ → ℕ → ℕ → ℕ
to_id flags count_mask i = if has_bit flags exact_sz then i % count_mask else bit_and i count_mask

-- `default_update_ht`: `none` if the wait for `oht_pos` never ends.
unfoldable pub default_update_ht : Pos → ℕ → ℕ → Option Pos
default_update_ht ht n oht_pos =
    if ht.pos == oht_pos then some (record ht { pos = add32 ht.pos n }) else none

-- `rts_update_ht ht ht_`: the new `*ht_`.
unfoldable pub rts_update_ht : Pos → Pos → Pos
rts_update_ht ht ht_ =
    let cnt : ℕ = add32 ht_.cnt 1 in
    if cnt == ht.cnt then record { pos = ht.pos; cnt = cnt } else record ht_ { cnt = cnt }

module _ {A : Type 0} where
  abbrev pub index : ConQueue A → ℕ → ℕ
  index q i = to_id q.flags q.count_mask i

  abbrev pub capacity : ConQueue A → ℕ
  capacity q = q.max_size

  unfoldable pub size : ConQueue A → ℕ
  size q = sub32 q.prod_tail.pos q.cons_tail.pos

  unfoldable pub empty : ConQueue A → Bool
  empty q = q.prod_tail.pos == q.cons_tail.pos

  unfoldable pub full : ConQueue A → Bool
  full q = sub32 q.prod_tail.pos q.cons_tail.pos == capacity q

  -- `top`: the index is not reduced. `none` is a read outside the ring or of raw memory.
  unfoldable pub top : ConQueue A → Option A
  top q = elim (get_elem? q.ring q.cons_tail.pos) [ none ↦ none | some cell ↦ cell ]

  -- placement new in a cell; a write outside the ring changes nothing
  abbrev pub construct : ConQueue A → ℕ → A → List (Option A)
  construct q i x = set q.ring (index q i) (some x)

  -- move out of a cell: `none` is a read outside the ring or of raw memory
  abbrev pub fetch : ConQueue A → ℕ → Option A
  fetch q i = elim (get_elem? q.ring (index q i)) [ none ↦ none | some cell ↦ cell ]

  abbrev pub destroy : ConQueue A → ℕ → List (Option A)
  destroy q i = set q.ring (index q i) none

  -- `none` for the whole call: it never returns, or takes an object where none is alive.
  module _ (junk : ℕ) where
    -- `emplace`, the body of both `push`es. In the default mode `nh.cnt` is not initialised: it is
    -- `junk`.
    unfoldable pub emplace : ConQueue A → A → Option (Bool × ConQueue A)
    emplace q x =
        if has_bit q.flags sp_enq
        then if sub32 q.prod_tail.pos q.cons_tail.pos == capacity q
          then some (false, q)
          else some (
            true,
            record q {
              ring = construct q q.prod_tail.pos x;
              prod_tail = record q.prod_tail { pos = add32 q.prod_tail.pos 1 };
            },
          )
        else if has_bit q.flags mp_enq
        then if sub32 q.prod_head.pos q.cons_tail.pos == capacity q
          then some (false, q)
          else elim (default_update_ht q.prod_tail 1 q.prod_head.pos) [
            | none ↦ none
            | some tail ↦ some (
              true,
              record q {
                ring = construct q q.prod_head.pos x;
                prod_head = record { pos = add32 q.prod_head.pos 1; cnt = junk };
                prod_tail = tail;
              },
            )
          ]
        else if sub32 q.prod_head.pos q.cons_tail.pos == capacity q
        then some (false, q)
        else let nh : Pos = record {
          pos = add32 q.prod_head.pos 1;
          cnt = add32 q.prod_head.cnt 1;
        } in
          some (
            true,
            record q {
              ring = construct q q.prod_head.pos x;
              prod_head = nh;
              prod_tail = rts_update_ht nh q.prod_tail;
            },
          )

    unfoldable pub pop : ConQueue A → Option (Option A × ConQueue A)
    pop q =
        if has_bit q.flags sc_deq
        then if q.cons_tail.pos == q.prod_tail.pos then some (none, q) else (do
          x ← fetch q q.cons_tail.pos
          some (
            some x,
            record q {
              ring = destroy q q.cons_tail.pos;
              cons_tail = record q.cons_tail { pos = add32 q.cons_tail.pos 1 };
            },
          ))
        else if has_bit q.flags mc_deq
        then if q.cons_head.pos == q.prod_tail.pos then some (none, q) else (do
          x ← fetch q q.cons_head.pos
          tail ← default_update_ht q.cons_tail 1 q.cons_head.pos
          some (
            some x,
            record q {
              ring = destroy q q.cons_head.pos;
              cons_head = record { pos = add32 q.cons_head.pos 1; cnt = junk };
              cons_tail = tail;
            },
          ))
        else if q.cons_head.pos == q.prod_tail.pos
        then some (none, q)
        else (do
          x ← fetch q q.cons_head.pos
          let nt : Pos = record { pos = add32 q.cons_head.pos 1; cnt = add32 q.cons_head.cnt 1 }
          some (
            some x,
            record q {
              ring = destroy q q.cons_head.pos;
              cons_head = nt;
              cons_tail = rts_update_ht nt q.cons_tail;
            },
          ))

  -- the loop of `clear`, of `h - t` rounds from position `t` on
  unfoldable pub destroy_from : ConQueue A → List (Option A) → ℕ → ℕ → List (Option A)
  destroy_from q ring i zero = ring
  destroy_from q ring i (suc n) = destroy_from q (set ring (index q i) none) (add32 i 1) n

  unfoldable pub clear : ConQueue A → ConQueue A
  unfolding destroy_from
  clear q = record q {
    ring = destroy_from q q.ring q.cons_tail.pos (sub32 q.prod_tail.pos q.cons_tail.pos);
    prod_head = record q.prod_head { pos = 0 };
    prod_tail = record q.prod_tail { pos = 0 };
    cons_head = record q.cons_head { pos = 0 };
    cons_tail = record q.cons_tail { pos = 0 };
  }
