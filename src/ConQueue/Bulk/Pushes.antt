-- ===== src/ConQueue/Bulk/Pushes.antt =====
-- `push_bulk` on an idle `ConQueue` does what that of `Fifo` does.
use usable_lib.Fifo
use usable_lib.Prelude.{
  ℕ, ◌+◌, ◌-◌, ◌^◌, ◌≤◌, ◌<◌, ◌≡◌, ◌≢◌, refl, ap, some, List, ◌++◌, arith, add32, has_bit, length,
  take, length-take, min, take-eq-nil, take-min, append-nil, Option, ℕ_discrete,
}
use usable_lib.ConQueue.{Pos, ConQueue}
use usable_lib.ConQueue.Flags.{sp_enq, mp_enq}
use usable_lib.ConQueue.Represents.{SameSetup, Represents, Represents-ends}
use usable_lib.ConQueue.Calls.{
  alone, default, rts, mode, default_update_ht-Idle, rts_update_ht-Idle,
}
use usable_lib.ConQueue.Bulk.{construct_from, free_from, push_bulk}
use usable_lib.ConQueue.Bulk.Rounds.{Represents-construct_from}

module _ {A : Type 0} (junk : ℕ) where
  free_from-lem :
      {q : ConQueue A} {xs : List A}
      → Represents q xs
      → free_from junk q q.prod_tail.pos ≡ q.max_size - length xs
  free_from-lem {q} {xs} r = omega (arith, r.until, r.from_lt, r.fits, r.geometry.capacity_lt)

  module _ {q : ConQueue A} {xs : List A} (r : Represents q xs) where
    -- A transfer of `l` objects, with `l` as the code computes it.
    push_bulk-some :
        (ys : List A) (l : ℕ)
        → length ys < 2 ^ 32
        → l ≡ min (q.max_size - length xs) (length ys)
        → l ≢ 0
        → (q' : ConQueue A) × (push_bulk junk q ys ≡ some (l, q'))
          × SameSetup q q'
          × Represents q' (xs ++ take l ys)
    unfolding push_bulk
    push_bulk-some ys l small e ne =
        elim (mode (has_bit q.flags sp_enq) (has_bit q.flags mp_enq) r.producers) [
          | alone s ↦
              let tail : Pos = record q.prod_tail { pos = add32 q.prod_tail.pos l } in
              (
                record q { ring = ring; prod_tail = tail },
                ground (arith, free_from-lem r),
                (refl, refl),
                Represents-construct_from zs r fits (moved refl) (rw s tt),
              )
          | default s m p ↦
              let head : Pos = record { pos = add32 q.prod_head.pos l; cnt = junk } in
              let tail : Pos = record q.prod_tail { pos = add32 q.prod_tail.pos l } in
              (
                record q { ring = ring; prod_head = head; prod_tail = tail },
                ground (
                  arith,
                  free_from-lem r,
                  default_update_ht-Idle q.prod_head q.prod_tail l,
                  ap (λ i. construct_from q.flags q.count_mask q.ring i zs) p,
                  ap (free_from junk q) p,
                ),
                (refl, refl),
                Represents-construct_from zs r fits (moved refl)
                    (rw (s, m) (ap (λ i. add32 i l) p)),
              )
          | rts s m p c ↦
              let ends : Pos = record {
                pos = add32 q.prod_head.pos l;
                cnt = add32 q.prod_head.cnt 1;
              } in
              (
                record q { ring = ring; prod_head = ends; prod_tail = ends },
                ground (
                  arith,
                  free_from-lem r,
                  rts_update_ht-Idle q.prod_head q.prod_tail ends.pos,
                  ap (λ i. construct_from q.flags q.count_mask q.ring i zs) p,
                  ap (free_from junk q) p,
                ),
                (refl, refl),
                Represents-construct_from zs r fits (moved (ap (λ i. add32 i l) p))
                    (rw (s, m) (refl, refl)),
              )
        ]
      where
        zs : List A
        zs = take l ys

        ring : List (Option A)
        ring = construct_from q.flags q.count_mask q.ring q.prod_tail.pos zs

        fits : length xs + length zs ≤ q.max_size
        fits = omega (arith, length-take l ys, r.fits)

        moved : {p : ℕ} → p ≡ add32 q.prod_tail.pos l → p ≡ add32 q.prod_tail.pos (length zs)
        moved h = omega (arith, length-take l ys, h)

    push_bulk-none :
        (ys : List A)
        → length ys < 2 ^ 32
        → min (q.max_size - length xs) (length ys) ≡ 0
        → (q' : ConQueue A) × (push_bulk junk q ys ≡ some (0, q'))
          × SameSetup q q'
          × Represents q' xs
    unfolding push_bulk construct_from
    push_bulk-none ys small e =
        elim (mode (has_bit q.flags sp_enq) (has_bit q.flags mp_enq) r.producers) [
          | alone s ↦
              let tail : Pos = record q.prod_tail { pos = add32 q.prod_tail.pos 0 } in
              (
                record q { prod_tail = tail },
                ground (arith, free_from-lem r),
                (refl, refl),
                Represents-ends r (omega (arith, r.until)) refl (rw s tt) r.consumers,
              )
          | default s m p ↦
              (q, ground (arith, free_from-lem r, ap (free_from junk q) p), (refl, refl), r)
          | rts s m p c ↦
              (q, ground (arith, free_from-lem r, ap (free_from junk q) p), (refl, refl), r)
        ]

    -- On an idle queue, whose size is exact only if it divides 2 ^ 32, a bulk push of fewer than 2 ^ 32 objects
    -- in any mode of producers appends as many of them as there is room for, in their order, and returns
    -- their number.
    pub push_bulk-push_bulk :
        (ys : List A)
        → length ys < 2 ^ 32
        → (q' : ConQueue A) × (push_bulk junk q ys ≡ some ((Fifo.push_bulk q.max_size xs ys).0, q'))
          × SameSetup q q'
          × Represents q' (Fifo.push_bulk q.max_size xs ys).1
    push_bulk-push_bulk ys small = elim (ℕ_discrete (min (q.max_size - length xs) (length ys)) 0) [
      | yes e ↦
          rw (e, take-eq-nil (q.max_size - length xs) ys e, append-nil) (push_bulk-none ys small e)
      | no n ↦ rw (← take-min (q.max_size - length xs) ys) (push_bulk-some ys _ small refl n)
    ]
