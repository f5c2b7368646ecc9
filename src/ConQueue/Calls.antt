-- ===== src/ConQueue/Calls.antt =====
-- Each call of an idle `ConQueue`, in every mode, does what the bounded queue of `Fifo` does.
use usable_lib.Fifo
use usable_lib.Prelude.{
  ℕ, ◌≡◌, ◌<◌, ap, refl, Bool, true, false, none, some, List, [], ◌∷◌, ◌++◌, arith, ◌==◌, add32,
  has_bit, length, get_elem?, ==_iff, ◌≢◌, ℕ_discrete,
}
use usable_lib.ConQueue.{
  Pos, ConQueue, construct, destroy, fetch, default_update_ht, rts_update_ht, emplace, pop,
}
use usable_lib.ConQueue.Flags.{sp_enq, mp_enq, sc_deq, mc_deq}
use usable_lib.ConQueue.Represents.{
  Idle, SameSetup, Represents, distance, Represents-grown, Represents-shrunk,
}

-- On an idle side the last step of a call moves the tail to the head.
pub default_update_ht-Idle :
    (head tail : Pos) (n : ℕ)
    → head.pos ≡ tail.pos
    → default_update_ht tail n head.pos ≡ some (record tail { pos = add32 tail.pos n })
unfolding default_update_ht
default_update_ht-Idle head tail n e = ground arith

pub rts_update_ht-Idle :
    (head tail : Pos) (p : ℕ)
    → head.cnt ≡ tail.cnt
    → let nh : Pos = record { pos = p; cnt = add32 head.cnt 1 } in rts_update_ht nh tail ≡ nh
unfolding rts_update_ht
rts_update_ht-Idle head tail p e = ground arith

-- The three modes of a side, with what is known of its ends when it is idle.
pub data Mode (single multi : Bool) (head tail : Pos) : Type 0 where
  alone : single ≡ true → Mode single multi head tail
  default : single ≡ false → multi ≡ true → head.pos ≡ tail.pos → Mode single multi head tail
  rts :
      single ≡ false
      → multi ≡ false
      → head.pos ≡ tail.pos
      → head.cnt ≡ tail.cnt
      → Mode single multi head tail

pub mode :
    (single multi : Bool) {head tail : Pos}
    → Idle single multi head tail
    → Mode single multi head tail
mode true multi i = alone refl
mode false true i = default refl refl i
mode false false i = rts refl refl i.0 i.1

module _ {A : Type 0} (junk : ℕ) where
  emplace_full :
      {q : ConQueue A} {xs : List A} (x : A)
      → Represents q xs
      → length xs ≡ q.max_size
      → emplace junk q x ≡ some (false, q)
  unfolding emplace
  emplace_full {q} {xs} x r e =
      elim (mode (has_bit q.flags sp_enq) (has_bit q.flags mp_enq) r.producers) [
        | alone s ↦ ground (arith, distance xs r)
        | default s m p ↦ ground (arith, distance xs r)
        | rts s m p c ↦ ground (arith, distance xs r)
      ]

  emplace_room :
      {q : ConQueue A} {xs : List A} (x : A)
      → Represents q xs
      → length xs < q.max_size
      → (q' : ConQueue A) × (emplace junk q x ≡ some (true, q'))
        × SameSetup q q'
        × Represents q' (xs ++ x ∷ [])
  unfolding emplace
  emplace_room {q} {xs} x r lt =
      elim (mode (has_bit q.flags sp_enq) (has_bit q.flags mp_enq) r.producers) [
        | alone s ↦
            let tail : Pos = record q.prod_tail { pos = add32 q.prod_tail.pos 1 } in
            (
              record q { ring = construct q q.prod_tail.pos x; prod_tail = tail },
              ground (arith, distance xs r),
              (refl, refl),
              Represents-grown x r lt refl (rw s tt),
            )
        | default s m p ↦
            let head : Pos = record { pos = add32 q.prod_head.pos 1; cnt = junk } in
            let tail : Pos = record q.prod_tail { pos = add32 q.prod_tail.pos 1 } in
            (
              record q { ring = construct q q.prod_tail.pos x; prod_head = head; prod_tail = tail },
              ground (
                arith,
                distance xs r,
                default_update_ht-Idle q.prod_head q.prod_tail 1,
                ap (λ i. construct q i x) p,
              ),
              (refl, refl),
              Represents-grown x r lt refl (rw (s, m) (ap (λ i. add32 i 1) p)),
            )
        | rts s m p c ↦
            let ends : Pos = record {
              pos = add32 q.prod_head.pos 1;
              cnt = add32 q.prod_head.cnt 1;
            } in
            (
              record q { ring = construct q q.prod_tail.pos x; prod_head = ends; prod_tail = ends },
              ground (
                arith,
                distance xs r,
                rts_update_ht-Idle q.prod_head q.prod_tail ends.pos,
                ap (λ i. construct q i x) p,
              ),
              (refl, refl),
              Represents-grown x r lt (ap (λ i. add32 i 1) p) (rw (s, m) (refl, refl)),
            )
      ]

  -- On an idle queue, whose size is exact only if it divides 2 ^ 32, a push in any mode of producers returns
  -- at once. It fails exactly when the queue holds `max_size` objects; otherwise the queue holds the object
  -- behind those that it held before.
  pub emplace-push :
      {q : ConQueue A} {xs : List A} (x : A)
      → Represents q xs
      → (q' : ConQueue A) × (emplace junk q x ≡ some ((Fifo.push q.max_size xs x).0, q'))
        × SameSetup q q'
        × Represents q' (Fifo.push q.max_size xs x).1
  emplace-push {q} {xs} x r = elim (ℕ_discrete (length xs) q.max_size) [
    | yes e ↦ rw ((==_iff (length xs) q.max_size).1 e) (q, emplace_full x r e, (refl, refl), r)
    | no n ↦
        let other : (length xs == q.max_size) ≡ false = ground arith in
        rw other (emplace_room x r (omega (arith, r.fits)))
  ]

  fetch-cell :
      {q : ConQueue A} {x : A} {xs : List A}
      → Represents q (x ∷ xs)
      → fetch q q.cons_tail.pos ≡ some x
  fetch-cell {q} r =
      ground (arith, r.cells, ap (get_elem? q.ring) (r.geometry.indexed q.cons_tail.pos))

  pop_empty : {q : ConQueue A} → Represents q [] → pop junk q ≡ some (none, q)
  unfolding pop
  pop_empty {q} r = elim (mode (has_bit q.flags sc_deq) (has_bit q.flags mc_deq) r.consumers) [
    | alone s ↦ ground (arith, distance [] r, r.until, r.from_lt)
    | default s m p ↦ ground (arith, distance [] r, r.until, r.from_lt)
    | rts s m p c ↦ ground (arith, distance [] r, r.until, r.from_lt)
  ]

  pop-some :
      {q : ConQueue A} {x : A} {xs : List A}
      → Represents q (x ∷ xs)
      → (q' : ConQueue A) × (pop junk q ≡ some (some x, q')) × SameSetup q q' × Represents q' xs
  unfolding pop
  pop-some {q} {x} {xs} r =
      let apart : q.cons_tail.pos ≢ q.prod_tail.pos =
        omega (arith, r.until, r.from_lt, r.fits, r.geometry.capacity_lt) in
      elim (mode (has_bit q.flags sc_deq) (has_bit q.flags mc_deq) r.consumers) [
        | alone s ↦
            let tail : Pos = record q.cons_tail { pos = add32 q.cons_tail.pos 1 } in
            (
              record q { ring = destroy q q.cons_tail.pos; cons_tail = tail },
              ground (arith, apart, fetch-cell r),
              (refl, refl),
              Represents-shrunk x r refl (rw s tt),
            )
        | default s m p ↦
            let head : Pos = record { pos = add32 q.cons_head.pos 1; cnt = junk } in
            let tail : Pos = record q.cons_tail { pos = add32 q.cons_tail.pos 1 } in
            (
              record q { ring = destroy q q.cons_tail.pos; cons_head = head; cons_tail = tail },
              ground (
                arith,
                apart,
                fetch-cell r,
                default_update_ht-Idle q.cons_head q.cons_tail 1,
                ap (λ i. destroy q i) p,
                ap (λ i. fetch q i) p,
              ),
              (refl, refl),
              Represents-shrunk x r refl (rw (s, m) (ap (λ i. add32 i 1) p)),
            )
        | rts s m p c ↦
            let ends : Pos = record {
              pos = add32 q.cons_head.pos 1;
              cnt = add32 q.cons_head.cnt 1;
            } in
            (
              record q { ring = destroy q q.cons_tail.pos; cons_head = ends; cons_tail = ends },
              ground (
                arith,
                apart,
                fetch-cell r,
                rts_update_ht-Idle q.cons_head q.cons_tail ends.pos,
                ap (λ i. destroy q i) p,
                ap (λ i. fetch q i) p,
              ),
              (refl, refl),
              Represents-shrunk x r (ap (λ i. add32 i 1) p) (rw (s, m) (refl, refl)),
            )
      ]

  -- On an idle queue, whose size is exact only if it divides 2 ^ 32, a pop in any mode of consumers returns at
  -- once. It fails exactly when the queue holds nothing; otherwise it returns the oldest object, and the
  -- queue holds the rest.
  pub pop-pop :
      {q : ConQueue A} (xs : List A)
      → Represents q xs
      → (q' : ConQueue A) × (pop junk q ≡ some ((Fifo.pop xs).0, q'))
        × SameSetup q q'
        × Represents q' (Fifo.pop xs).1
  pop-pop {q} [] r = (q, pop_empty r, (refl, refl), r)
  pop-pop (x ∷ xs) r = pop-some r
