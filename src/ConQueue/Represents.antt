-- ===== src/ConQueue/Represents.antt =====
-- When an idle `ConQueue` holds a list of objects, oldest first.
use native.Mathlib.Nat.{add-mod_right}
use usable_lib.Prelude.{
  ℕ, suc, ◌+◌, ◌%◌, ◌^◌, ◌≤◌, ◌<◌, ◌≡◌, Bool, true, false, List, [], ◌∷◌, ◌++◌, arith, add32, sub32,
  has_bit, length, if◌then◌else◌, Option, none, some, refl, ap, ◌∙◌, ◌-◌, sym,
}
use usable_lib.Prelude.{length-set, length-append}
use usable_lib.ConQueue.{Pos, ConQueue, index, construct, destroy}
use usable_lib.ConQueue.Flags.{sp_enq, mp_enq, sc_deq, mc_deq, exact_sz}
use usable_lib.ConQueue.Window.{Holds, Holds-congr, Holds-set_beyond, Holds-snoc, index-wrap}

-- Two ends of one side while no call of that side is under way. A single producer (consumer) does
-- not use the head, the default mode does not use the counters.
abbrev pub Idle : Bool → Bool → Pos → Pos → Type 0
Idle true multi head tail = Unit
Idle false true head tail = head.pos ≡ tail.pos
Idle false false head tail = (head.pos ≡ tail.pos) × (head.cnt ≡ tail.cnt)

pub Idle-same : (single multi : Bool) (p : Pos) → Idle single multi p p
Idle-same true multi p = tt
Idle-same false true p = refl
Idle-same false false p = (refl, refl)

module _ {A : Type 0} where
  -- the number of cells that positions go round
  abbrev pub slots : ConQueue A → ℕ
  slots q = if has_bit q.flags exact_sz then q.count_mask else q.count_mask + 1

  -- What the constructor fixes: no operation changes it.
  pub record Geometry (q : ConQueue A) : Type 0 where
    pub capacity_pos : 0 < q.max_size
    pub capacity_lt : q.max_size < 2 ^ 32
    pub room : q.max_size ≤ slots q
    pub memory : slots q ≤ length q.ring
    pub round : 2 ^ 32 % slots q ≡ 0
    pub indexed : (i : ℕ) → index q i ≡ i % slots q

  pub record Represents (q : ConQueue A) (xs : List A) : Type 0 where
    pub geometry : Geometry q
    pub from_lt : q.cons_tail.pos < 2 ^ 32
    pub until : q.prod_tail.pos ≡ add32 q.cons_tail.pos (length xs)
    pub fits : length xs ≤ q.max_size
    pub cells : Holds (slots q) q.ring q.cons_tail.pos xs
    pub producers : Idle (has_bit q.flags sp_enq) (has_bit q.flags mp_enq) q.prod_head q.prod_tail
    pub consumers : Idle (has_bit q.flags sc_deq) (has_bit q.flags mc_deq) q.cons_head q.cons_tail

  -- The positions are apart by the number of objects, whether or not they have wrapped.
  pub distance :
      {q : ConQueue A} (xs : List A)
      → Represents q xs
      → sub32 q.prod_tail.pos q.cons_tail.pos ≡ length xs
  distance xs r = omega (arith, r.until, r.from_lt, r.fits, r.geometry.capacity_lt)

  -- What no operation changes, as far as a client can tell.
  abbrev pub SameSetup : ConQueue A → ConQueue A → Type 0
  SameSetup q q' = (q'.max_size ≡ q.max_size) × (q'.flags ≡ q.flags)

  pub Geometry-ring :
      {q : ConQueue A} {ring : List (Option A)} {ph pt ch ct : Pos}
      → length ring ≡ length q.ring
      → Geometry q
      → Geometry
          (record q { ring = ring; prod_head = ph; prod_tail = pt; cons_head = ch; cons_tail = ct })
  Geometry-ring e g = record {
    capacity_pos = g.capacity_pos;
    capacity_lt = g.capacity_lt;
    room = g.room;
    memory = rw e g.memory;
    round = g.round;
    indexed = g.indexed;
  }

  -- One object more: it is constructed at the producers' position, which moves on by one.
  pub Represents-grown :
      {q : ConQueue A} {xs : List A} (x : A) {head tail : Pos}
      → Represents q xs
      → length xs < q.max_size
      → tail.pos ≡ add32 q.prod_tail.pos 1
      → Idle (has_bit q.flags sp_enq) (has_bit q.flags mp_enq) head tail
      → Represents
          (record q { ring = construct q q.prod_tail.pos x; prod_head = head; prod_tail = tail })
          (xs ++ x ∷ [])
  Represents-grown {q} {xs} x r lt moved idle = record {
    geometry = Geometry-ring (length-set q.ring (index q q.prod_tail.pos) (some x)) g;
    from_lt = r.from_lt;
    until = omega (arith, moved, r.until, length-append xs (x ∷ []));
    fits = omega (arith, length-append xs (x ∷ []));
    cells =
        Holds-snoc (slots q) q.ring q.cons_tail.pos (index q q.prod_tail.pos) x xs g.memory
          (omega (arith, g.room))
          (g.indexed q.prod_tail.pos
            ∙ ap (λ p. p % slots q) r.until
            ∙ index-wrap (slots q) (q.cons_tail.pos + length xs) g.round)
          r.cells;
    producers = idle;
    consumers = r.consumers;
  }
    where
      g : Geometry q
      g = r.geometry

  -- One object less: its cell is destroyed, and the consumers' position moves on by one.
  pub Represents-shrunk :
      {q : ConQueue A} {xs : List A} (x : A) {head tail : Pos}
      → Represents q (x ∷ xs)
      → tail.pos ≡ add32 q.cons_tail.pos 1
      → Idle (has_bit q.flags sc_deq) (has_bit q.flags mc_deq) head tail
      → Represents
          (record q { ring = destroy q q.cons_tail.pos; cons_head = head; cons_tail = tail })
          xs
  Represents-shrunk {q} {xs} x {tail} r moved idle = record {
    geometry = Geometry-ring (length-set q.ring (index q q.cons_tail.pos) none) g;
    from_lt = omega arith;
    until = omega (arith, moved, r.until, r.from_lt);
    fits = omega (arith, r.fits);
    cells = Holds-congr n ring (suc p) tail.pos xs next (
        Holds-set_beyond n q.ring (suc p) (n - 1) (index q p) none xs
          (omega (arith, r.fits, g.room)) (omega (arith, g.room, g.capacity_pos)) behind r.cells.1);
    producers = r.producers;
    consumers = idle;
  }
    where
      g : Geometry q
      g = r.geometry

      n : ℕ
      n = slots q

      p : ℕ
      p = q.cons_tail.pos

      ring : List (Option A)
      ring = destroy q p

      next : suc p % n ≡ tail.pos % n
      next =
          ap (λ k. k % n) (omega arith)
          ∙ sym (index-wrap n (p + 1) g.round)
          ∙ ap (λ k. k % n) (sym moved)

      -- the cell is the last of the round that starts behind it
      behind : index q p ≡ (suc p + (n - 1)) % n
      behind =
          g.indexed p
          ∙ sym (add-mod_right p n)
          ∙ ap (λ k. k % n) (omega (arith, g.room, g.capacity_pos))

  -- The counters, and the unused end of a single side, do not matter.
  pub Represents-ends :
      {q : ConQueue A} {xs : List A} {ph pt ch ct : Pos}
      → Represents q xs
      → pt.pos ≡ q.prod_tail.pos
      → ct.pos ≡ q.cons_tail.pos
      → Idle (has_bit q.flags sp_enq) (has_bit q.flags mp_enq) ph pt
      → Idle (has_bit q.flags sc_deq) (has_bit q.flags mc_deq) ch ct
      → Represents (record q { prod_head = ph; prod_tail = pt; cons_head = ch; cons_tail = ct }) xs
  Represents-ends {q} r pe ce producers consumers = record {
    geometry = Geometry-ring refl r.geometry;
    from_lt = omega (arith, r.from_lt);
    until = rw (pe, ce) r.until;
    fits = r.fits;
    cells = rw ce r.cells;
    producers = producers;
    consumers = consumers;
  }
