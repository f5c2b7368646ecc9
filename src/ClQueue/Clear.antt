-- ===== src/ClQueue/Clear.antt =====
-- conqueue.h, `CLQueue::clear`: it empties a queue, but for the two counters of the consumers.
use native.Mathlib.Nat.{zero-div}
use usable_lib.Prelude.{
  ℕ, zero, suc, ◌+◌, ◌*◌, ◌^◌, ◌<◌, ◌≡◌, ◌≢◌, refl, ap, ◌∙◌, sym, Bool, true, false, Option, none,
  some, if◌then◌else◌, ◌==◌, arith, subst, has_bit, add32, sub32, Bool-cases, inl, inr, ◌⊎◌, List,
  [], bit_and, dec_lt, ok, Result,
}
use usable_lib.Prelude.Bits.{zero-and, scaled-le}
use usable_lib.Threads.{update}
use usable_lib.ConQueue.Flags.{sp_enq, mp_enq, sc_deq}
use usable_lib.ClQueue.Layout.{Layout, count}
use usable_lib.ClQueue.Represents.{Holds, Represents}
use usable_lib.ClQueue.Turns.{Turn-every, Over, Over-shared, Over-start}
use usable_lib.ClQueue.Pushes.{emplace_impl-Pushed}
use usable_lib.ClQueue.{
  Line, ClQueue, Full, get_li, get_si, line_of, set_slot, destroy_from, reset_lines, clear,
  emplace_impl, commit, pop,
}

-- position 0 is in line 0
line_of-zero : (s : ℕ) (block : Bool) (mask : ℕ) → line_of s block mask 0 ≡ 0
unfolding line_of
line_of-zero s true mask =
    ap (λ n. bit_and n mask) (omega (arith, zero-div (s * 64))) ∙ zero-and mask
line_of-zero s false mask = zero-and mask

module _ {A : Type 0} where
  -- a line below `n` is reset but for its slots, and any other stays
  abbrev Reset : Line A → Line A → Type 0
  Reset cl cl' = (cl'.hf1 ≡ 0) × (cl'.tf1 ≡ 0) × (cl'.hf2 ≡ 1) × (cl'.tf2 ≡ 1)

  module _ (s : ℕ) (block : Bool) where
    reset_lines-Reset :
        (n l : ℕ) (cls : ℕ → Line A) → l < n → Reset (cls l) (reset_lines s block n cls l)
    unfolding reset_lines
    reset_lines-Reset zero l cls h = absurd (omega arith)
    reset_lines-Reset (suc n) l cls h = elim (dec_lt l n) [
      | yes lt ↦ ground (arith, reset_lines-Reset n l cls lt)
      | no ge ↦ ground arith
    ]

    -- `destroy_from` changes the lines only
    destroy_from-cls :
        (q : ClQueue A) (i n : ℕ)
        → destroy_from s block q i n ≡ record q { cls = (destroy_from s block q i n).cls }
    unfolding destroy_from
    destroy_from-cls q i zero = refl
    destroy_from-cls q i (suc n) =
        destroy_from-cls (record q { cls = set_slot s block q i none }) (add32 i 1) n

    abbrev opened : ClQueue A → ℕ → Line A
    opened q =
        let cls : ℕ → Line A =
          reset_lines s block q.max_line
            (destroy_from s block q q.tail (sub32 q.head q.tail)).cls in
        update cls 0 (record (cls 0) { hf1 = 1; tf1 = 1 })

    clear-opened :
        (q : ClQueue A) → clear s block q ≡ record q { head = 0; tail = 0; cls = opened q }
    unfolding clear
    clear-opened q =
        ap
          (λ (r : ClQueue A).
            let cls : ℕ → Line A = reset_lines s block q.max_line r.cls in
            record r {
              head = 0;
              tail = 0;
              cls = update cls 0 (record (cls 0) { hf1 = 1; tf1 = 1 });
            })
          (destroy_from-cls q q.tail (sub32 q.head q.tail))

    -- What the constructor fixes.
    pub record Sized (q : ClQueue A) : Type 0 where
      pub layout : Layout s q.max_line (get_li s block q) (get_si s block q)
      pub capacity : q.max_size ≡ s * q.max_line

    -- the counters after `clear`
    opened-Reset :
        (q : ClQueue A) (l : ℕ)
        → l < q.max_line
        → ((opened q l).hf1 ≡ (if 0 == l then 1 else 0))
          × ((opened q l).tf1 ≡ (if 0 == l then 1 else 0))
          × ((opened q l).hf2 ≡ 1)
          × ((opened q l).tf2 ≡ 1)
    opened-Reset q l h = ground (
      arith,
      reset_lines-Reset q.max_line l (destroy_from s block q q.tail (sub32 q.head q.tail)).cls h,
    )

    opened-Represents :
        (q : ClQueue A) (doc over : ℕ)
        → Sized q
        → Over (has_bit q.flags sc_deq) doc over 0
        → Represents s block
            (record q {
              head = 0;
              tail = 0;
              cls = opened q;
              dequeue_overcommit = doc;
              overcommit = over;
            })
            []
    unfolding count Holds
    opened-Represents q doc over g o = record {
      layout = g.layout;
      capacity = g.capacity;
      head_lt = omega arith;
      until = refl;
      fits = omega arith;
      pushed = λ l h. (opened-Reset q l h).2;
      popped = λ l h. (opened-Reset q l h).3;
      early = λ l h. omega arith;
      producers =
          Turn-every _ _ _ _ _ _
            (λ l h. ground (arith, opened-Reset q l h, line_of-zero s block q.max_line_mask));
      consumers =
          Turn-every _ _ _ _ _ _
            (λ l h. ground (arith, opened-Reset q l h, line_of-zero s block q.max_line_mask));
      over = o;
      held = tt;
    }

    -- A push does not look at the counters of the consumers.
    abbrev with_counters :
        ℕ → ℕ → Option (Result Full Bool × ClQueue A) → Option (Result Full Bool × ClQueue A)
    with_counters doc over none = none
    with_counters doc over (some (r, q)) =
        some (r, record q { dequeue_overcommit = doc; overcommit = over })

    abbrev turn : ClQueue A → A → Bool
    turn q x =
        (set_slot s block q q.head (some x) (get_li s block q q.head)).hf1
        == (set_slot s block q q.head (some x) (get_li s block q q.head)).hf2

    emplace_impl-over :
        (q : ClQueue A) (x : A) (doc over : ℕ)
        → emplace_impl s block false q x
          ≡ with_counters q.dequeue_overcommit q.overcommit (
              emplace_impl s block false
                (record q { dequeue_overcommit = doc; overcommit = over })
                x)
    unfolding emplace_impl commit
    emplace_impl-over q x doc over =
        elim (Bool-cases
          ((q.cls (get_li s block q q.head)).hf2 == (q.cls (get_li s block q q.head)).tf2 + s)) [
            | inl full ↦ rw full (elim (Bool-cases (has_bit q.flags sp_enq)) [
              | inl y ↦ rw y refl
              | inr y ↦ rw y refl
            ])
            | inr room ↦ rw room (elim (Bool-cases (has_bit q.flags sp_enq)) [
              | inl y ↦ rw y refl
              | inr y ↦ rw y (elim (Bool-cases (has_bit q.flags mp_enq)) [
                | inl z ↦
                    rw z (elim (Bool-cases (turn q x)) [ inl w ↦ rw w refl | inr w ↦ rw w refl ])
                | inr z ↦ rw z refl
              ])
            ])
          ]

    sized : {q : ClQueue A} {xs : List A} → Represents s block q xs → Sized q
    sized r = record { layout = r.layout; capacity = r.capacity }

    -- also on members that hold anything, with the counters of the consumers at 0
    pub built-Represents :
        (q : ClQueue A)
        → Sized q
        → q.dequeue_overcommit ≡ 0
        → q.overcommit ≡ 0
        → Represents s block (clear s block q) [] × ((clear s block q).max_size ≡ q.max_size)
    built-Represents q g d o =
        subst (λ c. Represents s block c [] × (c.max_size ≡ q.max_size)) (sym (clear-opened q))
          (opened-Represents q q.dequeue_overcommit q.overcommit g (Over-start _ _ _ d o), refl)

    fresh-Over :
        {q : ClQueue A} {xs : List A}
        → Represents s block q xs
        → (has_bit q.flags sc_deq ≡ true) ⊎ (q.tail ≡ 0)
        → Over (has_bit q.flags sc_deq) q.dequeue_overcommit q.overcommit 0
    fresh-Over r (inl single) = rw single tt
    fresh-Over {q} r (inr start) =
        subst (Over (has_bit q.flags sc_deq) q.dequeue_overcommit q.overcommit) start r.over

    -- `clear` leaves the empty queue when there is a single consumer or nothing has been popped.
    pub clear-empty :
        (q : ClQueue A) (xs : List A)
        → Represents s block q xs
        → (has_bit q.flags sc_deq ≡ true) ⊎ (q.tail ≡ 0)
        → Represents s block (clear s block q) []
    clear-empty q xs r k =
        subst (λ c. Represents s block c []) (sym (clear-opened q))
          (opened-Represents q q.dequeue_overcommit q.overcommit (sized r) (fresh-Over r k))

    -- With several consumers, when the tail is not in line 0, an object that is pushed after `clear`
    -- is not found by the next pop.
    pub pop-clear :
        (q : ClQueue A) (xs : List A) (x : A)
        → Represents s block q xs
        → has_bit q.flags sc_deq ≡ false
        → get_li s block q q.tail ≢ 0
        → (q' : ClQueue A) × (q'' : ClQueue A) × (emplace_impl s block false (clear s block q) x
            ≡ some (ok true, q'))
          × (pop s block q' ≡ some (none, q''))
    unfolding pop count
    pop-clear q xs x r shared other =
        let c : ClQueue A = record q { head = 0; tail = 0; cls = opened q } in
        let fresh : Represents s block (record c { dequeue_overcommit = 0; overcommit = 0 }) [] =
          opened-Represents q 0 0 (sized r) (rw shared (omega arith, omega arith, refl)) in
        let room : 0 < q.max_size = omega (
          arith,
          r.capacity,
          scaled-le s q.max_line (omega (arith, r.layout.below 0)),
          r.layout.slots_pos,
        ) in
        let first : count (get_li s block q) (get_li s block q 0) 0 + 2 < 2 ^ 16 = omega arith in
        let (cls, pushed, p) = emplace_impl-Pushed s block false x fresh room (omega arith) first in
        let o = Over-shared _ q.dequeue_overcommit q.overcommit q.tail shared r.over in
        let l : ℕ = get_li s block q q.tail in
        let reset = opened-Reset q l (r.layout.below q.tail) in
        let nothing : ((cls l).hf2 == (cls l).tf2) ≡ true =
          ground (arith, p.hf2_next l, p.tf2_same l, reset, line_of-zero s block q.max_line_mask) in
        (
          record c { head = 1; cls = cls },
          record c {
            head = 1;
            cls = cls;
            dequeue_overcommit = add32 q.dequeue_overcommit 1;
            overcommit = add32 q.overcommit 1;
          },
          ap (λ d. emplace_impl s block false d x) (clear-opened q)
              ∙ emplace_impl-over c x 0 0
              ∙ ap (with_counters c.dequeue_overcommit c.overcommit) pushed,
          rw (shared, o.2, nothing) refl,
        )
