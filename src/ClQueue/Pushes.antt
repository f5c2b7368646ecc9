-- ===== src/ClQueue/Pushes.antt =====
-- `CLQueue::emplace_impl`: a push does what the bounded queue of `Fifo` does.
use usable_lib.Fifo
use usable_lib.Prelude.{
  ℕ, ◌+◌, ◌^◌, ◌<◌, ◌≡◌, refl, ◌∙◌, Bool, true, false, List, arith, add32, has_bit, length, ◌==◌,
  some, Bool-cases, inl, inr, ok, throw,
}
use usable_lib.ConQueue.Flags.{sp_enq, mp_enq}
use usable_lib.ClQueue.Layout.{count, full_iff}
use usable_lib.ClQueue.Represents.{Represents, Pushed, Represents-grown}
use usable_lib.ClQueue.Turns.{Turn, Turn-default}
use usable_lib.ClQueue.{
  Line, ClQueue, queue_full, get_li, size, set_slot, line_full, bump_hf1, bump_hf2, commit,
  emplace_impl,
}

pub next-lt : (n : ℕ) → n + 1 < 2 ^ 32 → add32 n 1 ≡ n + 1
next-lt n h = omega arith

module _ {A : Type 0} (s : ℕ) (block : Bool) where
  line_full-Represents :
      {q : ClQueue A} {xs : List A}
      → Represents s block q xs
      → line_full s block (q.cls (get_li s block q q.head)) ≡ (length xs == q.max_size)
  line_full-Represents {q} {xs} r =
      let li = get_li s block q in
      let l : ℕ = li q.head in
      let h = r.layout.below q.head in
      let exact =
        full_iff r.layout q.tail q.head (omega (arith, r.until))
          (omega (arith, r.until, r.fits, r.capacity)) in
      ground (arith, r.pushed l h, r.popped l h, exact, r.until, r.capacity)

  -- the line of the head, written
  module _ (q : ClQueue A) (x : A) where
    abbrev at : ℕ
    at = get_li s block q q.head

    abbrev written : ℕ → Line A
    written = set_slot s block q q.head (some x)

    abbrev quiet : ℕ → Line A
    quiet = bump_hf2 s block at written

    abbrev passed : ℕ → Line A
    passed = bump_hf2 s block at (bump_hf1 s block (get_li s block q (q.head + 1)) written)

    quiet-Pushed :
        Turn
          (has_bit q.flags sp_enq)
          (has_bit q.flags mp_enq)
          q.max_line
          (get_li s block q (q.head + 1))
          (λ l. (quiet l).hf1)
          (λ l. (quiet l).hf2)
        → Pushed s block q x quiet
    quiet-Pushed t = record {
      hf2_next = λ l. ground arith;
      tf1_same = λ l. ground arith;
      tf2_same = λ l. ground arith;
      written = λ l j. ground arith;
      turn = t;
    }

    passed-Pushed :
        Turn
          (has_bit q.flags sp_enq)
          (has_bit q.flags mp_enq)
          q.max_line
          (get_li s block q (q.head + 1))
          (λ l. (passed l).hf1)
          (λ l. (passed l).hf2)
        → Pushed s block q x passed
    passed-Pushed t = record {
      hf2_next = λ l. ground arith;
      tf1_same = λ l. ground arith;
      tf2_same = λ l. ground arith;
      written = λ l j. ground arith;
      turn = t;
    }

  pub commit-Pushed :
      {q : ClQueue A} {xs : List A} (x : A) (h : ℕ)
      → Represents s block q xs
      → q.head + 1 < 2 ^ 32
      → count (get_li s block q) (get_li s block q q.head) q.head + 2 < 2 ^ 16
      → (cls : ℕ → Line A) × (commit s block (record q { head = h }) q.head x
          ≡ some (record q { head = h; cls = cls }))
        × Pushed s block q x cls
  unfolding commit
  commit-Pushed {q} {xs} x h r small few = elim (Bool-cases (has_bit q.flags sp_enq)) [
    | inl single ↦ (quiet q x, rw single refl, quiet-Pushed q x (rw single tt))
    | inr shared ↦ elim (Bool-cases (has_bit q.flags mp_enq)) [
      | inl default ↦
          let turn = Turn-default _ _ _ _ _ _ shared default r.producers in
          let here = turn (at q x) (r.layout.below q.head) in
          let ready : ((written q x (at q x)).hf1 == (written q x (at q x)).hf2) ≡ true =
            ground arith in
          (
            passed q x,
            rw (shared, default, ready, next-lt q.head small) refl,
            passed-Pushed q x (
                rw (shared, default)
                  (λ l lt. ground (arith, turn l lt, here, r.pushed l lt, r.early l lt))),
          )
      | inr rts ↦ (quiet q x, rw (shared, rts) refl, quiet-Pushed q x (rw (shared, rts) tt))
    ]
  ]

  pub emplace_impl-Pushed :
      {q : ClQueue A} {xs : List A} (unsafe : Bool) (x : A)
      → Represents s block q xs
      → length xs < q.max_size
      → q.head + 1 < 2 ^ 32
      → count (get_li s block q) (get_li s block q q.head) q.head + 2 < 2 ^ 16
      → (cls : ℕ → Line A) × (emplace_impl s block unsafe q x
          ≡ some (ok true, record q { head = q.head + 1; cls = cls }))
        × Pushed s block q x cls
  unfolding emplace_impl
  emplace_impl-Pushed {q} {xs} unsafe x r lt small few =
      let room : line_full s block (q.cls (get_li s block q q.head)) ≡ false =
        line_full-Represents r ∙ ground arith in
      let (cls, done, p) = commit-Pushed x (q.head + 1) r small few in
      (cls, rw (room, next-lt q.head small, done) refl, p)

  -- On an idle queue that is laid out as one without USE_BLOCK, where positions less than a round apart never
  -- share a slot, with less than 2 ^ 32 pushes so far, and less than 2 ^ 16 - 2 of them to the line of the
  -- head, a push in any mode returns. It fails exactly when the queue holds `max_size` objects; otherwise
  -- the queue holds the object behind those that it held before.
  pub emplace_impl-push :
      {q : ClQueue A} {xs : List A} (x : A)
      → Represents s block q xs
      → q.head + 1 < 2 ^ 32
      → count (get_li s block q) (get_li s block q q.head) q.head + 2 < 2 ^ 16
      → (q' : ClQueue A) × (emplace_impl s block false q x
          ≡ some (ok (Fifo.push q.max_size xs x).0, q'))
        × Represents s block q' (Fifo.push q.max_size xs x).1
  unfolding emplace_impl
  emplace_impl-push {q} {xs} x r small few = elim (Bool-cases (length xs == q.max_size)) [
    | inl full ↦
        let test = line_full-Represents r ∙ full in
        (
          q,
          rw (test, full)
              (elim (Bool-cases (has_bit q.flags sp_enq)) [
                | inl y ↦ rw y refl
                | inr y ↦ rw y refl
              ]),
          rw full r,
        )
    | inr room ↦
        let lt : length xs < q.max_size = ground (arith, r.fits) in
        let (cls, done, p) = emplace_impl-Pushed false x r lt small few in
        (
          record q { head = q.head + 1; cls = cls },
          rw room done,
          rw room (Represents-grown s block x cls r lt small few p),
        )
  ]

  -- A push that does not check, by more than one producer, to a full queue throws and leaves the
  -- queue with a size of one more than its capacity.
  pub emplace_impl-unsafe :
      {q : ClQueue A} {xs : List A} (x : A)
      → Represents s block q xs
      → has_bit q.flags sp_enq ≡ false
      → q.head + 1 < 2 ^ 32
      → length xs ≡ q.max_size
      → (q' : ClQueue A) × (emplace_impl s block true q x ≡ some (throw queue_full, q'))
        × (size s block q' ≡ q.max_size + 1)
  unfolding emplace_impl
  emplace_impl-unsafe {q} {xs} x r shared small full =
      let test : line_full s block (q.cls (get_li s block q q.head)) ≡ true =
        line_full-Represents r ∙ ground arith in
      (
        record q { head = q.head + 1 },
        rw (test, shared, next-lt q.head small) refl,
        omega (arith, r.until),
      )
