-- ===== src/Mbench/Phases.antt =====
-- Which phases a thread reports.
use usable_lib.Prelude.{
  ℕ, true, false, zero, suc, ◌+◌, ◌*◌, ◌/◌, ◌%◌, ◌-◌, ◌^◌, ◌≤◌, ◌<◌, ◌≡◌, ◌⊎◌, inl, inr, ◌∙◌, refl,
  ap, List, [], ◌∷◌, ok, map, arith, ◌==◌, dec_lt,
}
use usable_lib.Mbench.{Callback, op, phase, thread_ops, thread_loop, thread_body}
use usable_lib.Mbench.Ranges.{range}
use native.Mathlib.Nat.{
  div-eq_of_lt-le, mod-eq-sub-div-mul, div-add-mod', mod-lt, add-mul, zero-div, le-div_iff_mul-le,
}

-- the numbers of the operations, and those of the reports
abbrev pub ops : List Callback → List ℕ
ops [] = []
ops (op n ∷ cs) = n ∷ ops cs
ops (phase n ∷ cs) = ops cs

abbrev pub phases : List Callback → List ℕ
phases [] = []
phases (op n ∷ cs) = phases cs
phases (phase n ∷ cs) = n ∷ phases cs

-- A round completes an interval or not.
interval_cases :
    (m i : ℕ)
    → 0 < m
    → (((i + 1) % m ≡ 0) × ((i + 1) / m ≡ i / m + 1))
      ⊎ (((i + 1) % m == 0) ≡ false) × ((i + 1) / m ≡ i / m)
interval_cases m i pos =
    let rest : i / m * m + i % m ≡ i = div-add-mod' i m in
    let small : i % m < m = mod-lt i pos in
    let next : (i / m + 1) * m ≡ i / m * m + m = add-mul (i / m) 1 m ∙ omega arith in
    let next_but_one : (i / m + 1 + 1) * m ≡ (i / m + 1) * m + m =
      add-mul (i / m + 1) 1 m ∙ omega arith in
    elim (dec_lt (i % m + 1) m) [
      | yes lt ↦
          let same : (i + 1) / m ≡ i / m = div-eq_of_lt-le m (omega arith) (omega arith) in
          let left : (i + 1) % m ≡ i + 1 - i / m * m =
            mod-eq-sub-div-mul (i + 1) m ∙ ap (λ k. i + 1 - k * m) same in
          inr (ground (arith, left), same)
      | no ge ↦
          let more : (i + 1) / m ≡ i / m + 1 = div-eq_of_lt-le m (omega arith) (omega arith) in
          let left : (i + 1) % m ≡ i + 1 - (i / m + 1) * m =
            mod-eq-sub-div-mul (i + 1) m ∙ ap (λ k. i + 1 - k * m) more in
          inl (omega (arith, left), more)
    ]

-- the number that is reported with phase `k` of a run
abbrev pub reported : ℕ → ℕ → ℕ
reported m k = k * m % 2 ^ 32

thread_loop-ops :
    (m t p i o count : ℕ)
    → 0 < m
    → (cs : List Callback) × (r : ℕ) × (thread_loop m t p i o count ≡ ok (cs, o + r))
      × (ops cs ≡ thread_ops t p i count)
      × (phases cs ≡ map (reported m) (range (o + 1) r))
      × (i / m + r ≡ (i + count) / m)
unfolding thread_loop thread_ops range
thread_loop-ops m t p i o zero pos = (
  [],
  0,
  ap (λ k. ok ([], k)) (omega arith),
  refl,
  refl,
  omega arith ∙ ap (λ k. k / m) {x = i} {y = i + 0} (omega arith),
)
thread_loop-ops m t p i o (suc count) pos =
    let some_m : (m == 0) ≡ false = ground arith in
    let moved : (i + 1 + count) / m ≡ (i + suc count) / m = ap (λ k. k / m) (omega arith) in
    elim (interval_cases m i pos) [
      | inl (due, more) ↦
          let (cs, r, e, os, ps, total) = thread_loop-ops m t p (i + 1) (o + 1) count pos in
          let now : ((i + 1) % m == 0) ≡ true = ground (arith, due) in
          (
            op ((t * p + i) % 2 ^ 32) ∷ phase ((o + 1) * m % 2 ^ 32) ∷ cs,
            suc r,
            rw (some_m, now, e)
                (ap (λ k. ok (op ((t * p + i) % 2 ^ 32) ∷ phase ((o + 1) * m % 2 ^ 32) ∷ cs, k))
                  (omega arith)),
            ap (λ os. ((t * p + i) % 2 ^ 32) ∷ os) os,
            ap (λ ps. ((o + 1) * m % 2 ^ 32) ∷ ps) ps,
            omega (arith, more, total, moved),
          )
      | inr (later, same) ↦
          let (cs, r, e, os, ps, total) = thread_loop-ops m t p (i + 1) o count pos in
          (
            op ((t * p + i) % 2 ^ 32) ∷ cs,
            r,
            rw (some_m, later, e) refl,
            ap (λ os. ((t * p + i) % 2 ^ 32) ∷ os) os,
            ps,
            omega (arith, same, total, moved),
          )
    ]

-- When the iterations are at least as many as the phases asked for, of which there is at least 1, a thread
-- calls each of its operations once, in order, and reports one phase for each full interval of its own
-- operations, with the numbers of the phases that follow those reported before it.
pub thread_body-thread_ops :
    (iteration output_internal_time n thread_id output_time : ℕ)
    → 1 ≤ output_internal_time
    → output_internal_time ≤ iteration
    → let internal = iteration / output_internal_time in
      let r = iteration / n / internal in
      (cs : List Callback) × (thread_body iteration output_internal_time n thread_id output_time
        ≡ ok (cs, output_time + r))
      × (ops cs ≡ thread_ops thread_id (iteration / n) 0 (iteration / n))
      × (phases cs ≡ map (reported internal) (range (output_time + 1) r))
unfolding thread_body
thread_body-thread_ops iteration output_internal_time n thread_id output_time one enough =
    let internal = iteration / output_internal_time in
    let pos : 0 < internal =
      (le-div_iff_mul-le {k = output_internal_time} {x = 1} {y = iteration} (omega arith)).1
        (omega arith) in
    let some_time : (output_internal_time == 0) ≡ false = ground arith in
    let (cs, r, e, os, ps, total) =
      thread_loop-ops internal thread_id (iteration / n) 0 output_time (iteration / n) pos in
    let all : r ≡ iteration / n / internal = omega (
      arith,
      total,
      zero-div internal,
      ap (λ k. k / internal) {x = 0 + iteration / n} {y = iteration / n} (omega arith),
    ) in
    (
      cs,
      rw some_time (e ∙ ap (λ k. ok (cs, output_time + k)) all),
      os,
      ps ∙ ap (λ k. map (reported internal) (range (output_time + 1) k)) all,
    )
