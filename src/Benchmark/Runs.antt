-- ===== src/Benchmark/Runs.antt =====
-- What the threads of a run put in and take out.
use native.Mathlib.Nat.{ℕ_set, suc-mul, mul-suc}
use mathlib.Core.List.{Perm, Permᴰ}
use mathlib.Core.Logic.{∥∥₁_elim}
use usable_lib.Prelude.{
  ℕ, zero, suc, ◌+◌, ◌*◌, ◌/◌, ◌%◌, ◌≤◌, ◌≡◌, ◌∙◌, refl, sym, ap, ap₂, true, false, some, List, [],
  ◌∷◌, ◌++◌, map, length, length-append, get_elem?, sum, sum-append, ok, arith, ◌==◌,
}
use usable_lib.Mbench.{group_ops, thread_ops, run_test_task}
use usable_lib.Mbench.Ranges.{range, range-append, group_ops-range}
use usable_lib.Benchmark.{iterations, thread_numbers, test_over}

-- what `p` producers put in
pub put_in : ℕ → List ℕ
put_in p = group_ops (iterations / p) 0 p

unfoldable pub concat : List (List ℕ) → List ℕ
concat [] = []
concat (xs ∷ xss) = xs ++ concat xss

sum-concat : (xss : List (List ℕ)) → sum (map sum xss) ≡ sum (concat xss)
unfolding concat
sum-concat [] = refl
sum-concat (xs ∷ xss) = omega (arith, sum-concat xss, sum-append xs (concat xss))

sum-range : (n : ℕ) → 2 * sum (range 0 n) + n ≡ n * n
unfolding range
sum-range zero = refl
sum-range (suc n) =
    let last : range 0 (suc n) ≡ range 0 n ++ n ∷ [] =
      ap (range 0) {x = suc n} {y = n + 1} (omega arith)
      ∙ sym (range-append 0 n 1)
      ∙ ap (λ k. range 0 n ++ k ∷ []) {x = 0 + n} {y = n} (omega arith) in
    let total : sum (range 0 (suc n)) ≡ sum (range 0 n) + n =
      ap sum last ∙ sum-append (range 0 n) (n ∷ []) ∙ omega arith in
    omega (arith, total, sum-range n, suc-mul n (suc n), mul-suc n n)

sum-Permᴰ : {xs ys : List ℕ} → Permᴰ xs ys → sum xs ≡ sum ys
sum-Permᴰ Permᴰ.nil = refl
sum-Permᴰ (Permᴰ.cons e d) = omega (arith, e, sum-Permᴰ d)
sum-Permᴰ (Permᴰ.swap e f) = omega (arith, e, f)
sum-Permᴰ (Permᴰ.trans d e) = sum-Permᴰ d ∙ sum-Permᴰ e

-- the sum does not depend on the order
sum-Perm : (xs ys : List ℕ) → Perm xs ys → sum xs ≡ sum ys
sum-Perm xs ys p = ∥∥₁_elim p (ℕ_set (sum xs) (sum ys)) sum-Permᴰ

length-thread_ops : (t p i count : ℕ) → length (thread_ops t p i count) ≡ count
unfolding thread_ops
length-thread_ops t p i zero = refl
length-thread_ops t p i (suc count) = ap suc (length-thread_ops t p (i + 1) count)

length-group_ops : (p t n : ℕ) → length (group_ops p t n) ≡ n * p
unfolding group_ops
length-group_ops p t zero = omega arith
length-group_ops p t (suc n) = omega (
  arith,
  length-append (thread_ops t p 0 p) (group_ops p (t + 1) n),
  length-thread_ops t p 0 p,
  length-group_ops p (t + 1) n,
  suc-mul n p,
)

-- each number of threads divides the number of iterations
thread_numbers_divide :
    (i p : ℕ)
    → get_elem? thread_numbers i ≡ some p
    → (1 ≤ p) × (iterations % p ≡ 0) × (p * (iterations / p) ≡ iterations)
thread_numbers_divide zero p e = ground (arith, e)
thread_numbers_divide (suc zero) p e = ground (arith, e)
thread_numbers_divide (suc (suc zero)) p e = ground (arith, e)
thread_numbers_divide (suc (suc (suc zero))) p e = ground (arith, e)
thread_numbers_divide (suc (suc (suc (suc zero)))) p e = ground (arith, e)
thread_numbers_divide (suc (suc (suc (suc (suc zero))))) p e = ground (arith, e)
thread_numbers_divide (suc (suc (suc (suc (suc (suc zero)))))) p e = ground (arith, e)
thread_numbers_divide (suc (suc (suc (suc (suc (suc (suc zero))))))) p e = ground (arith, e)
thread_numbers_divide (suc (suc (suc (suc (suc (suc (suc (suc i)))))))) p e = ground (arith, e)

pub length-put_in : (i p : ℕ) → get_elem? thread_numbers i ≡ some p → length (put_in p) ≡ iterations
unfolding put_in
length-put_in i p e =
    let (_, _, whole) = thread_numbers_divide i p e in
    omega
      (arith, length-group_ops p 0 (iterations / p), length-group_ops (iterations / p) 0 p, whole)

put_in-range : (i p : ℕ) → get_elem? thread_numbers i ≡ some p → put_in p ≡ range 0 iterations
unfolding put_in
put_in-range i p e =
    let (one, divides, whole) = thread_numbers_divide i p e in
    let from_nought : (0 + p) * (iterations / p) ≡ iterations =
      ap (λ k. k * (iterations / p)) (omega arith) ∙ whole in
    group_ops-range (iterations / p) 0 p (omega (arith, from_nought))
    ∙ ap₂ range (omega arith) whole

-- For any two of the numbers of threads that `main` uses, `run_test_task` throws nothing, the producers put
-- in each number below a million once and the consumers take out as many; and when what they take out is
-- what was put in, in any order and spread over the threads in any way, the check of the sum holds.
pub run_test_task-test_over :
    (i j p c : ℕ) (taken : List (List ℕ))
    → get_elem? thread_numbers i ≡ some p
    → get_elem? thread_numbers j ≡ some c
    → Perm (concat taken) (put_in p)
    → (take_out : List ℕ) × (run_test_task (p ∷ c ∷ []) 0 iterations ≡ ok (put_in p ++ take_out))
      × (length take_out ≡ iterations)
      × (put_in p ≡ range 0 iterations)
      × (test_over taken ≡ true)
unfolding test_over run_test_task put_in
run_test_task-test_over i j p c taken ep ec same =
    let (p_one, p_divides, p_whole) = thread_numbers_divide i p ep in
    let (c_one, c_divides, c_whole) = thread_numbers_divide j c ec in
    let p_some : (p == 0) ≡ false = ground arith in
    let c_some : (c == 0) ≡ false = ground arith in
    let p_exact : (iterations % p == 0) ≡ true = ground (arith, p_divides) in
    let c_exact : (iterations % c == 0) ≡ true = ground (arith, c_divides) in
    let all = put_in-range i p ep in
    let total : sum (map sum taken) ≡ sum (range 0 iterations) =
      sum-concat taken ∙ sum-Perm (concat taken) (put_in p) same ∙ ap sum all in
    (
      group_ops (iterations / c) (0 + p) c ++ [],
      rw (p_some, p_exact, c_some, c_exact) refl,
      omega (
        arith,
        length-append (group_ops (iterations / c) (0 + p) c) [],
        length-group_ops (iterations / c) (0 + p) c,
        c_whole,
      ),
      all,
      ground (arith, total, sum-range iterations),
    )
