-- ===== src/Mbench/Ranges.antt =====
-- What the threads of one group do together.
use usable_lib.Prelude.{
  ℕ, true, false, zero, suc, ◌+◌, ◌*◌, ◌/◌, ◌%◌, ◌^◌, ◌≤◌, ◌<◌, ◌≡◌, ◌∙◌, refl, sym, ap, ap₂, List,
  [], ◌∷◌, ◌++◌, append-nil, ok, arith, ◌==◌,
}
use usable_lib.Mbench.{thread_ops, group_ops, run_test_task}
use native.Mathlib.Nat.{mod-eq_of_lt, div-add-mod', suc-mul, add-mul, zero-add, mul_comm}

-- `count` numbers from `a` on
unfoldable pub range : ℕ → ℕ → List ℕ
range a zero = []
range a (suc count) = a ∷ range (a + 1) count

pub range-append : (a x y : ℕ) → range a x ++ range (a + x) y ≡ range a (x + y)
unfolding range
range-append a zero y =
    let start : a + 0 ≡ a = omega arith in
    let count : 0 + y ≡ y = omega arith in rw (start, count) refl
range-append a (suc x) y =
    let next : a + suc x ≡ a + 1 + x = omega arith in
    let count : suc x + y ≡ suc (x + y) = omega arith in
    rw count (ap (◌∷◌ a) (ap (λ b. range (a + 1) x ++ range b y) next ∙ range-append (a + 1) x y))

thread_ops-range :
    (t p i count : ℕ)
    → t * p + i + count ≤ 2 ^ 32
    → thread_ops t p i count ≡ range (t * p + i) count
unfolding range thread_ops
thread_ops-range t p i zero h = refl
thread_ops-range t p i (suc count) h =
    let same : t * p + i + 1 ≡ t * p + (i + 1) = omega arith in
    ap₂ (λ x xs. x ∷ xs) (mod-eq_of_lt (omega arith))
      (thread_ops-range t p (i + 1) count (omega arith) ∙ ap (λ a. range a count) (sym same))

pub group_ops-range : (p t n : ℕ) → (t + n) * p ≤ 2 ^ 32 → group_ops p t n ≡ range (t * p) (n * p)
unfolding range group_ops
group_ops-range p t zero h = let none_left : 0 * p ≡ 0 = omega arith in rw none_left refl
group_ops-range p t (suc n) h =
    let next : (t + 1) * p ≡ t * p + p = add-mul t 1 p ∙ ap (λ k. t * p + k) (omega arith) in
    let whole : suc n * p ≡ p + n * p = omega (arith, suc-mul n p) in
    let all : (t + suc n) * p ≡ t * p + suc n * p = add-mul t (suc n) p in
    let others : (t + 1 + n) * p ≡ (t + suc n) * p = ap (λ k. k * p) (omega arith) in
    let first : thread_ops t p 0 p ≡ range (t * p) p =
      thread_ops-range t p 0 p (omega arith) ∙ ap (λ a. range a p) (omega arith) in
    ap₂ (λ xs ys. xs ++ ys) first
      (group_ops-range p (t + 1) n (omega arith) ∙ ap (λ a. range a (n * p)) next)
    ∙ range-append (t * p) p (n * p)
    ∙ ap (range (t * p)) (sym whole)

-- When one group of threads runs and their number divides the number of iterations, the threads together
-- perform each operation below it once, in blocks in the order of the threads.
pub run_test_task-range :
    (n iteration : ℕ)
    → 1 ≤ n
    → iteration % n ≡ 0
    → iteration < 2 ^ 32
    → run_test_task (n ∷ []) 0 iteration ≡ ok (range 0 iteration)
unfolding run_test_task
run_test_task-range n iteration h e small =
    let some_threads : (n == 0) ≡ false = ground arith in
    let divides : (iteration % n == 0) ≡ true = ground (arith, e) in
    let all : n * (iteration / n) ≡ iteration =
      omega (arith, e, div-add-mod' iteration n, mul_comm n (iteration / n)) in
    let ops : group_ops (iteration / n) 0 n ≡ range 0 iteration =
      group_ops-range (iteration / n) 0 n
        (omega (arith, all, ap (λ k. k * (iteration / n)) (zero-add n)))
      ∙ ap₂ range (omega arith) all in
    rw (some_threads, divides, append-nil (group_ops (iteration / n) 0 n), ops) refl
