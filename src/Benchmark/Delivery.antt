-- ===== src/Benchmark/Delivery.antt =====
-- Numbers that go through a queue of the benchmark.
use mathlib.Core.List.{Perm, perm_middle}
use mathlib.Core.List.Perm as PermLaws
use mathlib.Core.List.{Permᴰ}
use mathlib.Core.Logic.{∥∥₁_elim}
use native.Mathlib.Nat.{ℕ_set}
use usable_lib.Fifo
use usable_lib.Prelude.{
  ℕ, zero, suc, ◌+◌, ◌<◌, ◌≡◌, ◌∙◌, refl, sym, ap, subst, true, false, some, List, [], ◌∷◌, ◌++◌,
  append_assoc, append-nil, length, length-append, arith, ◌==◌, Bool-cases, inl, inr, get_elem?,
}
use usable_lib.ConQueue.{emplace}
use usable_lib.ConQueue.Represents.{Represents}
use usable_lib.ConQueue.Calls.{emplace-push, pop-pop}
use usable_lib.Benchmark.{
  iterations, thread_numbers, test_over, Bench, Attempt, enqueues, dequeues, add_to, test_thread_op,
  test_thread_ops,
}
use usable_lib.Benchmark.Runs.{concat, put_in, length-put_in, run_test_task-test_over}

concat-add_to :
    (thread r : ℕ) (xss : List (List ℕ))
    → thread < length xss
    → (yss : List (List ℕ)) × (add_to thread r xss ≡ some yss)
      × (length yss ≡ length xss)
      × Perm (concat yss) (r ∷ concat xss)
unfolding add_to concat
concat-add_to thread r [] h = absurd (omega arith)
concat-add_to zero r (xs ∷ xss) h = (
  (xs ++ r ∷ []) ∷ xss,
  refl,
  refl,
  subst (λ ys. Perm ys (r ∷ (xs ++ concat xss))) (sym (append_assoc xs (r ∷ []) (concat xss)))
      (perm_middle xs (concat xss)),
)
concat-add_to (suc thread) r (xs ∷ xss) h =
    let (yss, e, same, moved) = concat-add_to thread r xss (omega arith) in
    (
      xs ∷ yss,
      rw e refl,
      ap suc same,
      PermLaws.trans (PermLaws.append_left xs moved) (perm_middle xs (concat xss)),
    )

-- Each number that was put in is with one thread or in the queue, which holds `xs`.
pub record Delivered (b : Bench) (threads : ℕ) (xs : List ℕ) : Type 0 where
  pub held : Represents b.queue xs
  pub all_threads : length b.taken ≡ threads
  pub each_once : Perm (concat b.taken ++ xs) b.put

-- the thread of each attempt to take out is one of `threads`
unfoldable pub Within : ℕ → List Attempt → Type 0
Within threads [] = Unit
Within threads (enqueues n ∷ attempts) = Within threads attempts
Within threads (dequeues thread ∷ attempts) = (thread < threads) × Within threads attempts

push_full : (cap n : ℕ) (xs : List ℕ) → (length xs == cap) ≡ true → Fifo.push cap xs n ≡ (false, xs)
push_full cap n xs e = rw e refl

push_free :
    (cap n : ℕ) (xs : List ℕ)
    → (length xs == cap) ≡ false
    → Fifo.push cap xs n ≡ (true, xs ++ n ∷ [])
push_free cap n xs e = rw e refl

enqueues-Delivered :
    (junk n threads : ℕ) (b : Bench) (xs : List ℕ)
    → Delivered b threads xs
    → (b' : Bench) × (test_thread_op junk b (enqueues n) ≡ some b')
      × (ys : List ℕ) × Delivered b' threads ys
unfolding test_thread_op
enqueues-Delivered junk n threads b xs d =
    let (q, e, _, held) = emplace-push junk n d.held in
    elim (Bool-cases (length xs == b.queue.max_size)) [
      | inl full ↦
          let same = push_full b.queue.max_size n xs full in
          let kept : Represents q xs = subst (λ r. Represents q r.1) same held in
          let returned : emplace junk b.queue n ≡ some (false, q) =
            subst (λ r. emplace junk b.queue n ≡ some (r.0, q)) same e in
          (
            record b { queue = q },
            rw returned refl,
            xs,
            record { held = kept; all_threads = d.all_threads; each_once = d.each_once },
          )
      | inr free ↦
          let same = push_free b.queue.max_size n xs free in
          let grown : Represents q (xs ++ n ∷ []) = subst (λ r. Represents q r.1) same held in
          let returned : emplace junk b.queue n ≡ some (true, q) =
            subst (λ r. emplace junk b.queue n ≡ some (r.0, q)) same e in
          (
            record b { queue = q; put = b.put ++ n ∷ [] },
            rw returned refl,
            xs ++ n ∷ [],
            record {
              held = grown;
              all_threads = d.all_threads;
              each_once =
                  subst (λ ys. Perm ys (b.put ++ n ∷ []))
                    (append_assoc (concat b.taken) xs (n ∷ []))
                    (PermLaws.append_right (n ∷ []) d.each_once);
            },
          )
    ]

dequeues-Delivered :
    (junk thread threads : ℕ) (b : Bench) (xs : List ℕ)
    → thread < threads
    → Delivered b threads xs
    → (b' : Bench) × (test_thread_op junk b (dequeues thread) ≡ some b')
      × (ys : List ℕ) × Delivered b' threads ys
unfolding test_thread_op
dequeues-Delivered junk thread threads b [] h d =
    let (q, e, _, held) = pop-pop junk [] d.held in
    (
      record b { queue = q },
      rw e refl,
      [],
      record { held = held; all_threads = d.all_threads; each_once = d.each_once },
    )
dequeues-Delivered junk thread threads b (x ∷ xs) h d =
    let (q, e, _, held) = pop-pop junk (x ∷ xs) d.held in
    let (yss, added, same, moved) =
      concat-add_to thread x b.taken (omega (arith, h, d.all_threads)) in
    (
      record b { queue = q; taken = yss },
      rw (e, added) refl,
      xs,
      record {
        held = held;
        all_threads = same ∙ d.all_threads;
        each_once =
            PermLaws.trans (PermLaws.append_right xs moved)
              (PermLaws.trans (PermLaws.symm (perm_middle (concat b.taken) xs)) d.each_once);
      },
    )

-- Whatever order the attempts of the threads are made in, one at a time, none of them reads a cell without
-- a number or gives a number to a thread that is not there, and each number that `enqueue` accepted is
-- with exactly one thread or still in the queue, exactly once.
pub test_thread_ops-Delivered :
    (junk threads : ℕ) (b : Bench) (attempts : List Attempt) (xs : List ℕ)
    → Delivered b threads xs
    → Within threads attempts
    → (b' : Bench) × (test_thread_ops junk b attempts ≡ some b')
      × (ys : List ℕ) × Delivered b' threads ys
unfolding test_thread_ops Within
test_thread_ops-Delivered junk threads b [] xs d w = (b, refl, xs, d)
test_thread_ops-Delivered junk threads b (enqueues n ∷ attempts) xs d w =
    let (b₁, e₁, ys, d₁) = enqueues-Delivered junk n threads b xs d in
    let (b₂, e₂, zs, d₂) = test_thread_ops-Delivered junk threads b₁ attempts ys d₁ w in
    (b₂, rw (e₁, e₂) refl, zs, d₂)
test_thread_ops-Delivered junk threads b (dequeues thread ∷ attempts) xs d w =
    let (b₁, e₁, ys, d₁) = dequeues-Delivered junk thread threads b xs w.0 d in
    let (b₂, e₂, zs, d₂) = test_thread_ops-Delivered junk threads b₁ attempts ys d₁ w.1 in
    (b₂, rw (e₁, e₂) refl, zs, d₂)

length-Permᴰ : {xs ys : List ℕ} → Permᴰ xs ys → length xs ≡ length ys
length-Permᴰ Permᴰ.nil = refl
length-Permᴰ (Permᴰ.cons e d) = ap suc (length-Permᴰ d)
length-Permᴰ (Permᴰ.swap e f) = refl
length-Permᴰ (Permᴰ.trans d e) = length-Permᴰ d ∙ length-Permᴰ e

length-Perm : (xs ys : List ℕ) → Perm xs ys → length xs ≡ length ys
length-Perm xs ys p = ∥∥₁_elim p (ℕ_set (length xs) (length ys)) length-Permᴰ

empty : (xs : List ℕ) → length xs ≡ 0 → xs ≡ []
empty [] h = refl
empty (x ∷ xs) h = absurd (omega arith)

-- For any two of the numbers of threads that `main` uses, from an empty queue on, and whatever order the
-- attempts of the threads are made in, one at a time: when every number of the producers has been accepted
-- and as many have been taken out as there are iterations, the queue is empty again and the check of the
-- sum holds.
pub test_thread_ops-test_over :
    (i j p c junk : ℕ) (b b' : Bench) (attempts : List Attempt)
    → get_elem? thread_numbers i ≡ some p
    → get_elem? thread_numbers j ≡ some c
    → Delivered b (p + c) []
    → Within (p + c) attempts
    → test_thread_ops junk b attempts ≡ some b'
    → Perm b'.put (put_in p)
    → length (concat b'.taken) ≡ iterations
    → Represents b'.queue [] × (test_over b'.taken ≡ true)
test_thread_ops-test_over i j p c junk b b' attempts ep ec start within run all enough =
    let (b₁, e, ys, d) = test_thread_ops-Delivered junk (p + c) b attempts [] start within in
    let same : b₁ ≡ b' = ground (arith, sym e ∙ run) in
    let d' : Delivered b' (p + c) ys = subst (λ x. Delivered x (p + c) ys) same d in
    let counted : length (concat b'.taken) + length ys ≡ iterations =
      sym (length-append (concat b'.taken) ys)
      ∙ length-Perm _ _ (PermLaws.trans d'.each_once all)
      ∙ length-put_in i p ep in
    let none_left : ys ≡ [] = empty ys (omega (arith, counted, enough)) in
    let whole : Perm (concat b'.taken) (put_in p) =
      subst (λ xs. Perm xs (put_in p))
        (ap (concat b'.taken ++◌) none_left ∙ append-nil (concat b'.taken))
        (PermLaws.trans d'.each_once all) in
    let (_, _, _, _, over) = run_test_task-test_over i j p c b'.taken ep ec whole in
    (subst (Represents b'.queue) none_left d'.held, over)
