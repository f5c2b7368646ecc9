-- ===== src/ConQueue/Session.antt =====
-- Any sequence of calls of `ConQueue`, one after the other.
use usable_lib.Fifo
use usable_lib.Prelude.{
  ℕ, ◌^◌, ◌<◌, ◌≡◌, refl, ap, subst, Bool, false, Option, some, List, [], ◌∷◌, has_bit, length,
  ◌>>=◌, ◌∙◌,
}
use usable_lib.ConQueue.{ConQueue, size, emplace, pop, clear}
use usable_lib.ConQueue.Flags.{sc_deq}
use usable_lib.ConQueue.Represents.{Represents, SameSetup}
use usable_lib.ConQueue.Calls.{emplace-push, pop-pop}
use usable_lib.ConQueue.Bulk.{push_bulk, pop_bulk}
use usable_lib.ConQueue.Bulk.Pushes.{push_bulk-push_bulk}
use usable_lib.ConQueue.Bulk.Pops.{pop_bulk-pop_bulk}
use usable_lib.ConQueue.Observe.{size-length, clear-empty}

pub data Call (A : Type 0) : Type 0 where
  push : A → Call A
  push_many : List A → Call A
  pop_one : Call A
  pop_many : ℕ → Call A
  ask_size : Call A
  reset : Call A

pub data Reply (A : Type 0) : Type 0 where
  pushed : Bool → Reply A
  count : ℕ → Reply A
  popped : Option A → Reply A
  drained : List A → Reply A
  done : Reply A

module _ {A : Type 0} where
  -- the calls on the queue of conqueue.h
  unfoldable pub perform : ℕ → ConQueue A → Call A → Option (Reply A × ConQueue A)
  perform junk q (push x) = do (b, q') ← emplace junk q x; some (pushed b, q')
  perform junk q (push_many ys) = do (n, q') ← push_bulk junk q ys; some (count n, q')
  perform junk q pop_one = do (x, q') ← pop junk q; some (popped x, q')
  perform junk q (pop_many n) = do (xs, q') ← pop_bulk junk q n; some (drained xs, q')
  perform junk q ask_size = some (count (size q), q)
  perform junk q reset = some (done, clear q)

  unfoldable pub perform_all : ℕ → ConQueue A → List (Call A) → Option (List (Reply A) × ConQueue A)
  unfolding perform
  perform_all junk q [] = some ([], q)
  perform_all junk q (c ∷ cs) = do
    (r, q') ← perform junk q c
    (rs, q'') ← perform_all junk q' cs
    some (r ∷ rs, q'')

  -- the same calls on a bounded list
  unfoldable pub ideal : ℕ → List A → Call A → Reply A × List A
  ideal cap xs (push x) = let (b, xs') = Fifo.push cap xs x in (pushed b, xs')
  ideal cap xs (push_many ys) = let (n, xs') = Fifo.push_bulk cap xs ys in (count n, xs')
  ideal cap xs pop_one = let (x, xs') = Fifo.pop xs in (popped x, xs')
  ideal cap xs (pop_many n) = let (ys, xs') = Fifo.pop_bulk n xs in (drained ys, xs')
  ideal cap xs ask_size = (count (length xs), xs)
  ideal cap xs reset = (done, [])

  unfoldable pub ideal_all : ℕ → List A → List (Call A) → List (Reply A) × List A
  unfolding ideal
  ideal_all cap xs [] = ([], xs)
  ideal_all cap xs (c ∷ cs) =
      let (r, xs') = ideal cap xs c in let (rs, xs'') = ideal_all cap xs' cs in (r ∷ rs, xs'')

  -- The calls that the contract covers: a bulk push of fewer than 2 ^ 32 objects, and a bulk pop of a
  -- queue with several consumers into a range of fewer than 2 ^ 32 places.
  abbrev pub Covered : ℕ → Call A → Type 0
  Covered flags (push_many ys) = length ys < 2 ^ 32
  Covered flags (pop_many n) = (n < 2 ^ 32) × (has_bit flags sc_deq ≡ false)
  Covered flags _ = Unit

  abbrev pub AllCovered : ℕ → List (Call A) → Type 0
  AllCovered flags [] = Unit
  AllCovered flags (c ∷ cs) = Covered flags c × AllCovered flags cs

  perform-ideal :
      (junk : ℕ) {q : ConQueue A} {xs : List A} (c : Call A)
      → Represents q xs
      → Covered q.flags c
      → (q' : ConQueue A) × (perform junk q c ≡ some ((ideal q.max_size xs c).0, q'))
        × SameSetup q q'
        × Represents q' (ideal q.max_size xs c).1
  unfolding perform ideal
  perform-ideal junk (push x) r ok =
      let (q', e, same, held) = emplace-push junk x r in (q', rw e, same, held)
  perform-ideal junk {xs = xs} pop_one r ok =
      let (q', e, same, held) = pop-pop junk xs r in (q', rw e, same, held)
  perform-ideal junk (push_many ys) r ok =
      let (q', e, same, held) = push_bulk-push_bulk junk r ys ok in (q', rw e, same, held)
  perform-ideal junk (pop_many n) r ok =
      let (q', e, same, held) = pop_bulk-pop_bulk junk r n ok.0 ok.1 in (q', rw e, same, held)
  perform-ideal junk {q} {xs} ask_size r ok =
      (q, ap (λ n. some (count n, q)) (size-length xs r).0, (refl, refl), r)
  perform-ideal junk {q} {xs} reset r ok =
      let (same, held) = clear-empty xs r in (clear q, refl, same, held)

  -- what a call does to a queue that holds `xs`, by the list's rule at capacity `bound`
  Performs : ℕ → (q : ConQueue A) → List A → Call A → ℕ → Type 0
  Performs junk q xs c bound =
      (q' : ConQueue A) × (perform junk q c ≡ some ((ideal bound xs c).0, q'))
      × SameSetup q q'
      × Represents q' (ideal bound xs c).1

  perform-at :
      (junk bound : ℕ) {q : ConQueue A} {xs : List A} (c : Call A)
      → Represents q xs
      → q.max_size ≡ bound
      → Covered q.flags c
      → Performs junk q xs c bound
  unfolding Performs
  perform-at junk bound {q} {xs} c r e ok =
      subst (Performs junk q xs c) e (perform-ideal junk c r ok)

  perform_all-from :
      (junk bound flags : ℕ) (cs : List (Call A)) {q : ConQueue A} {xs : List A}
      → Represents q xs
      → q.max_size ≡ bound
      → q.flags ≡ flags
      → AllCovered flags cs
      → (q' : ConQueue A) × (perform_all junk q cs ≡ some ((ideal_all bound xs cs).0, q'))
        × (q'.max_size ≡ bound)
        × Represents q' (ideal_all bound xs cs).1
  unfolding perform_all ideal_all Performs
  perform_all-from junk bound flags [] {q} r ec ef ok = (q, refl, ec, r)
  perform_all-from junk bound flags (c ∷ cs) {q} {xs} r ec ef (now, later) =
      let (q₁, e₁, same, held) = perform-at junk bound c r ec (rw ef now) in
      let (q₂, e₂, ec₂, held₂) =
        perform_all-from junk bound flags cs held (same.0 ∙ ec) (same.1 ∙ ef) later in
      (q₂, rw (e₁, e₂), ec₂, held₂)

  -- On an idle queue, in any mode of producers and consumers, whose size is exact only if it divides 2 ^ 32:
  -- no sequence of calls of push, pop, size, clear, push_bulk of fewer than 2 ^ 32 objects and, unless there
  -- is a single consumer, pop_bulk into fewer than 2 ^ 32 places, tells the queue from the bounded list of
  -- what it holds. Every call returns, with the reply of the list, also after the positions have wrapped.
  pub perform_all-ideal_all :
      (junk : ℕ) (cs : List (Call A)) {q : ConQueue A} {xs : List A}
      → Represents q xs
      → AllCovered q.flags cs
      → (q' : ConQueue A) × (perform_all junk q cs ≡ some ((ideal_all q.max_size xs cs).0, q'))
        × Represents q' (ideal_all q.max_size xs cs).1
  perform_all-ideal_all junk cs {q} r ok =
      let (q', e, ec, held) = perform_all-from junk q.max_size q.flags cs r refl refl ok in
      (q', e, held)
