-- ===== src/PlAllocator/Owned.antt =====
-- Every object of the allocator underneath is either kept once or with the caller.
use usable_lib.Prelude.{
  ℕ, ◌+◌, ◌≡◌, Bool, true, false, List, [], ◌∷◌, if◌then◌else◌, ◌==◌, ltb, arith, Bool-cases, bit,
  inl, inr,
}
use usable_lib.PlAllocator.{Alloc, PlAllocator, allocate, deallocate, grow}

unfoldable pub count : ℕ → List ℕ → ℕ
count q [] = 0
count q (p ∷ l) = bit (q == p) + count q l

-- a set of objects with one more and one less
abbrev pub with : (ℕ → Bool) → ℕ → ℕ → Bool
with out p q = if q == p then true else out q

abbrev pub without : (ℕ → Bool) → ℕ → ℕ → Bool
without out p q = if q == p then false else out q

-- `live h` are the objects that `under` has given out and not got back.
module _ (under : Alloc) (live : under.Heap → ℕ → Bool)
    (fresh : (h : under.Heap) (n : ℕ) → live h (under.allocate h n).0 ≡ false)
    (given : (h : under.Heap) (n q : ℕ)
      → live (under.allocate h n).1 q ≡ with (live h) (under.allocate h n).0 q)
    (freed : (h : under.Heap) (p n q : ℕ)
      → live (under.deallocate h p n) q ≡ without (live h) p q) where
  unfoldable pub Owned : PlAllocator under.Heap → (ℕ → Bool) → Type 0
  Owned m out = (q : ℕ) → count q m.v_pl + bit (out q) ≡ bit (live m.heap q)

  abbrev Gives : (ℕ → Bool) → ℕ × PlAllocator under.Heap → Type 0
  Gives out r = (out r.0 ≡ false) × Owned r.1 (with out r.0)

  grow-Gives :
      (m : PlAllocator under.Heap) (out : ℕ → Bool) (n : ℕ)
      → Owned m out
      → Gives out (grow under m n)
  unfolding Owned
  grow-Gives m out n o = (
    ground (arith, fresh m.heap n, o (under.allocate m.heap n).0),
    λ q. ground (arith, given m.heap n q, o q, o (under.allocate m.heap n).0, fresh m.heap n),
  )

  take-Gives :
      (l : List ℕ) (h : under.Heap) (out : ℕ → Bool) (n : ℕ)
      → ltb 1 n ≡ false
      → Owned (record { v_pl = l; heap = h }) out
      → Gives out (allocate under (record { v_pl = l; heap = h }) n)
  unfolding Owned allocate count
  take-Gives [] h out n small o = rw small (grow-Gives (record { v_pl = []; heap = h }) out n o)
  take-Gives (p ∷ l) h out n small o = rw small (ground (arith, o p), λ q. ground (arith, o q, o p))

  -- Over an allocator that gives out only objects that are not out, `allocate` returns an object
  -- that the caller does not have, and after it each object is kept once, or with the caller, or
  -- not out.
  pub allocate-Owned :
      (m : PlAllocator under.Heap) (out : ℕ → Bool) (n : ℕ)
      → Owned m out
      → (out (allocate under m n).0 ≡ false)
        × Owned (allocate under m n).1 (with out (allocate under m n).0)
  unfolding Owned allocate count
  allocate-Owned m out n o = elim (Bool-cases (ltb 1 n)) [
    | inl large ↦ rw large (grow-Gives m out n o)
    | inr small ↦ take-Gives m.v_pl m.heap out n small o
  ]

  -- Over an allocator that gives out only objects that are not out and takes back what it is
  -- given, `deallocate` of an object that the caller has leaves each object kept once, or with the
  -- caller, or not out.
  pub deallocate-Owned :
      (m : PlAllocator under.Heap) (out : ℕ → Bool) (p n : ℕ)
      → Owned m out
      → out p ≡ true
      → Owned (deallocate under m p n) (without out p)
  unfolding Owned deallocate count
  deallocate-Owned m out p n o h q = elim (Bool-cases (ltb 1 n)) [
    | inl y ↦ rw y (ground (arith, freed m.heap p n q, o q, o p))
    | inr y ↦ rw y (ground (arith, o q, o p))
  ]
