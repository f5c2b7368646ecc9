-- ===== src/PlAllocator/Tests.antt =====
-- An allocator that gives out numbers above all that are out, and a few calls over it.
use usable_lib.Prelude.{
  ℕ, suc, ◌+◌, ◌≤◌, ◌≡◌, refl, Bool, true, false, List, [], ◌∷◌, if◌then◌else◌, ◌==◌, arith,
}
use usable_lib.PlAllocator.{Alloc, PlAllocator, allocate}
use usable_lib.PlAllocator.Owned.{Owned, count, with, allocate-Owned}

abbrev total : List ℕ → ℕ
total [] = 0
total (p ∷ l) = p + total l

abbrev is_out : List ℕ → ℕ → Bool
is_out [] q = false
is_out (p ∷ l) q = if q == p then true else is_out l q

abbrev drop_all : ℕ → List ℕ → List ℕ
drop_all p [] = []
drop_all p (q ∷ l) = let rest = drop_all p l in if q == p then rest else q ∷ rest

abbrev numbers : Alloc
numbers = record {
  Heap = List ℕ;
  allocate = λ h n. (suc (total h), suc (total h) ∷ h);
  deallocate = λ h p n. drop_all p h;
}

is_out_above : (h : List ℕ) (q : ℕ) → total h + 1 ≤ q → is_out h q ≡ false
is_out_above [] q k = refl
is_out_above (p ∷ h) q k = ground (arith, is_out_above h q)

drop_all_lem :
    (h : List ℕ) (p q : ℕ) → is_out (drop_all p h) q ≡ (if q == p then false else is_out h q)
drop_all_lem [] p q = ground arith
drop_all_lem (r ∷ h) p q = ground (arith, drop_all_lem h p q)

fresh_number : (h : List ℕ) (n : ℕ) → is_out h (suc (total h)) ≡ false
fresh_number h n = is_out_above h (suc (total h)) (omega arith)

-- object 7 is kept and object 9 is with the caller
abbrev kept : PlAllocator (List ℕ)
kept = record { v_pl = 7 ∷ []; heap = 7 ∷ 9 ∷ [] }

abbrev nine : ℕ → Bool
nine q = q == 9

kept-Owned :
    Owned numbers is_out fresh_number (λ h n q. refl) (λ h p n q. drop_all_lem h p q) kept nine
unfolding Owned count
kept-Owned q = ground arith

allocate-Owned_example :
    (nine (allocate numbers kept 1).0 ≡ false)
    × Owned numbers is_out fresh_number
        (λ h n q. refl)
        (λ h p n q. drop_all_lem h p q)
        (allocate numbers kept 1).1
        (with nine (allocate numbers kept 1).0)
allocate-Owned_example =
    allocate-Owned numbers is_out fresh_number (λ h n q. refl) (λ h p n q. drop_all_lem h p q) kept
      nine 1 kept-Owned
