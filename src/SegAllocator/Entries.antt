-- ===== src/SegAllocator/Entries.antt =====
-- The entries of the map and of the set, whatever their order: what each operation adds and removes.
use usable_lib.Prelude.{
  ℕ, ◌≤◌, ◌<◌, ◌≡◌, refl, Bool, true, false, List, [], ◌∷◌, if◌then◌else◌, arith, Bool-cases, none,
  some, inl, inr, dec_lt,
}
use usable_lib.SegAllocator.OffMap.{Seg}
use usable_lib.SegAllocator.SizeSet.{same, less, insert, erase, lower_bound}

-- whether a segment is an entry
unfoldable pub has : Seg → List Seg → Bool
has e [] = false
has e (g ∷ l) = let rest = has e l in if same e g then true else rest

-- The set.
pub insert-has :
    (e g : Seg) (l : List Seg) → has e (insert g l) ≡ (if same e g then true else has e l)
unfolding has insert
insert-has e g [] = refl
insert-has e g (h ∷ l) = ground (arith, insert-has e g l)

pub erase-has :
    (e g : Seg) (l : List Seg) → has e (erase g l) ≡ (if same e g then false else has e l)
unfolding has erase
erase-has e g [] = ground arith
erase-has e g (h ∷ l) = ground (arith, erase-has e g l)

-- in the order of the pairs
unfoldable pub Sorted : List Seg → Type 0
Sorted [] = Unit
Sorted (g ∷ l) = ((e : Seg) → has e l ≡ true → less g e ≡ true) × (Sorted l)

pub insert-Sorted : (g : Seg) (l : List Seg) → Sorted l → Sorted (insert g l)
unfolding has insert Sorted
insert-Sorted g [] s = (λ e h. absurd (ground arith), tt)
insert-Sorted g (h ∷ l) s = elim (Bool-cases (less g h)) [
  | inl y ↦ rw y ((λ e k. ground (arith, s.0 e)), s)
  | inr above ↦ rw above (elim (Bool-cases (same g h)) [
    | inl y ↦ rw y s
    | inr other ↦ rw other ((λ e k. ground (arith, s.0 e, insert-has e g l)), insert-Sorted g l s.1)
  ])
]

pub erase-Sorted : (g : Seg) (l : List Seg) → Sorted l → Sorted (erase g l)
unfolding has erase Sorted
erase-Sorted g [] s = tt
erase-Sorted g (h ∷ l) s = elim (Bool-cases (same g h)) [
  | inl y ↦ rw y (erase-Sorted g l s.1)
  | inr other ↦ rw other ((λ e k. ground (arith, s.0 e, erase-has e g l)), erase-Sorted g l s.1)
]

-- The first pair that is large enough is a smallest one that is.
pub lower_bound-least :
    (n : ℕ) (l : List Seg) (g : Seg)
    → Sorted l
    → lower_bound n l ≡ some g
    → has g l ≡ true × n ≤ g.len × ((e : Seg) → has e l ≡ true → n ≤ e.len → g.len ≤ e.len)
unfolding has lower_bound Sorted
lower_bound-least n [] g s k = absurd (ground arith)
lower_bound-least n (h ∷ l) g s k = elim (dec_lt h.len n) [
  | yes lt ↦
      let rest = lower_bound-least n l g s.1 (ground arith) in
      (ground arith, rest.1, λ e y z. rest.2 e (ground arith) z)
  | no ge ↦ (ground arith, ground arith, λ e y z. ground (arith, s.0 e))
]

pub lower_bound-none :
    (n : ℕ) (l : List Seg) (e : Seg) → lower_bound n l ≡ none → has e l ≡ true → e.len < n
unfolding has lower_bound
lower_bound-none n [] e k h = absurd (ground arith)
lower_bound-none n (g ∷ l) e k h = ground (arith, lower_bound-none n l e)
