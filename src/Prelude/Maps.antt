-- ===== src/Prelude/Maps.antt =====
-- Maps from numbers as lists of entries with different keys, as `std::unordered_map` keeps them.
use Prim.Native.Nat.{ℕ, suc}
use mathlib.Core.Path.{◌≡◌, refl}
use mathlib.Core.Logic.{inl, inr}
use mathlib.Core.Option.{Option, none, some}
use mathlib.Core.List.{List, [], ◌∷◌}
use native.Mathlib.Omega.{arith}
use usable_lib.Prelude.Tests.{if◌then◌else◌, ◌==◌, Bool-cases}
use usable_lib.Prelude.Lists.{length}

module _ {B : Type 0} where
  -- What is found under a key: the first entry.
  unfoldable pub find : List (ℕ × B) → ℕ → Option B
  find [] u = none
  find ((v, b) ∷ m) u = if v == u then some b else find m u

  unfoldable pub erase : List (ℕ × B) → ℕ → List (ℕ × B)
  erase [] u = []
  erase ((v, b) ∷ m) u = let rest = erase m u in if v == u then rest else (v, b) ∷ rest

  -- `map[key] = value`
  unfoldable pub assign : List (ℕ × B) → ℕ → B → List (ℕ × B)
  assign m u b = (u, b) ∷ erase m u

  -- no key occurs twice
  unfoldable pub Once : List (ℕ × B) → Type 0
  Once [] = Unit {0}
  Once ((u, b) ∷ m) = (find m u ≡ none) × Once m

  pub find-erase :
      (m : List (ℕ × B)) (u v : ℕ) → find (erase m u) v ≡ (if u == v then none else find m v)
  unfolding find erase
  find-erase [] u v = ground arith
  find-erase ((w, b) ∷ m) u v = ground (arith, find-erase m u v)

  pub erase_absent : (m : List (ℕ × B)) (u : ℕ) → find m u ≡ none → erase m u ≡ m
  unfolding find erase
  erase_absent [] u e = refl
  erase_absent ((w, b) ∷ m) u e = ground (arith, e, erase_absent m u)

  pub erase-Once : (m : List (ℕ × B)) (u : ℕ) → Once m → Once (erase m u)
  unfolding Once erase find
  erase-Once [] u o = tt
  erase-Once ((w, b) ∷ m) u o = elim (Bool-cases (w == u)) [
    | inl e ↦ rw e (erase-Once m u o.1)
    | inr e ↦ rw e (ground (arith, find-erase m u w, o.0), erase-Once m u o.1)
  ]

  pub length-erase :
      (m : List (ℕ × B)) (u : ℕ) (b : B)
      → Once m
      → find m u ≡ some b
      → length m ≡ suc (length (erase m u))
  unfolding Once find erase
  length-erase [] u b o e = ground (arith, e)
  length-erase ((w, c) ∷ m) u b o e =
      ground (arith, e, length-erase m u b o.1, erase_absent m w o.0)
