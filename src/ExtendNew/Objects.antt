-- ===== src/ExtendNew/Objects.antt =====
-- The loops that construct and destroy the objects of an array.
use usable_lib.Prelude.{
  ℕ, zero, suc, ◌+◌, ◌*◌, ◌≤◌, ◌<◌, ◌≡◌, ◌≢◌, ◌⊎◌, ◌∙◌, inl, refl, ap, fun_ext, Bool, true, false,
  some, arith,
}
use usable_lib.ExtendNew.{set_at, construct, destroy}
use native.Mathlib.Nat.{suc-mul}

-- no object lives from `a` up to below `b`
unfoldable pub NoneAlive : ℕ → ℕ → (ℕ → Bool) → Type 0
NoneAlive a b alive = (c : ℕ) → a ≤ c → c < b → alive c ≡ false

-- What is not in the array is left alone, and what lives in it afterwards is an object of it.
pub construct_outside :
    (base size count : ℕ) (alive : ℕ → Bool) (c : ℕ)
    → (c < base) ⊎ (base + count * size ≤ c)
    → 1 ≤ size
    → construct base size count alive c ≡ alive c
unfolding construct
construct_outside base size zero alive c h one = refl
construct_outside base size (suc count) alive c h one =
    let rows : suc count * size ≡ count * size + size = suc-mul count size in
    construct_outside (base + size) size count (set_at alive base true) c (ground arith) one
    ∙ ground arith

pub construct_alive :
    (base size count : ℕ) (alive : ℕ → Bool) (i : ℕ)
    → i < count
    → 1 ≤ size
    → construct base size count alive (base + i * size) ≡ true
unfolding construct
construct_alive base size zero alive i h one = absurd (omega arith)
construct_alive base size (suc count) alive zero h one =
    let start : base + 0 * size ≡ base = omega arith in
    rw start (
      construct_outside (base + size) size count (set_at alive base true) base (inl (omega arith))
        one
      ∙ ground arith)
construct_alive base size (suc count) alive (suc i) h one =
    let place : base + suc i * size ≡ base + size + i * size = omega (arith, suc-mul i size) in
    rw place (construct_alive (base + size) size count (set_at alive base true) i (omega arith) one)

set_back :
    (alive : ℕ → Bool) (base : ℕ)
    → alive base ≡ false
    → set_at (set_at alive base true) base false ≡ alive
set_back alive base h = fun_ext (λ c. ground (arith, h))

set_swap :
    (alive : ℕ → Bool) (a b : ℕ) (x y : Bool)
    → a ≢ b
    → set_at (set_at alive b y) a x ≡ set_at (set_at alive a x) b y
set_swap alive a b x y h = fun_ext (λ c. ground (arith, h))

construct-set :
    (base size count : ℕ) (alive : ℕ → Bool) (a : ℕ) (x : Bool)
    → a < base
    → set_at (construct base size count alive) a x ≡ construct base size count (set_at alive a x)
unfolding construct
construct-set base size zero alive a x h = refl
construct-set base size (suc count) alive a x h =
    construct-set (base + size) size count (set_at alive base true) a x (omega arith)
    ∙ ap (construct (base + size) size count) (set_swap alive a base x true (omega arith))

-- Destroying the array gives back what lived before it was constructed.
pub destroy-construct :
    (base size count : ℕ) (alive : ℕ → Bool)
    → NoneAlive base (base + count * size) alive
    → 1 ≤ size
    → destroy base size count (construct base size count alive) ≡ some alive
unfolding construct destroy NoneAlive
destroy-construct base size zero alive h one = refl
destroy-construct base size (suc count) alive h one =
    let rows : suc count * size ≡ count * size + size = suc-mul count size in
    let first : construct (base + size) size count (set_at alive base true) base ≡ true =
      construct_outside (base + size) size count (set_at alive base true) base (inl (omega arith))
        one
      ∙ ground arith in
    let back : set_at (construct (base + size) size count (set_at alive base true)) base false
        ≡ construct (base + size) size count alive =
      construct-set (base + size) size count (set_at alive base true) base false (omega arith)
      ∙ ap (construct (base + size) size count)
          (set_back alive base (h base (omega arith) (omega arith))) in
    rw (first, back)
      (destroy-construct (base + size) size count alive (λ c lo hi. h c (omega arith) (omega arith))
        one)
