-- ===== src/ConQueue/Window.antt =====
-- The cells of a ring from a position on, going round after `n` cells.
use native.Mathlib.Nat.{
  mod-mod_of_dvd, dvd_of_mod-eq-zero, mod-eq_of_lt, mod-eq-sub-mod, mod-lt, mod-add-mod,
}
use usable_lib.Prelude.{
  ℕ, zero, suc, ◌+◌, ◌-◌, ◌%◌, ◌^◌, ◌≤◌, ◌<◌, ◌≡◌, ap, sym, ◌∙◌, ◌≢◌, Option, some, List, [], ◌∷◌,
  ◌++◌, arith, dec_lt, length, get_elem?, set, get_elem?-set_self, get_elem?-set_ne,
}

-- Positions less than a round apart are different cells.
pub index-ne : (n p j : ℕ) → 0 < j → j < n → (p + j) % n ≢ p % n
index-ne n p j pos h = elim (dec_lt (p % n + j) n) [
  | yes lt ↦ omega (arith, mod-add-mod p n j, mod-lt p {m = n}, mod-eq_of_lt lt)
  | no ge ↦ omega (
    arith,
    mod-add-mod p n j,
    mod-lt p {m = n},
    mod-eq-sub-mod {n = p % n + j} {m = n} (omega arith),
    mod-eq_of_lt {n = p % n + j - n} {m = n} (omega (arith, mod-lt p {m = n})),
  )
]

-- A ring whose length divides 2 ^ 32 does not notice that positions wrap.
pub index-wrap : (n p : ℕ) → 2 ^ 32 % n ≡ 0 → p % 2 ^ 32 % n ≡ p % n
index-wrap n p h = mod-mod_of_dvd n p (dvd_of_mod-eq-zero n h)

index-step : (n p : ℕ) → suc p % n ≡ (p % n + 1) % n
index-step n p = let e : suc p ≡ p + 1 = omega arith in ap (λ k. k % n) e ∙ sym (mod-add-mod p n 1)

index-suc : (n p q : ℕ) → p % n ≡ q % n → suc p % n ≡ suc q % n
index-suc n p q e = index-step n p ∙ ap (λ r. (r + 1) % n) e ∙ sym (index-step n q)

-- From position `p` on, the `n` cells of the ring hold the objects `xs`.
abbrev pub Holds {ℓ} : {A : Type ℓ} → ℕ → List (Option A) → ℕ → List A → Type ℓ
Holds n ring p [] = Unit
Holds n ring p (x ∷ xs) = (get_elem? ring (p % n) ≡ some (some x)) × Holds n ring (suc p) xs

module _ {ℓ} {A : Type ℓ} (n : ℕ) where
  -- The window depends on the cell of its first position only.
  pub Holds-congr :
      (ring : List (Option A)) (p q : ℕ) (xs : List A)
      → p % n ≡ q % n
      → Holds n ring p xs
      → Holds n ring q xs
  Holds-congr ring p q [] e h = tt
  Holds-congr ring p q (x ∷ xs) e h =
      (rw (← e) h.0, Holds-congr ring (suc p) (suc q) xs (index-suc n p q e) h.1)

  -- A write `j` cells on, past the window, does not touch it.
  pub Holds-set_beyond :
      (ring : List (Option A)) (p j i : ℕ) (v : Option A) (xs : List A)
      → length xs ≤ j
      → j < n
      → i ≡ (p + j) % n
      → Holds n ring p xs
      → Holds n (set ring i v) p xs
  Holds-set_beyond ring p j i v [] hj hn e h = tt
  Holds-set_beyond ring p zero i v (x ∷ xs) hj hn e h = absurd (omega arith)
  Holds-set_beyond ring p (suc j) i v (x ∷ xs) hj hn e h =
      let apart : i ≢ p % n = rw e (index-ne n p (suc j) (omega arith) hn) in
      (
        get_elem?-set_ne ring v apart ∙ h.0,
        Holds-set_beyond ring (suc p) j i v xs (omega arith) (omega arith)
            (e ∙ ap (λ k. k % n) (omega arith)) h.1,
      )

  -- A write just past the window extends it.
  pub Holds-snoc :
      (ring : List (Option A)) (p i : ℕ) (x : A) (xs : List A)
      → n ≤ length ring
      → length xs < n
      → i ≡ (p + length xs) % n
      → Holds n ring p xs
      → Holds n (set ring i (some x)) p (xs ++ x ∷ [])
  Holds-snoc ring p i x [] room hn e h =
      let here : i ≡ p % n = e ∙ ap (λ k. k % n) (omega arith) in
      (
        rw (← here)
            (get_elem?-set_self ring i (some x) (rw here (omega (arith, mod-lt p {m = n} hn)))),
        tt,
      )
  Holds-snoc ring p i x (y ∷ ys) room hn e h =
      let apart : i ≢ p % n = rw e (index-ne n p (suc (length ys)) (omega arith) hn) in
      (
        get_elem?-set_ne ring (some x) apart ∙ h.0,
        Holds-snoc ring (suc p) i x ys room (omega arith) (e ∙ ap (λ k. k % n) (omega arith)) h.1,
      )
