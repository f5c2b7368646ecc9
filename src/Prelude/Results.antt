-- ===== src/Prelude/Results.antt =====
-- C++ exceptions as values.
pub data Result {ℓ κ} (E : Type ℓ) (A : Type κ) : Type (ℓ ⊔ κ) where
  ok : A → Result E A
  throw : E → Result E A
