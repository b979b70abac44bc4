-- ===== src/Outcome.antt =====
-- The result of a call that may panic.
pub data Outcome {ℓ} (A : Type ℓ) : Type ℓ where
  ok : A → Outcome A
  panic : Outcome A
