-- ===== src/Base/Result.antt =====
-- Go's results: a value or a non-nil error.

pub data Result {ℓ κ} (E : Type ℓ) (A : Type κ) : Type (ℓ ⊔ κ) where
  ok : A → Result E A
  err : E → Result E A
