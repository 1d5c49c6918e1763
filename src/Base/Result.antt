-- ===== src/Base/Result.antt =====
-- Go's `(value, error)` pairs: a value, or an error.
use wallet_service.Base.{Bool, true, false}

pub data Result (E A : Type 0) : Type 0 where
  ok : A → Result E A
  err : E → Result E A

unfoldable pub is_ok : {E A : Type 0} → Result E A → Bool
is_ok (ok _) = true
is_ok (err _) = false
