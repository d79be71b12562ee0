-- ===== src/Base/Int.antt =====
-- Integers, for the exit codes of processes and for differences that may be negative.
use layerscope.Base.{ℕ, suc, ◌∷◌}
use layerscope.Base.Text.{Text, decimal}

-- `negsuc n` is -(n + 1).
pub data ℤ : Type 0 where
  pos : ℕ → ℤ
  negsuc : ℕ → ℤ

-- `str(n)`
unfoldable pub show : ℤ → Text
show (pos n) = decimal n
show (negsuc n) = 45 ∷ decimal (suc n)
