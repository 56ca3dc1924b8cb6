-- ===== src/Prelude/Int.antt =====
-- A C `int` that may be negative. `negsuc n` is -(n + 1).
use wizard.Prelude.{ℕ}

pub data ℤ : Type 0 where
  pos : ℕ → ℤ
  negsuc : ℕ → ℤ
