-- ===== src/Base/Integers.antt =====
-- Signed integers over the native natural numbers, and their `Display`.
use cerynth_os.Base.Text.{show_ℕ}
use Prim.Native.Nat.{ℕ, suc}
use Prim.Native.String.{String, ◌++◌}

-- `negsuc n` is -(n + 1).
pub data ℤ : Type 0 where
  pos : ℕ → ℤ
  negsuc : ℕ → ℤ

abbrev pub show_ℤ : ℤ → String
show_ℤ (pos n) = show_ℕ n
show_ℤ (negsuc n) = "-" ++ show_ℕ (suc n)
