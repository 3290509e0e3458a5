-- ===== src/Base/Int.antt =====
-- Python's signed integers, as far as the program uses them: exit codes, which are negative for a
-- process that a signal ended.
use Prim.Native.Nat.{ℕ, suc}
use Prim.Native.String.{String}
use hypershell_reach.Base.Text.{show, ◌<>◌}

-- `negsuc n` is -(n + 1).
pub data ℤ : Type 0 where
  pos : ℕ → ℤ
  negsuc : ℕ → ℤ

-- `str(n)`.
abbrev pub show_ℤ : ℤ → String
show_ℤ (pos n) = show n
show_ℤ (negsuc n) = "-" <> show (suc n)
