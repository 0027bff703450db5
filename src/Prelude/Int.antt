-- ===== src/Prelude/Int.antt =====
-- Signed integers over the native numbers: the exit codes. `negsuc n` is -(n + 1).
use Prim.Native.Nat.{ℕ, suc}
use mathlib.Core.Bool.{Bool, false}
use mathlib.Core.List.{◌∷◌}
use long_task_orchestration.Prelude.Tests.{eqb}
use long_task_orchestration.Prelude.Text.{Text, show_nat}

pub data ℤ : Type 0 where
  pos : ℕ → ℤ
  negsuc : ℕ → ℤ

-- `code == n` for a literal n
abbrev pub is_code : ℕ → ℤ → Bool
is_code n (pos m) = eqb m n
is_code n (negsuc m) = false

-- `Display` of an `i32`.
unfoldable pub show_int : ℤ → Text
unfolding show_nat
show_int (pos n) = show_nat n
show_int (negsuc n) = b'-' ∷ show_nat (suc n)
