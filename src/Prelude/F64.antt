-- ===== src/Prelude/F64.antt =====
-- The `f64` operations that the program uses, with the law of IEEE 754 that its results rest on, and the
-- numbers that are a `Duration`.
use Prim.Native.Nat.{ℕ}
use mathlib.Core.Path.{◌≡◌}
use mathlib.Core.Bool.{Bool, false}
use long_task_orchestration.Prelude.Int.{ℤ}

pub record F64 : Type 1 where
  pub Carrier : Type 0
  pub zero : Carrier
  pub of_nat : ℕ → Carrier
  pub add : Carrier → Carrier → Carrier
  pub mul : Carrier → Carrier → Carrier
  pub div : Carrier → Carrier → Carrier
  pub min : Carrier → Carrier → Carrier
  -- `2_f64.powi(n)`
  pub pow2 : ℤ → Carrier
  pub gt : Carrier → Carrier → Bool
  pub ge : Carrier → Carrier → Bool
  pub is_zero : Carrier → Bool
  pub infinity : Carrier
  -- `x as u64`
  pub truncate : Carrier → ℕ
  -- `Duration::from_secs_f64` takes the number; it panics at others, such as negative ones.
  pub is_duration : Carrier → Bool
  -- `f64::min` is not above its second argument, also where one of the two is NaN.
  pub min-not_gt : (a b : Carrier) → gt (min a b) b ≡ false
