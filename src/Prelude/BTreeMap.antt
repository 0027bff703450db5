-- ===== src/Prelude/BTreeMap.antt =====
-- `BTreeMap` as an association list in the order of its keys.
use mathlib.Core.Path.{◌≡◌, refl}
use mathlib.Core.Bool.{Bool}
use mathlib.Core.List.{List, [], ◌∷◌}
use mathlib.Core.Option.{Option, none, some}
use native.Mathlib.Omega.{arith}
use long_task_orchestration.Prelude.Tests.{if◌then◌else◌, ltb}
use long_task_orchestration.Prelude.Eq.{PartialEq, nat_eq}
use long_task_orchestration.Prelude.Text.{Text, text_eq, text_ltb}
use Prim.Native.Nat.{ℕ}

-- The order of keys: `Eq` with a strict test.
pub record Key {ℓ} (K : Type ℓ) : Type ℓ where
  pub eq : PartialEq K
  pub lt : K → K → Bool

instance abbrev pub text_key : Key Text
text_key = record { eq = text_eq; lt = text_ltb }

instance abbrev pub nat_key : Key ℕ
nat_key = record { eq = nat_eq; lt = ltb }

module _ {ℓ κ} {K : Type ℓ} {V : Type κ} ⦃key : Key K⦄ where
  unfoldable pub get : K → List (K × V) → Option V
  get k [] = none
  get k ((j, v) ∷ m) = if key.eq.eq j k then some v else get k m

  unfoldable pub insert : K → V → List (K × V) → List (K × V)
  insert k v [] = (k, v) ∷ []
  insert k v ((j, w) ∷ m) =
      let rest = insert k v m in
      if key.eq.eq j k
      then (k, v) ∷ m
      else if key.lt k j
      then (k, v) ∷ (j, w) ∷ m
      else (j, w) ∷ rest

  -- A map after an insertion: the new value at its key, and every other key unchanged.
  pub get-insert :
      (k j : K) (v : V) (m : List (K × V))
      → get j (insert k v m) ≡ (if key.eq.eq k j then some v else get j m)
  unfolding get insert
  get-insert k j v [] = refl
  get-insert k j v ((i, w) ∷ m) =
      ground (arith, key.eq.eq_iff k j, key.eq.eq_iff i k, key.eq.eq_iff i j, get-insert k j v m)
