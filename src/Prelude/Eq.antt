-- ===== src/Prelude/Eq.antt =====
-- Equality of keys and tags as an interface: `PartialEq` with the law that it decides equality.
use mathlib.Core.Path.{◌≡◌, refl, sym}
use mathlib.Core.Logic.{◌↔◌, inl, inr}
use mathlib.Core.Bool.{Bool, true, false, ◌||◌}
use mathlib.Core.List.{List, [], ◌∷◌, Memᴰ}
use Prim.Native.Nat.{ℕ}
use native.Mathlib.Omega.{arith}
use long_task_orchestration.Prelude.Tests.{eqb, eqb_iff, Bool-cases}

infix 50 ◌==◌
pub record PartialEq {ℓ} (T : Type ℓ) : Type ℓ where
  pub eq : T → T → Bool
  pub eq_iff : (x y : T) → eq x y ≡ true ↔ (x ≡ y)

instance abbrev pub nat_eq : PartialEq ℕ
nat_eq = record { eq = eqb; eq_iff = eqb_iff }

abbrev pub ◌==◌ {ℓ} : {T : Type ℓ} ⦃test : PartialEq T⦄ → T → T → Bool
◌==◌ ⦃test⦄ x y = test.eq x y

module _ {ℓ} {A : Type ℓ} ⦃e : PartialEq A⦄ where
  pub eq_refl : (a : A) → (a == a) ≡ true
  eq_refl a = (e.eq_iff a a).1 refl

  -- `slice::contains` and `BTreeSet::contains`.
  unfoldable pub contains : List A → A → Bool
  contains [] key = false
  contains (first ∷ rest) key = first == key || contains rest key

  pub Memᴰ_of_contains : (xs : List A) (a : A) → contains xs a ≡ true → Memᴰ a xs
  unfolding contains
  Memᴰ_of_contains [] a h = cc
  Memᴰ_of_contains (x ∷ xs) a h = elim (Bool-cases (x == a)) [
    | inl same ↦ Memᴰ.head (sym ((e.eq_iff x a).0 same))
    | inr other ↦ Memᴰ.tail (Memᴰ_of_contains xs a (rw other at h))
  ]

  pub contains_of_Memᴰ : (xs : List A) (a : A) → Memᴰ a xs → contains xs a ≡ true
  unfolding contains
  contains_of_Memᴰ [] a m = elim m [ ]
  contains_of_Memᴰ (x ∷ xs) a (Memᴰ.head p) = ground (arith, e.eq_iff x a, sym p)
  contains_of_Memᴰ (x ∷ xs) a (Memᴰ.tail m) = ground (arith, contains_of_Memᴰ xs a m)
