-- ===== src/Prelude/Json.antt =====
-- `serde_json::Value`. A number is a non-negative or negative integer or a float; the floats are
-- the type `F`.
use Prim.Native.Nat.{ℕ}
use mathlib.Core.Bool.{Bool, true, false}
use mathlib.Core.List.{List, [], ◌∷◌}
use mathlib.Core.Option.{Option, none, some}
use long_task_orchestration.Prelude.Tests.{if◌then◌else◌}
use long_task_orchestration.Prelude.Text.{Text, text_beq}

mutual
  pub data Json (F : Type 0) : Type 0 where
    null : Json F
    boolean : Bool → Json F
    pos_int : ℕ → Json F
    neg_int : ℕ → Json F
    float : F → Json F
    string : Text → Json F
    array : Items F → Json F
    object : Fields F → Json F

  pub data Items (F : Type 0) : Type 0 where
    nil : Items F
    cons : Json F → Items F → Items F

  pub data Fields (F : Type 0) : Type 0 where
    end : Fields F
    field : Text → Json F → Fields F → Fields F

module _ {F : Type 0} where
  -- `Map::get`
  unfoldable pub lookup : Text → Fields F → Option (Json F)
  lookup key end = none
  lookup key (field name v rest) =
      let later = lookup key rest in if text_beq name key then some v else later

  -- `Value::get` of a text: a value that is no object has no member.
  unfoldable pub member : Text → Json F → Option (Json F)
  unfolding lookup
  member key (object fs) = lookup key fs
  member key _ = none

  -- `Value::as_str`
  abbrev pub as_str : Json F → Option Text
  as_str (string t) = some t
  as_str _ = none

  abbrev pub list_of : Items F → List (Json F)
  list_of nil = []
  list_of (cons v vs) = v ∷ list_of vs

  abbrev pub items_of : List (Json F) → Items F
  items_of [] = nil
  items_of (v ∷ vs) = cons v (items_of vs)

  -- `Value::as_array`
  abbrev pub as_array : Json F → Option (List (Json F))
  as_array (array vs) = some (list_of vs)
  as_array _ = none

  abbrev pub is_null : Json F → Bool
  is_null null = true
  is_null _ = false
