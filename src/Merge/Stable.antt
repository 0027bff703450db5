-- ===== src/Merge/Stable.antt =====
-- src/commands/util.rs: `merge_stable_by_key`, over any items and any key.
use long_task_orchestration.Prelude.{ℕ, suc, List, [], ◌∷◌, ◌++◌, none, some, length, set}
use long_task_orchestration.Prelude.BTreeMap.{get, insert, text_key}
use long_task_orchestration.Prelude.Text.{Text}

module _ {T : Type 0} (key : T → Text) where
  -- The positions of the keys of the items; the last item of a key is the one that is found.
  unfoldable pub positions_from : ℕ → List T → List (Text × ℕ) → List (Text × ℕ)
  unfolding insert
  positions_from index [] positions = positions
  positions_from index (item ∷ items) positions =
      positions_from (suc index) items (insert (key item) index positions)

  -- The loop over the items to come: each replaces the item of its key or is added at the end.
  unfoldable pub merge_items : List T → List T → List (Text × ℕ) → List T
  unfolding get insert
  merge_items [] merged positions = merged
  merge_items (item ∷ items) merged positions = elim (get (key item) positions) [
    | some index ↦ merge_items items (set merged index item) positions
    | none ↦ merge_items items (merged ++ (item ∷ [])) (insert (key item) (length merged) positions)
  ]

  unfoldable pub merge_stable_by_key : List T → List T → List T
  unfolding positions_from merge_items
  merge_stable_by_key current next = merge_items next current (positions_from 0 current [])
