-- ===== src/Merge/Kept.antt =====
-- src/commands/util.rs: what a save keeps of the windows, of the lists with keys and of the contract
-- that are stored. The tasks, the gates, the budget and the artifacts are those of the state that is
-- saved.
use long_task_orchestration.Prelude.{List, ◌++◌, ◌≡◌, ◌⊎◌, map, true, false}
use long_task_orchestration.Prelude.Json.{Json, array, Items, list_of}
use long_task_orchestration.Prelude.Text.{Text}
use long_task_orchestration.Merge.Save.{json_collection_is_empty}
use long_task_orchestration.Merge.Items.{or_item, item_at}

-- The merged items are, for each key, the last item to come with it, and else the last item that was
-- there with it; and the keys of the items that were there stay, each at its place.
abbrev pub KeepsItems : {T : Type 0} (key : T → Text) (current next merged : List T) → Type 0
KeepsItems key current next merged =
    ((k : Text) → item_at key merged k ≡ or_item (item_at key next k) (item_at key current k))
    × (added : List Text) × (map key merged ≡ map key current ++ added)

-- A value that is saved over another gives way to it only if it is an empty collection and the other
-- is none.
abbrev Replaces : {F : Type 0} (current next merged : Json F) → Type 0
Replaces current next merged =
    ((merged ≡ current) × (json_collection_is_empty next ≡ true))
    ⊎ ((merged ≡ next)
        × ((json_collection_is_empty next ≡ false) ⊎ (json_collection_is_empty current ≡ true)))

-- The items of two arrays are merged.
abbrev pub Keeps : {F : Type 0} (key : Json F → Text) (current next merged : Json F) → Type 0
Keeps {F} key (array before) (array after) merged =
    (values : Items F) × (merged ≡ array values)
    × KeepsItems key (list_of before) (list_of after) (list_of values)
Keeps key current next merged = Replaces current next merged
