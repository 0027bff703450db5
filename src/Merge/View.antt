-- ===== src/Merge/View.antt =====
-- src/commands/util.rs: the merged list as a map from keys to items, and the order of its keys.
use long_task_orchestration.Prelude.{
  ℕ, suc, ◌+◌, ◌≡◌, inl, inr, refl, sym, ◌∙◌, List, [], ◌∷◌, ◌++◌, map, none, some, length, set,
  arith, Option-cases,
}
use long_task_orchestration.Prelude.BTreeMap.{get, insert, get-insert, text_key}
use long_task_orchestration.Prelude.Text.{Text, text_eq, text_beq_iff}
use long_task_orchestration.Merge.Stable.{positions_from, merge_items, merge_stable_by_key}
use long_task_orchestration.Merge.Items.{
  or_item, or_item_assoc, append-nil, append-cons, here, item_at, last_index, last_index-append,
  item_at-append, last_index-set, item_at-set, map-set, map-append,
}

module _ {T : Type 0} (key : T → Text) where
  get-positions_from :
      (k : Text) (index : ℕ) (items : List T) (positions : List (Text × ℕ))
      → get k (positions_from key index items positions)
        ≡ elim (last_index key k items) [ some i ↦ some (index + i) | none ↦ get k positions ]
  unfolding positions_from last_index
  get-positions_from k index [] positions = refl
  get-positions_from k index (item ∷ items) positions = ground (
    arith,
    get-positions_from k (suc index) items (insert (key item) index positions),
    get-insert (key item) k index positions,
    text_beq_iff (key item) k,
  )

  -- The positions are those of the list.
  abbrev Tracks : List (Text × ℕ) → List T → Type 0
  Tracks positions merged = (k : Text) → get k positions ≡ last_index key k merged

  Tracks-added :
      (positions : List (Text × ℕ)) (merged : List T) (item : T)
      → Tracks positions merged
      → Tracks (insert (key item) (length merged) positions) (merged ++ (item ∷ []))
  Tracks-added positions merged item h k = ground (
    arith,
    h k,
    get-insert (key item) k (length merged) positions,
    last_index-append key k merged item,
  )

  Tracks-set :
      (positions : List (Text × ℕ)) (merged : List T) (i : ℕ) (item : T)
      → Tracks positions merged
      → get (key item) positions ≡ some i
      → Tracks positions (set merged i item)
  Tracks-set positions merged i item h found k =
      h k ∙ sym (last_index-set key k merged i item (sym (h (key item)) ∙ found))

  -- One round of the loop, for a key that is new and for one that is known.
  merge_new :
      (item : T) (items merged : List T) (positions : List (Text × ℕ))
      → get (key item) positions ≡ none
      → merge_items key (item ∷ items) merged positions
        ≡ merge_items key items
            (merged ++ (item ∷ []))
            (insert (key item) (length merged) positions)
  unfolding merge_items
  merge_new item items merged positions h = rw (merge_items, h) refl

  merge_known :
      (item : T) (items merged : List T) (positions : List (Text × ℕ)) (i : ℕ)
      → get (key item) positions ≡ some i
      → merge_items key (item ∷ items) merged positions
        ≡ merge_items key items (set merged i item) positions
  unfolding merge_items
  merge_known item items merged positions i h = rw (merge_items, h) refl

  -- After the loop, a key has the last of its items to come, or else the item that it had.
  merge_items-view :
      (k : Text) (items merged : List T) (positions : List (Text × ℕ))
      → Tracks positions merged
      → item_at key (merge_items key items merged positions) k
        ≡ or_item (item_at key items k) (item_at key merged k)
  unfolding merge_items item_at
  merge_items-view k [] merged positions h = refl
  merge_items-view k (item ∷ items) merged positions h =
      elim (Option-cases (get (key item) positions)) [
        | inl new ↦
            let rest =
              merge_items-view k items (merged ++ (item ∷ []))
                (insert (key item) (length merged) positions)
                (Tracks-added positions merged item h) in
            rw (merge_new item items merged positions new, rest, item_at-append key k merged item)
              (or_item_assoc (item_at key items k) (here key k item) (item_at key merged k))
        | inr (i, found) ↦
            let last = sym (h (key item)) ∙ found in
            let rest =
              merge_items-view k items (set merged i item) positions
                (Tracks-set positions merged i item h found) in
            rw
              (
                merge_known item items merged positions i found,
                rest,
                item_at-set key k merged i item last,
              )
              (or_item_assoc (item_at key items k) (here key k item) (item_at key merged k))
      ]

  merge_items-order :
      (items merged : List T) (positions : List (Text × ℕ))
      → Tracks positions merged
      → (added : List Text) × (map key (merge_items key items merged positions)
          ≡ map key merged ++ added)
  unfolding merge_items
  merge_items-order [] merged positions h = ([], sym (append-nil (map key merged)))
  merge_items-order (item ∷ items) merged positions h =
      elim (Option-cases (get (key item) positions)) [
        | inl new ↦
            let (added, order) =
              merge_items-order items (merged ++ (item ∷ []))
                (insert (key item) (length merged) positions)
                (Tracks-added positions merged item h) in
            (
              key item ∷ added,
              rw (merge_new item items merged positions new, order, map-append key merged item)
                  (append-cons (map key merged) (key item) added),
            )
        | inr (i, found) ↦
            let (added, order) =
              merge_items-order items (set merged i item) positions
                (Tracks-set positions merged i item h found) in
            (
              added,
              rw
                  (
                    merge_known item items merged positions i found,
                    order,
                    map-set key merged i item (sym (h (key item)) ∙ found),
                  )
                  refl,
            )
      ]

  positions-Tracks : (current : List T) → Tracks (positions_from key 0 current []) current
  unfolding get
  positions-Tracks current k = ground (arith, get-positions_from k 0 current [])

  -- The merged list holds, for each key, the last item to come with the key, and else the last item
  -- that was there with it.
  pub merge_stable_by_key-view :
      (current next : List T) (k : Text)
      → item_at key (merge_stable_by_key key current next) k
        ≡ or_item (item_at key next k) (item_at key current k)
  unfolding merge_stable_by_key
  merge_stable_by_key-view current next k =
      merge_items-view k next current (positions_from key 0 current []) (positions-Tracks current)

  -- The keys that were there stay where they are; what is new comes behind them.
  pub merge_stable_by_key-order :
      (current next : List T)
      → (added : List Text) × (map key (merge_stable_by_key key current next)
          ≡ map key current ++ added)
  unfolding merge_stable_by_key
  merge_stable_by_key-order current next =
      merge_items-order next current (positions_from key 0 current []) (positions-Tracks current)
