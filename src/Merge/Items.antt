-- ===== src/Merge/Items.antt =====
-- src/commands/util.rs: a list as a map from the keys of its items to the items.
use long_task_orchestration.Prelude.{
  ℕ, zero, suc, ◌≡◌, inl, inr, refl, sym, ap, subst, List, [], ◌∷◌, ◌++◌, map, Option, none, some,
  length, set, if◌then◌else◌, arith, Bool-cases,
}
use long_task_orchestration.Prelude.Eq.{◌==◌}
use long_task_orchestration.Prelude.Text.{Text, text_eq, text_beq, text_beq_iff}

abbrev pub or_item {ℓ} : {T : Type ℓ} → Option T → Option T → Option T
or_item none b = b
or_item (some a) b = some a

pub or_item_assoc :
    {T : Type 0} (a b c : Option T) → or_item a (or_item b c) ≡ or_item (or_item a b) c
or_item_assoc none b c = refl
or_item_assoc (some a) b c = refl

pub append-nil : {A : Type 0} (xs : List A) → xs ++ [] ≡ xs
append-nil [] = refl
append-nil (x ∷ xs) = ap (λ l. x ∷ l) (append-nil xs)

pub append-cons :
    {A : Type 0} (xs : List A) (x : A) (ys : List A) → (xs ++ (x ∷ [])) ++ ys ≡ xs ++ (x ∷ ys)
append-cons [] x ys = refl
append-cons (w ∷ xs) x ys = ap (λ l. w ∷ l) (append-cons xs x ys)

module _ {T : Type 0} (key : T → Text) where
  abbrev pub here : Text → T → Option T
  here k item = if key item == k then some item else none

  -- The abstract view of a list: the last item of each key.
  unfoldable pub item_at : List T → Text → Option T
  item_at [] k = none
  item_at (item ∷ items) k = or_item (item_at items k) (here k item)

  -- The position of that item.
  unfoldable pub last_index : Text → List T → Option ℕ
  last_index k [] = none
  last_index k (item ∷ items) = elim (last_index k items) [
    | some index ↦ some (suc index)
    | none ↦ if key item == k then some 0 else none
  ]

  pub last_index-append :
      (k : Text) (items : List T) (item : T)
      → last_index k (items ++ (item ∷ []))
        ≡ (if key item == k then some (length items) else last_index k items)
  unfolding last_index
  last_index-append k [] item = refl
  last_index-append k (first ∷ items) item = ground (arith, last_index-append k items item)

  pub item_at-append :
      (k : Text) (items : List T) (item : T)
      → item_at (items ++ (item ∷ [])) k ≡ or_item (here k item) (item_at items k)
  unfolding item_at
  item_at-append k [] item = ground arith
  item_at-append k (first ∷ items) item = ground (arith, item_at-append k items item)

  item_at-none : (k : Text) (items : List T) → last_index k items ≡ none → item_at items k ≡ none
  unfolding item_at last_index
  item_at-none k [] h = refl
  item_at-none k (first ∷ items) h = ground (arith, item_at-none k items)

  first_is_last :
      (q : Text) (first : T) (items : List T)
      → last_index q (first ∷ items) ≡ some 0
      → (last_index q items ≡ none) × (key first ≡ q)
  unfolding last_index
  first_is_last q first items h = ground (arith, h, text_beq_iff (key first) q)

  later_is_last :
      (q : Text) (first : T) (items : List T) (i : ℕ)
      → last_index q (first ∷ items) ≡ some (suc i)
      → last_index q items ≡ some i
  unfolding last_index
  later_is_last q first items i h = ground (arith, h)

  -- A write at the last item of its key keeps the key at every position.
  pub last_index-set :
      (k : Text) (items : List T) (i : ℕ) (item : T)
      → last_index (key item) items ≡ some i
      → last_index k (set items i item) ≡ last_index k items
  unfolding last_index
  last_index-set k [] i item h = refl
  last_index-set k (first ∷ items) zero item h =
      ground (arith, ap (λ x. text_beq x k) (first_is_last (key item) first items h).1)
  last_index-set k (first ∷ items) (suc i) item h =
      ground (arith, last_index-set k items i item (later_is_last (key item) first items i h))

  pub item_at-set :
      (k : Text) (items : List T) (i : ℕ) (item : T)
      → last_index (key item) items ≡ some i
      → item_at (set items i item) k ≡ or_item (here k item) (item_at items k)
  unfolding last_index item_at
  item_at-set k [] i item h = ground (arith, h)
  item_at-set k (first ∷ items) zero item h =
      let last = first_is_last (key item) first items h in
      elim (Bool-cases (text_beq (key item) k)) [
        | inl same ↦
            let gone : item_at items k ≡ none = item_at-none k items (
              subst (λ q. last_index q items ≡ none) ((text_beq_iff (key item) k).0 same) last.0) in
            rw (same, gone) refl
        | inr other ↦ ground (arith, other, ap (λ x. text_beq x k) last.1)
      ]
  item_at-set k (first ∷ items) (suc i) item h =
      ground (arith, item_at-set k items i item (later_is_last (key item) first items i h))

  -- Such a write leaves the keys as they are.
  pub map-set :
      (merged : List T) (i : ℕ) (item : T)
      → last_index (key item) merged ≡ some i
      → map key (set merged i item) ≡ map key merged
  unfolding last_index
  map-set [] i item h = refl
  map-set (first ∷ merged) zero item h =
      ap (λ k. k ∷ map key merged) (sym (first_is_last (key item) first merged h).1)
  map-set (first ∷ merged) (suc i) item h =
      ap (λ ks. key first ∷ ks) (map-set merged i item (later_is_last (key item) first merged i h))

  pub map-append :
      (merged : List T) (item : T)
      → map key (merged ++ (item ∷ [])) ≡ map key merged ++ (key item ∷ [])
  map-append [] item = refl
  map-append (first ∷ merged) item = ap (λ ks. key first ∷ ks) (map-append merged item)
