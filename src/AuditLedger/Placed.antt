-- ===== src/AuditLedger/Placed.antt =====
-- src/audit_ledger.rs: where the row of a new round stands in the text of the ledger.
use long_task_orchestration.Prelude.{
  ℕ, ◌≡◌, ◌⊎◌, inl, inr, refl, ap, sym, ◌∙◌, Bool, true, false, ◌&&◌, if◌then◌else◌, List, [], ◌∷◌,
  ◌++◌, All, Option, none, some, arith, Bool-cases,
}
use long_task_orchestration.Prelude.Eq.{◌==◌}
use long_task_orchestration.Prelude.Text.{
  Text, text_eq, str, trim_start, lines, strip_prefix, starts_with, split_once, has_substring,
}
use long_task_orchestration.AuditLedger.{
  AppendInput, appended, format_row, insert_after_last, insert_round_row, next_round_label,
  placeholder, replace_first, text_of, upgrade_schema,
}

-- The line begins with a round.
abbrev pub is_round_row : Text → Bool
is_round_row line = starts_with (trim_start line) (str "| R")

abbrev pub NoRoundRow : List Text → Type 0
NoRoundRow ls = All (λ line. is_round_row line ≡ false) ls

-- The row stands behind the last line that begins with a round.
abbrev pub Behind : List Text → Text → List Text → Type 0
Behind old row new =
    (before : List Text) × (last : Text) × (after : List Text) × (old ≡ before ++ (last ∷ after))
    × (new ≡ before ++ (last ∷ row ∷ after))
    × (is_round_row last ≡ true)
    × NoRoundRow after

-- The row stands there, or at the end if no line begins with a round.
abbrev pub Inserted : List Text → Text → List Text → Type 0
Inserted old row new = Behind old row new ⊎ (NoRoundRow old × (new ≡ old ++ (row ∷ [])))

-- The row stands in the place of the placeholder, or is inserted if there is none.
abbrev pub Placed : Text → Text → Text → Type 0
Placed content row updated =
    ((before : Text) × (after : Text) × (content ≡ before ++ (placeholder ++ after))
      × (updated ≡ before ++ (row ++ after)))
    ⊎ ((has_substring content placeholder ≡ false)
        × (new : List Text) × (updated ≡ text_of new)
        × Inserted (lines content) row new)

strip_prefix-cases :
    (p s : Text)
    → ((strip_prefix p s ≡ none) × (starts_with s p ≡ false))
      ⊎ ((rest : Text) × (strip_prefix p s ≡ some rest) × (s ≡ p ++ rest))
unfolding strip_prefix starts_with
strip_prefix-cases [] [] = inr ([], refl, refl)
strip_prefix-cases [] (b ∷ s) = inr (b ∷ s, refl, refl)
strip_prefix-cases (a ∷ p) [] = inl (refl, refl)
strip_prefix-cases (a ∷ p) (b ∷ s) = ground (arith, strip_prefix-cases p s)

split_once-cases :
    (d s : Text)
    → ((split_once d s ≡ none) × (has_substring s d ≡ false))
      ⊎ ((before : Text) × (after : Text) × (split_once d s ≡ some (before, after))
          × (s ≡ before ++ (d ++ after)))
unfolding split_once has_substring
split_once-cases d [] = elim (strip_prefix-cases d []) [
  | inl (other, apart) ↦ inl (rw (split_once, other) refl, apart)
  | inr (rest, here, split) ↦ inr ([], rest, rw (split_once, here) refl, split)
]
split_once-cases d (c ∷ s) = elim (strip_prefix-cases d (c ∷ s)) [
  | inr (rest, here, split) ↦ inr ([], rest, rw (split_once, here) refl, split)
  | inl (other, apart) ↦ elim (split_once-cases d s) [
    | inl (later, nowhere) ↦ inl (rw (split_once, other, later) refl, rw (apart) nowhere)
    | inr (before, after, later, split) ↦
        inr (c ∷ before, after, rw (split_once, other, later) refl, ap (λ t. c ∷ t) split)
  ]
]

insert_after_last-cases :
    (row : Text) (ls : List Text)
    → ((insert_after_last row ls ≡ none) × NoRoundRow ls)
      ⊎ ((new : List Text) × (insert_after_last row ls ≡ some new) × Behind ls row new)
unfolding insert_after_last
insert_after_last-cases row [] = inl (refl, tt)
insert_after_last-cases row (line ∷ rest) = elim (insert_after_last-cases row rest) [
  | inr (new, found, place) ↦
      let (before, last, after, split, joined, marked, unmarked) = place in
      inr (
        line ∷ new,
        rw found refl,
        (
          line ∷ before,
          last,
          after,
          ap (λ l. line ∷ l) split,
          ap (λ l. line ∷ l) joined,
          marked,
          unmarked,
        ),
      )
  | inl (nothing, unmarked) ↦ elim (Bool-cases (is_round_row line)) [
    | inl marked ↦ inr (
      line ∷ row ∷ rest,
      rw (nothing, marked) refl,
      ([], line, rest, refl, refl, marked, unmarked),
    )
    | inr plain ↦ inl (rw (nothing, plain) refl, (plain, unmarked))
  ]
]

insert_round_row-Inserted :
    (content row : Text)
    → (new : List Text) × (insert_round_row content row ≡ text_of new)
      × Inserted (lines content) row new
unfolding insert_round_row
insert_round_row-Inserted content row = elim (insert_after_last-cases row (lines content)) [
  | inr (new, found, place) ↦ (new, rw (insert_round_row, found) refl, inl place)
  | inl (nothing, unmarked) ↦
      (lines content ++ (row ∷ []), rw (insert_round_row, nothing) refl, inr (unmarked, refl))
]

Placed-either :
    (content row : Text) (first : Bool)
    → (has_substring content placeholder ≡ true → first ≡ true)
    → Placed content row (
        if first && has_substring content placeholder
        then replace_first content row
        else insert_round_row content row)
unfolding replace_first
Placed-either content row first h = elim (Bool-cases (has_substring content placeholder)) [
  | inl there ↦ elim (split_once-cases placeholder content) [
    | inl (nowhere, absent) ↦ absurd (ground (arith, there, absent))
    | inr (before, after, found, split) ↦
        inl (before, after, split, rw (h there, there, replace_first, found) refl)
  ]
  | inr absent ↦
      let (new, written, place) = insert_round_row-Inserted content row in
      inr (absent, new, ground (arith, absent, written), place)
]

next_round_label-first :
    (content : Text)
    → has_substring content placeholder ≡ true
    → (next_round_label content == str "R1") ≡ true
unfolding next_round_label long_task_orchestration.Prelude.Text.text_beq
next_round_label-first content there = rw there refl

-- The row of the new round is placed in the text, whose schema is brought up to date before.
pub appended-Placed :
    (text : Text) (input : AppendInput)
    → let content = upgrade_schema text in
      Placed content (format_row (next_round_label content) input) (appended text input)
unfolding appended
appended-Placed text input =
    let content = upgrade_schema text in
    let label = next_round_label content in
    Placed-either content (format_row label input) (label == str "R1")
      (next_round_label-first content)
