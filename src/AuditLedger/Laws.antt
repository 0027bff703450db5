-- ===== src/AuditLedger/Laws.antt =====
-- src/audit_ledger.rs: what a cell of a new row holds, and what an append says of the text it writes.
use long_task_orchestration.Prelude.{
  ℕ, ◌<◌, ◌≤◌, ◌≡◌, ◌⊎◌, inl, inr, refl, false, List, [], ◌∷◌, ◌++◌, All, eqb, Bool-cases, some,
}
use long_task_orchestration.Prelude.Render.{
  join_with, replace_char, split_whitespace, words_from, word_list,
}
use long_task_orchestration.Prelude.Result.{Result, ok}
use long_task_orchestration.Prelude.Text.{Text, str, lines, show_nat, is_whitespace}
use long_task_orchestration.AuditLedger.{
  AppendInput, clean_cell, append, appended, next_round_label, round_numbers, highest,
  upgrade_schema,
}
use long_task_orchestration.AuditLedger.Placed.{Placed}
use long_task_orchestration.Ledger.{LedgerRound, LedgerDiagnostics, evaluate_ledger, diagnose}
use long_task_orchestration.Ledger.Parse.{parse_ledger}

-- The character neither ends a cell nor is blank.
abbrev pub Plain : ℕ → Type 0
Plain c = (eqb c b'|' ≡ false) × (is_whitespace c ≡ false)

-- The character does not end a cell, and is no blank but the space.
abbrev pub InCell : ℕ → Type 0
InCell c = (eqb c b'|' ≡ false) × ((is_whitespace c ≡ false) ⊎ (c ≡ 32))

NoBar : Text → Type 0
NoBar s = All (λ c. eqb c b'|' ≡ false) s

All-append : (P : ℕ → Type 0) (s t : Text) → All P s → All P t → All P (s ++ t)
All-append P [] t h k = k
All-append P (c ∷ s) t h k = (h.0, All-append P s t h.1 k)

replace_char-NoBar : (s : Text) → NoBar (replace_char b'|' (str "/") s)
unfolding replace_char NoBar
replace_char-NoBar [] = tt
replace_char-NoBar (c ∷ s) = elim (Bool-cases (eqb c b'|')) [
  | inl bar ↦ rw bar (refl, replace_char-NoBar s)
  | inr other ↦ rw (other) (other, replace_char-NoBar s)
]

word_list-Plain :
    (word : Text) (rest : List Text)
    → All Plain word
    → All (All Plain) rest
    → All (All Plain) (word_list word ++ rest)
word_list-Plain [] rest h k = k
word_list-Plain (c ∷ word) rest h k = (h, k)

words_from-Plain : (word s : Text) → All Plain word → NoBar s → All (All Plain) (words_from word s)
unfolding words_from NoBar
words_from-Plain [] [] h n = tt
words_from-Plain (c ∷ word) [] h n = (h, tt)
words_from-Plain word (c ∷ s) h n = elim (Bool-cases (is_whitespace c)) [
  | inl blank ↦ rw blank (word_list-Plain word _ h (words_from-Plain [] s tt n.1))
  | inr full ↦ rw full (
      words_from-Plain (word ++ (c ∷ [])) s (All-append Plain word (c ∷ []) h ((n.0, full), tt))
        n.1)
]

Plain-InCell : (s : Text) → All Plain s → All InCell s
Plain-InCell [] h = tt
Plain-InCell (c ∷ s) h = ((h.0.0, inl h.0.1), Plain-InCell s h.1)

join_with-InCell :
    (words : List Text) → All (All Plain) words → All InCell (join_with (str " ") words)
unfolding join_with
join_with-InCell [] h = tt
join_with-InCell (w ∷ []) h = Plain-InCell w h.0
join_with-InCell (w ∷ v ∷ words) h =
    All-append InCell w _ (Plain-InCell w h.0) ((refl, inr refl), join_with-InCell (v ∷ words) h.1)

-- A cell that was cleaned neither ends its column nor its line: it holds no bar, and no blank but the
-- space.
pub clean_cell-InCell : (value : Text) → All InCell (clean_cell value)
unfolding clean_cell split_whitespace
clean_cell-InCell value =
    join_with-InCell _
      (words_from-Plain [] (replace_char b'|' (str "/") value) tt (replace_char-NoBar value))

-- The label is the first one, or the number of no round that has a row, or there is a round with the
-- largest number of 64 bits.
abbrev pub FreshLabel : Text → Text → Type 0
FreshLabel label content =
    (label ≡ str "R1")
    ⊎ ((m : ℕ) × (label ≡ str "R" ++ show_nat m) × All (λ n. n < m) (round_numbers (lines content)))
    ⊎ (18446744073709551615 ≤ highest (round_numbers (lines content)))

pub append-done :
    (text : Text) (input : AppendInput) (rounds : List LedgerRound) (d : LedgerDiagnostics)
    → parse_ledger (appended text input) ≡ ok rounds
    → diagnose rounds ≡ some d
    → append text input
      ≡ ok (
        record {
          label = next_round_label (upgrade_schema text);
          verdict = evaluate_ledger rounds false;
          diagnostics = d;
        },
        appended text input,
      )
unfolding append
append-done text input rounds d h k = rw (append, h, k) refl
