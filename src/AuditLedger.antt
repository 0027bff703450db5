-- ===== src/AuditLedger.antt =====
-- src/audit_ledger.rs: a round is appended to the text of an audit ledger. Reading and writing the file
-- is not modelled: its text is given and returned. The number of a new label wraps at 64 bits, as the sum
-- does in a release build; a debug build panics there.
pub mod Placed
pub mod Laws
use long_task_orchestration.Prelude.{
  ℕ, suc, ◌+◌, ◌%◌, ◌<◌, ◌≤◌, ◌≡◌, ◌⊎◌, inl, inr, refl, ap, Bool, true, false, not, ◌&&◌, ◌||◌,
  List, [], ◌∷◌, ◌++◌, map, Option, none, some, All, all, length, max, eqb, if◌then◌else◌, arith,
  Bool-cases, Option-cases,
}
use long_task_orchestration.Prelude.Eq.{◌==◌}
use long_task_orchestration.Prelude.Render.{concat, join_with, replace_char, split_whitespace}
use long_task_orchestration.Prelude.Result.{Result, ok, err, ◌>>=◌}
use long_task_orchestration.Prelude.Text.{
  Text, str, text_eq, trim, trim_start, lines, split_on, split_once, strip_prefix, starts_with,
  has_substring, eq_ignore_ascii_case, show_nat, is_empty, is_whitespace,
}
use long_task_orchestration.Events.{parse_usize}
use long_task_orchestration.Ledger.{
  LedgerRound, LedgerVerdict, LedgerDiagnostics, evaluate_ledger, diagnose,
}
use long_task_orchestration.Ledger.Parse.{CountError, parse_ledger}

pub record AppendInput : Type 0 where
  pub artifact : Text
  pub auditors : List Text
  pub coverage : Text
  pub high : ℕ  -- u64
  pub critical : ℕ
  pub minor : ℕ

pub record AppendOutcome : Type 0 where
  pub label : Text
  pub verdict : LedgerVerdict
  pub diagnostics : LedgerDiagnostics

pub data AppendError : Type 0 where
  bad_count : CountError → AppendError
  no_observation : AppendError

unfoldable pub clean_cell : Text → Text
unfolding replace_char split_whitespace join_with
clean_cell value = join_with (str " ") (split_whitespace (replace_char b'|' (str "/") value))

-- `trim_start_matches('|')` and `trim_end_matches('|')`
drop_bars : Text → Text
drop_bars [] = []
drop_bars (c ∷ s) = let rest = drop_bars s in if eqb c b'|' then rest else c ∷ s

drop_end_bars : Text → Text
drop_end_bars [] = []
drop_end_bars (c ∷ s) =
    let rest = drop_end_bars s in if eqb c b'|' && is_empty rest then [] else c ∷ rest

unfoldable pub split_row : Text → List Text
unfolding drop_bars drop_end_bars starts_with trim trim_start split_on
split_row line =
    if starts_with (trim_start line) (str "|")
    then map trim (split_on b'|' (drop_end_bars (drop_bars (trim line))))
    else []

abbrev old_header : List Text
old_header =
    str "round"
    ∷ str "artifact"
    ∷ str "auditors"
    ∷ str "high"
    ∷ str "critical"
    ∷ str "minor"
    ∷ str "trend"
    ∷ str "status"
    ∷ []

same_cells : List Text → List Text → Bool
same_cells [] [] = true
same_cells (a ∷ s) (b ∷ t) = a == b && same_cells s t
same_cells _ _ = false

-- `cells.insert(3, cell)`, of at least three cells.
insert_third : Text → List Text → List Text
insert_third cell (a ∷ b ∷ c ∷ rest) = a ∷ b ∷ c ∷ cell ∷ rest
insert_third cell cells = cells

abbrev row_of : List Text → Text
row_of cells = concat (str "| " ∷ join_with (str " | ") cells ∷ str " |" ∷ [])

abbrev is_some : {A : Type 0} → Option A → Bool
is_some none = false
is_some (some a) = true

is_round : List Text → Bool
unfolding strip_prefix parse_usize
is_round [] = false
is_round (cell ∷ cells) = elim (strip_prefix (str "R") cell) [
  | none ↦ false
  | some n ↦ is_some (parse_usize n)
]

is_rule : List Text → Bool
unfolding all
is_rule [] = false
is_rule (cell ∷ cells) = all (λ c. c == str "---" || c == str "---:") (cell ∷ cells)

-- A line of the summary in the schema with a column for the coverage.
unfoldable pub upgrade_line : Text → Text
unfolding split_row same_cells insert_third is_round is_rule concat join_with
upgrade_line line =
    let cells = split_row line in
    if same_cells cells old_header
    then row_of (insert_third (str "coverage") cells)
    else if is_rule cells
    then str "|---|---|---|---|---:|---:|---:|---|---|"
    else if is_round cells && eqb (length cells) 8
    then row_of (insert_third [] cells)
    else line

unfoldable pub upgrade_lines : Bool → List Text → List Text
unfolding upgrade_line starts_with trim_start trim eq_ignore_ascii_case
upgrade_lines in_summary [] = []
upgrade_lines in_summary (line ∷ rest) =
    let inside =
      if starts_with (trim_start line) (str "## ")
      then eq_ignore_ascii_case (trim line) (str "## Round Summary")
      else in_summary in
    (if inside then upgrade_line line else line) ∷ upgrade_lines inside rest

abbrev pub text_of : List Text → Text
text_of ls = join_with (str "\n") ls ++ str "\n"

unfoldable pub upgrade_schema : Text → Text
unfolding upgrade_lines lines join_with
upgrade_schema content = text_of (upgrade_lines false (lines content))

abbrev pub placeholder : Text
placeholder = str "| R1 |  |  |  |  |  |  | start | open |"

abbrev first_piece : List Text → Text
first_piece [] = []
first_piece (p ∷ ps) = p

round_number : Text → Option ℕ
unfolding strip_prefix trim_start split_on trim parse_usize
round_number line = elim (strip_prefix (str "| R") (trim_start line)) [
  | none ↦ none
  | some tail ↦ parse_usize (trim (first_piece (split_on b'|' tail)))
]

-- The numbers of the rounds that have a row.
unfoldable pub round_numbers : List Text → List ℕ
unfolding round_number
round_numbers [] = []
round_numbers (line ∷ rest) = elim (round_number line) [
  | none ↦ round_numbers rest
  | some n ↦ n ∷ round_numbers rest
]

unfoldable pub highest : List ℕ → ℕ
highest [] = 0
highest (n ∷ ns) = max n (highest ns)

unfoldable pub next_round_label : Text → Text
unfolding has_substring highest round_numbers lines show_nat
next_round_label content =
    let max_round = highest (round_numbers (lines content)) in
    if has_substring content placeholder || eqb max_round 0
    then str "R1"
    else str "R" ++ show_nat (suc max_round % 18446744073709551616)

-- The row stands behind the last line that begins with a round, or at the end.
unfoldable pub insert_after_last : Text → List Text → Option (List Text)
unfolding starts_with trim_start
insert_after_last row [] = none
insert_after_last row (line ∷ rest) = elim (insert_after_last row rest) [
  | some done ↦ some (line ∷ done)
  | none ↦ if starts_with (trim_start line) (str "| R") then some (line ∷ row ∷ rest) else none
]

unfoldable pub insert_round_row : Text → Text → Text
unfolding insert_after_last lines join_with
insert_round_row content row = elim (insert_after_last row (lines content)) [
  | some done ↦ text_of done
  | none ↦ text_of (lines content ++ (row ∷ []))
]

-- `content.replacen(placeholder, row, 1)`
unfoldable pub replace_first : Text → Text → Text
unfolding split_once
replace_first content row = elim (split_once placeholder content) [
  | none ↦ content
  | some (before, after) ↦ before ++ (row ++ after)
]

unfoldable pub format_row : Text → AppendInput → Text
unfolding concat clean_cell join_with show_nat
format_row label input = concat (
    str "| "
    ∷ label
    ∷ str " | "
    ∷ clean_cell input.artifact
    ∷ str " | "
    ∷ clean_cell (join_with (str " ") input.auditors)
    ∷ str " | "
    ∷ clean_cell input.coverage
    ∷ str " | "
    ∷ show_nat input.high
    ∷ str " | "
    ∷ show_nat input.critical
    ∷ str " | "
    ∷ show_nat input.minor
    ∷ str " | "
    ∷ (if label == str "R1" then str "start" else str "flat")
    ∷ str " | open |"
    ∷ [])

-- The text of the ledger with the row, which takes the place of the placeholder if that is there.
unfoldable pub appended : Text → AppendInput → Text
unfolding upgrade_schema next_round_label format_row has_substring replace_first insert_round_row
appended text input =
    let content = upgrade_schema text in
    let label = next_round_label content in
    let row = format_row label input in
    if label == str "R1" && has_substring content placeholder
    then replace_first content row
    else insert_round_row content row

-- The outcome and the text to write.
unfoldable pub append : Text → AppendInput → Result AppendError (AppendOutcome × Text)
unfolding appended upgrade_schema next_round_label parse_ledger diagnose evaluate_ledger
append text input = elim (parse_ledger (appended text input)) [
  | err e ↦ err (bad_count e)
  | ok rounds ↦ elim (diagnose rounds) [
    | none ↦ err no_observation
    | some diagnostics ↦ ok (
      record {
        label = next_round_label (upgrade_schema text);
        verdict = evaluate_ledger rounds false;
        diagnostics = diagnostics;
      },
      appended text input,
    )
  ]
]
