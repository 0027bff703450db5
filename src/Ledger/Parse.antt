-- ===== src/Ledger/Parse.antt =====
-- src/ledger.rs: `parse_ledger`, which reads the rounds from the table under the heading `## Round
-- Summary` of the ledger's Markdown text, and the printed sequence of the rounds.
use long_task_orchestration.Prelude.{
  ℕ, suc, ◌+◌, ◌*◌, ◌-◌, ◌≡◌, refl, Bool, true, false, not, ◌&&◌, ◌||◌, List, [], ◌∷◌, ◌++◌, map,
  Option, none, some, leb, eqb, if◌then◌else◌, length, get_elem?, any, all, arith,
}
use long_task_orchestration.Prelude.Result.{Result, ok, err, ◌>>=◌}
use long_task_orchestration.Prelude.Text.{
  Text, str, is_empty, trim, lines, split_on, starts_with, eq_ignore_ascii_case, show_nat,
}
use long_task_orchestration.Ledger.{LedgerRound, saturating_add, u64_max, blockers}

pub record SummaryColumns : Type 0 where
  pub high : ℕ
  pub critical : ℕ
  pub auditors : Option ℕ
  pub coverage : Option ℕ

-- `Iterator::position`
unfoldable pub position : (Text → Bool) → List Text → Option ℕ
position p [] = none
position p (x ∷ xs) =
    let rest = position p xs in
    if p x then some 0 else (elim rest [ none ↦ none | some i ↦ some (suc i) ])

unfoldable pub from_header : List Text → Option SummaryColumns
unfolding position
from_header cells = elim (position (λ c. eq_ignore_ascii_case c (str "high")) cells) [
  | none ↦ none
  | some high ↦ elim (position (λ c. eq_ignore_ascii_case c (str "critical")) cells) [
    | none ↦ none
    | some critical ↦ some (record {
      high = high;
      critical = critical;
      auditors = position (λ c. eq_ignore_ascii_case c (str "auditors")) cells;
      coverage = position (λ c. eq_ignore_ascii_case c (str "coverage")) cells;
    })
  ]
]

unfoldable pub for_width : ℕ → SummaryColumns
for_width width =
    if leb 9 width
    then record { high = 4; critical = 5; auditors = some 2; coverage = some 3 }
    else if leb 8 width
    then record { high = 3; critical = 4; auditors = some 2; coverage = none }
    else record { high = 3; critical = 4; auditors = none; coverage = none }

strip_start : ℕ → Text → Text
strip_start ch [] = []
strip_start ch (c ∷ cs) = let rest = strip_start ch cs in if eqb c ch then rest else c ∷ cs

-- What is left once the trailing characters are gone.
strip_end : ℕ → Text → Text
strip_end ch [] = []
strip_end ch (c ∷ cs) =
    let rest = strip_end ch cs in if eqb c ch && is_empty rest then [] else c ∷ rest

unfoldable pub split_cells : Text → List Text
unfolding strip_start strip_end
split_cells line = map trim (split_on b'|' (strip_end b'|' (strip_start b'|' (trim line))))

keep_full : Option Text → Option Text
keep_full none = none
keep_full (some cell) = if is_empty cell then none else some cell

unfoldable pub optional_cell : List Text → Option ℕ → Option Text
unfolding keep_full
optional_cell cells none = none
optional_cell cells (some i) = keep_full (get_elem? cells i)

abbrev join : List Text → Text
join [] = []
join (cell ∷ cells) = cell ++ join cells

unfoldable pub is_separator_row : List Text → Bool
is_separator_row cells =
    not (is_empty (join cells))
    && all (λ ch. eqb ch b'-' || (eqb ch b':' || eqb ch b' ')) (join cells)

unfoldable pub is_header_row : List Text → Bool
is_header_row cells = any (λ c. eq_ignore_ascii_case c (str "round")) cells

-- `str::parse::<u64>` of a text without a sign.
digits_from : ℕ → Text → Option ℕ
digits_from n [] = if leb n u64_max then some n else none
digits_from n (c ∷ cs) =
    let rest = digits_from (n * 10 + (c - 48)) cs in if leb 48 c && leb c 57 then rest else none

unfoldable pub parse_u64 : Text → Option ℕ
unfolding digits_from
parse_u64 [] = none
parse_u64 (c ∷ cs) = digits_from 0 (c ∷ cs)

pub record CountError : Type 0 where
  pub column : Text
  pub label : Text
  pub raw : Text

-- The loop over the parts of a count such as `2 + 1`.
unfoldable pub parse_parts : CountError → ℕ → List Text → Result CountError ℕ
unfolding parse_u64
parse_parts e total [] = ok total
parse_parts e total (part ∷ parts) =
    let skip = parse_parts e total parts in
    if is_empty (trim part) then skip else (elim (parse_u64 (trim part)) [
      | none ↦ err e
      | some value ↦ parse_parts e (saturating_add total value) parts
    ])

unfoldable pub parse_count : Text → Text → Text → Result CountError ℕ
unfolding parse_parts
parse_count raw label column =
    parse_parts (record { column = column; label = label; raw = raw }) 0 (split_on b'+' raw)

abbrev or_empty : Option Text → Text
or_empty none = []
or_empty (some cell) = cell

-- The columns of the header apply to the rows of its width.
unfoldable pub columns_for : Option (ℕ × SummaryColumns) → ℕ → SummaryColumns
unfolding for_width
columns_for none width = for_width width
columns_for (some (header_width, columns)) width =
    if eqb header_width width then columns else for_width width

unfoldable pub round_of : List Text → SummaryColumns → Result CountError (Option LedgerRound)
unfolding parse_count optional_cell
round_of cells columns =
    let label = or_empty (get_elem? cells 0) in
    let high_raw = or_empty (get_elem? cells columns.high) in
    let critical_raw = or_empty (get_elem? cells columns.critical) in
    if is_empty high_raw && is_empty critical_raw then ok none else (do
      high ← parse_count high_raw label (str "high")
      critical ← parse_count critical_raw label (str "critical")
      ok (
          some (record {
            label = label;
            high = high;
            critical = critical;
            auditors = optional_cell cells columns.auditors;
            coverage = optional_cell cells columns.coverage;
          })))

-- What one line does: it opens or closes the summary, is passed over, sets the columns, or is a row.
pub data Line : Type 0 where
  heading : Bool → Line
  passed_over : Line
  header row : List Text → Line

unfoldable pub line_of : Bool → Text → Line
unfolding split_cells is_separator_row is_header_row
line_of in_summary line =
    let cells = split_cells line in
    if starts_with line (str "## ")
    then heading (eq_ignore_ascii_case (trim line) (str "## Round Summary"))
    else if not in_summary || not (any (λ c. eqb c b'|') line)
    then passed_over
    else if leb (length cells) 4 || is_separator_row cells
    then passed_over
    else if is_header_row cells
    then header cells
    else row cells

abbrev with_width : List Text → Option SummaryColumns → Option (ℕ × SummaryColumns)
with_width cells none = none
with_width cells (some columns) = some (length cells, columns)

abbrev push : Option LedgerRound → List LedgerRound → List LedgerRound
push none rounds = rounds
push (some r) rounds = r ∷ rounds

-- The loop over the lines: its flag, its columns, and the rounds that follow.
unfoldable pub rounds_of :
    Bool → Option (ℕ × SummaryColumns) → List Text → Result CountError (List LedgerRound)
unfolding line_of round_of from_header columns_for
rounds_of in_summary columns [] = ok []
rounds_of in_summary columns (line ∷ rest) = elim (line_of in_summary line) [
  | heading summary ↦ rounds_of summary none rest
  | passed_over ↦ rounds_of in_summary columns rest
  | header cells ↦ rounds_of in_summary (with_width cells (from_header cells)) rest
  | row cells ↦ do
    first ← round_of cells (columns_for columns (length cells))
    more ← rounds_of in_summary columns rest
    ok (push first more)
]

unfoldable pub parse_ledger : Text → Result CountError (List LedgerRound)
unfolding rounds_of
parse_ledger text = rounds_of false none (lines text)

abbrev non_empty : Result CountError (List LedgerRound) → Bool
non_empty (ok (r ∷ rounds)) = true
non_empty _ = false

unfoldable pub has_real_ledger_rounds : Text → Bool
unfolding parse_ledger
has_real_ledger_rounds text = non_empty (parse_ledger text)

-- `ledger_sequence`: the rounds in order, with an arrow between.
unfoldable pub ledger_sequence : List LedgerRound → Text
unfolding blockers
ledger_sequence [] = []
ledger_sequence (r ∷ []) = r.label ++ (str "=" ++ show_nat (blockers r))
ledger_sequence (r ∷ s ∷ rounds) =
    r.label ++ (str "=" ++ (show_nat (blockers r) ++ (str " -> " ++ ledger_sequence (s ∷ rounds))))

-- A line that opens the summary.
unfoldable pub opens_summary : Text → Bool
opens_summary line =
    starts_with line (str "## ") && eq_ignore_ascii_case (trim line) (str "## Round Summary")

rounds_of-outside :
    (columns : Option (ℕ × SummaryColumns)) (text : List Text)
    → any opens_summary text ≡ false
    → rounds_of false columns text ≡ ok []
unfolding rounds_of line_of opens_summary any
rounds_of-outside columns [] h = refl
rounds_of-outside columns (line ∷ rest) h =
    ground (arith, rounds_of-outside none rest, rounds_of-outside columns rest)

-- A ledger with no heading `## Round Summary` has no rounds, and no error, whatever else it holds.
parse_ledger-outside :
    (text : Text) → any opens_summary (lines text) ≡ false → parse_ledger text ≡ ok []
unfolding parse_ledger
parse_ledger-outside text h = rounds_of-outside none (lines text) h
