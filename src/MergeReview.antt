-- ===== src/MergeReview.antt =====
-- src/merge_review.rs: the test gate and the review bundle of a write task. Running the tests and
-- git is not modelled: their outcome is the `DiffWithTests` that these functions are given.
use long_task_orchestration.Prelude.{
  Bool, true, false, not, ◌||◌, List, [], ◌∷◌, Option, none, some, any,
}
use long_task_orchestration.Prelude.Int.{ℤ}
use long_task_orchestration.Prelude.Text.{
  Text, str, has_substring, ends_with, lines, strip_prefix, split_once,
}

pub data TestStatus : Type 0 where
  passed : TestStatus
  failed : ℤ → TestStatus
  not_run : TestStatus

pub record TestResult : Type 0 where
  pub status : TestStatus
  pub command : Option Text
  pub stdout : Text
  pub stderr : Text

pub record DiffWithTests : Type 0 where
  pub base_commit : Text
  pub diff : Text
  pub test_result : TestResult

pub data TestGateAction : Type 0 where
  batchable immediate_report : TestGateAction

pub record AuditOpinion : Type 0 where
  pub source : Text
  pub summary : Text

pub record MergeReview : Type 0 where
  pub diff : DiffWithTests
  pub touched_paths : List Text
  pub suggest_audit : Bool
  pub audit_opinion : Option AuditOpinion

-- `filter_map(strip_prefix)`, `filter_map(split_once)` and the second half of each.
touched_path : Text → Option Text
touched_path line = elim (strip_prefix (str "diff --git a/") line) [
  | none ↦ none
  | some rest ↦ elim (split_once (str " b/") rest) [ none ↦ none | some (a, b) ↦ some b ]
]

paths_of_lines : List Text → List Text
unfolding touched_path
paths_of_lines [] = []
paths_of_lines (line ∷ rest) =
    let more = paths_of_lines rest in elim (touched_path line) [ none ↦ more | some p ↦ p ∷ more ]

unfoldable pub touched_paths_from_diff : Text → List Text
unfolding paths_of_lines
touched_paths_from_diff diff = paths_of_lines (lines diff)

unfoldable pub is_sensitive : Text → Bool
is_sensitive path =
    has_substring path (str "security")
    || has_substring path (str "auth")
    || has_substring path (str "migration")
    || ends_with path (str ".sql")

abbrev pub is_passed : TestStatus → Bool
is_passed passed = true
is_passed _ = false

unfoldable pub build_merge_review : DiffWithTests → MergeReview
build_merge_review diff =
    let touched = touched_paths_from_diff diff.diff in
    record {
      diff = diff;
      touched_paths = touched;
      suggest_audit = any is_sensitive touched || not (is_passed diff.test_result.status);
      audit_opinion = none;
    }

gate_of : TestStatus → TestGateAction
gate_of (failed code) = immediate_report
gate_of passed = batchable
gate_of not_run = batchable

unfoldable pub test_gate_action : DiffWithTests → TestGateAction
unfolding gate_of
test_gate_action diff = gate_of diff.test_result.status
