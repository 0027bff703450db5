-- ===== src/Tests/LedgerRuns.antt =====
-- src/ledger.rs and src/dispatch.rs at concrete inputs.
use long_task_orchestration.Prelude.{
  ℕ, ◌≤◌, ◌<◌, ◌≡◌, ◌↔◌, ◌⊎◌, refl, Bool, true, false, List, [], ◌∷◌, map, Option, none, some,
  arith, last?, any,
}
use long_task_orchestration.Prelude.Result.{ok}
use long_task_orchestration.Prelude.Text.{Text, str, lines}
use long_task_orchestration.Ledger.{
  LedgerRound, LedgerDiagnostics, blockers, evaluate_ledger, diagnose, converged, converging,
  rebound, steady, sufficient, nonzero, improving, unknown, low_no_lineage,
}
use long_task_orchestration.Ledger.Verdict.{
  final_count, NonIncreasing, Decreasing, evaluate_ledger-converged, evaluate_ledger-lenient,
  evaluate_ledger-strict,
}
use long_task_orchestration.Ledger.Diagnosis.{
  Heads, NonDecreasing, diagnose-direction, diagnose-oscillation,
}
use long_task_orchestration.Ledger.Parse.{parse_ledger}
use long_task_orchestration.Dispatch.{
  should_escalate_same_cell, count, should_escalate_same_cell_iff,
}
use long_task_orchestration.AgentJob.{JobStatus, failed, small}
use long_task_orchestration.Tests.Data.{result, job_a}

abbrev round : ℕ → ℕ → LedgerRound
round high critical = record {
  label = str "r";
  high = high;
  critical = critical;
  auditors = none;
  coverage = none;
}

abbrev falling : List LedgerRound
falling = round 3 1 ∷ round 2 0 ∷ round 1 0 ∷ []

evaluate_ledger-converged_example :
    evaluate_ledger falling true ≡ converged
    ↔ (r : LedgerRound) × (last? falling ≡ some r) × (blockers r ≡ 0)
evaluate_ledger-converged_example = evaluate_ledger-converged falling true

evaluate_ledger-lenient_example :
    ((evaluate_ledger falling false ≡ converging) × NonIncreasing (map blockers falling))
    ⊎ ((evaluate_ledger falling false ≡ rebound) × (¬ NonIncreasing (map blockers falling)))
unfolding final_count blockers
evaluate_ledger-lenient_example = evaluate_ledger-lenient falling (omega arith)

evaluate_ledger-strict_example :
    evaluate_ledger falling true ≡ converging ↔ Decreasing (map blockers falling)
unfolding final_count blockers
evaluate_ledger-strict_example = evaluate_ledger-strict falling (omega arith)

abbrev falling_diagnosis : LedgerDiagnostics
falling_diagnosis = record {
  sample_sufficiency = sufficient;
  terminal = nonzero;
  direction = improving;
  oscillation = steady;
  envelope = unknown;
  confidence = low_no_lineage;
}

falling-diagnose : diagnose falling ≡ some falling_diagnosis
unfolding diagnose last? long_task_orchestration.Ledger.terminal_of
    long_task_orchestration.Ledger.direction_of long_task_orchestration.Ledger.oscillation_of
    long_task_orchestration.Ledger.classify_envelope long_task_orchestration.Prelude.all blockers
    any long_task_orchestration.Ledger.count_turns long_task_orchestration.Ledger.has_lineage
    long_task_orchestration.Ledger.changes long_task_orchestration.Prelude.filter
falling-diagnose = refl

diagnose-direction_example : Heads improving (map blockers falling)
diagnose-direction_example = diagnose-direction falling falling_diagnosis falling-diagnose

diagnose-oscillation_example :
    falling_diagnosis.oscillation ≡ steady
    ↔ (NonIncreasing (map blockers falling) ⊎ NonDecreasing (map blockers falling))
diagnose-oscillation_example = diagnose-oscillation falling falling_diagnosis falling-diagnose

-- A ledger with two rounds, the first of them with a sum in a cell.
reads_rounds :
    parse_ledger (
      str
        "## Round Summary\n| Round | Date | Scope | High | Critical |\n|---|---|---|---|---|\n| R1 | d | s | 2 + 1 | 0 |\n")
    ≡ ok
        (record { label = str "R1"; high = 3; critical = 0; auditors = none; coverage = none } ∷ [])
unfolding parse_ledger lines long_task_orchestration.Prelude.Text.starts_with
    long_task_orchestration.Prelude.Text.eq_ignore_ascii_case
    long_task_orchestration.Prelude.Text.trim any long_task_orchestration.Prelude.all
reads_rounds = refl

should_escalate_same_cell_example :
    should_escalate_same_cell
        (str "claude")
        (str "unknown")
        small
        (result failed job_a ∷ result JobStatus.ok job_a ∷ result failed job_a ∷ [])
      ≡ true
    ↔ 2
      ≤ count
          (str "claude")
          (str "unknown")
          small
          (result failed job_a ∷ result JobStatus.ok job_a ∷ result failed job_a ∷ [])
should_escalate_same_cell_example =
    should_escalate_same_cell_iff (str "claude") (str "unknown") small
      (result failed job_a ∷ result JobStatus.ok job_a ∷ result failed job_a ∷ [])
