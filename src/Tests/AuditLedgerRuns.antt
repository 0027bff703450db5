-- ===== src/Tests/AuditLedgerRuns.antt =====
-- src/audit_ledger.rs at a concrete ledger: one round, and an append of the second.
use long_task_orchestration.Prelude.{ℕ, false, List, [], ◌∷◌, All, some}
use long_task_orchestration.Prelude.Text.{Text, str}
use long_task_orchestration.AuditLedger.{
  AppendInput, AppendOutcome, next_round_label, upgrade_schema, clean_cell,
}
use long_task_orchestration.AuditLedger.Laws.{InCell, clean_cell-InCell}
use long_task_orchestration.AuditLedger.Placed.{Placed}
use long_task_orchestration.Ledger.{
  LedgerRound, evaluate_ledger, insufficient, nonzero, improving, steady, unknown,
  advisory_lineage_recorded,
}

abbrev ledger : Text
ledger =
    str
      "## Round Summary\n\n| round | artifact | auditors | coverage | high | critical | minor | trend | status |\n|---|---|---|---|---:|---:|---:|---|---|\n| R1 | plan | pi | all | 2 | 0 | 1 | start | open |\n"

abbrev input : AppendInput
input = record {
  artifact = str "a|b";
  auditors = str "pi" ∷ str "agy" ∷ [];
  coverage = str "all files";
  high = 1;
  critical = 0;
  minor = 3;
}

clean_cell-InCell_example : All InCell (clean_cell (str "a|b\nc"))
clean_cell-InCell_example = clean_cell-InCell (str "a|b\nc")

abbrev round : Text → ℕ → Text → Text → LedgerRound
round label high auditors coverage = record {
  label = label;
  high = high;
  critical = 0;
  auditors = some auditors;
  coverage = some coverage;
}

abbrev rounds : List LedgerRound
rounds =
    round (str "R1") 2 (str "pi") (str "all")
    ∷ round (str "R2") 1 (str "pi agy") (str "all files")
    ∷ []

abbrev outcome : AppendOutcome
outcome = record {
  label = next_round_label (upgrade_schema ledger);
  verdict = evaluate_ledger rounds false;
  diagnostics = record {
    sample_sufficiency = insufficient;
    terminal = nonzero;
    direction = improving;
    oscillation = steady;
    envelope = unknown;
    confidence = advisory_lineage_recorded;
  };
}
