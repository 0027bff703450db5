-- ===== src/Tests/SchedulerRuns.antt =====
-- src/scheduler.rs: runs of single jobs, probes and write tasks.
use long_task_orchestration.Prelude.{
  ℕ, suc, eqb, if◌then◌else◌, ◌≤◌, ◌<◌, ◌≡◌, ◌↔◌, true, false, ◌&&◌, List, [], ◌∷◌, none, arith,
  any, take, All,
}
use long_task_orchestration.Prelude.Eq.{contains}
use long_task_orchestration.Prelude.Int.{pos, is_code}
use long_task_orchestration.Prelude.Result.{ok}
use long_task_orchestration.Prelude.Text.{str, text_eq, is_empty}
use long_task_orchestration.MergeReview.{DiffWithTests, passed}
use long_task_orchestration.AgentJob.{
  AgentJob, AgentResult, JobStatus, rate_limited, quota_exhausted, timeout, status_eq,
}
use long_task_orchestration.Scheduler.Exit.{classify_exit}
use long_task_orchestration.Scheduler.Exit.Laws.{quota_gone, limited, classify_exit-status}
use long_task_orchestration.Scheduler.Retry.{run_job}
use long_task_orchestration.Scheduler.Retry.Laws.{
  attempts, pauses, count_from, pauses_from, pause_after, Retries, EndsAt, run_job-attempts,
}
use long_task_orchestration.Scheduler.Retry.Bounds.{WithinBudget, run_job-WithinBudget}
use long_task_orchestration.Scheduler.Batch.{
  validate_batch, AllFresh, IsValidJob, validate_batch_iff,
}
use long_task_orchestration.Scheduler.Health.{HealthProbe, is_healthy, healthcheck_with_retries}
use long_task_orchestration.Scheduler.Health.Laws.{says, healthcheck_with_retries-any}
use long_task_orchestration.Scheduler.Plan.{opens}
use long_task_orchestration.Scheduler.Write.{finalize_write_task, finalize_write_task-closed}
use long_task_orchestration.Tests.Data.{whole, config, healthy, job_a, job_b, result}

-- The first attempt is rate limited, the others succeed.
abbrev second_succeeds : AgentJob ℕ → ℕ → AgentResult ℕ
second_succeeds j attempt = result (if eqb attempt 1 then rate_limited else JobStatus.ok) j

run_job-attempts_example :
    let (final, events) = run_job whole config second_succeeds job_a in
    (k : ℕ) × (k ≤ 2)
    × (attempts events ≡ count_from 1 (suc k))
    × (pauses events ≡ pauses_from whole config second_succeeds job_a 0 k)
    × ((j : ℕ)
        → j < k
        → Retries whole config second_succeeds job_a j
          × (whole.is_duration (pause_after whole config second_succeeds job_a j) ≡ true))
    × EndsAt whole config second_succeeds job_a k final
run_job-attempts_example = run_job-attempts whole config second_succeeds job_a (omega arith)

run_job-WithinBudget_example :
    WithinBudget whole config second_succeeds job_a 0
      (pauses (run_job whole config second_succeeds job_a).1)
run_job-WithinBudget_example = run_job-WithinBudget whole config second_succeeds job_a

classify_exit-status_example :
    let text = str "error 429 Too Many Requests" in
    let status = (classify_exit (str "codex") (pos 1) (str "reply") text).status in
    (status ≡ JobStatus.ok ↔ ((is_code 0 (pos 1) ≡ true) × (is_empty (str "reply") ≡ false)))
    × (status ≡ quota_exhausted ↔ (
        (is_code 0 (pos 1) ≡ false) × (quota_gone (str "codex") (pos 1) (str "reply") text ≡ true)))
    × (status ≡ rate_limited ↔ (
        (is_code 0 (pos 1) ≡ false)
        × (quota_gone (str "codex") (pos 1) (str "reply") text ≡ false)
        × (limited (str "codex") (pos 1) (str "reply") text ≡ true)))
    × (status ≡ timeout ↔ (
        (is_code 124 (pos 1) ≡ true)
        × (quota_gone (str "codex") (pos 1) (str "reply") text ≡ false)
        × (limited (str "codex") (pos 1) (str "reply") text ≡ false)))
    × ((classify_exit (str "codex") (pos 1) (str "reply") text).exit_code ≡ pos 1)
classify_exit-status_example =
    classify_exit-status (str "codex") (pos 1) (str "reply") (str "error 429 Too Many Requests")

validate_batch_iff_example :
    validate_batch (job_a ∷ job_b ∷ []) config ≡ ok tt
    ↔ ((2 ≤ 8) × AllFresh [] (job_a ∷ job_b ∷ []) × All IsValidJob (job_a ∷ job_b ∷ []))
validate_batch_iff_example = validate_batch_iff (job_a ∷ job_b ∷ []) config

abbrev late_probes : List HealthProbe
late_probes = [] ∷ healthy ∷ []

healthcheck_with_retries-any_example :
    is_healthy (healthcheck_with_retries (str "claude" ∷ []) late_probes 1) (str "claude") ≡ (
      contains (str "claude" ∷ []) (str "claude") && any (says (str "claude")) (take 2 late_probes))
healthcheck_with_retries-any_example =
    healthcheck_with_retries-any (str "claude" ∷ []) late_probes 1 (str "claude")

abbrev small_diff : DiffWithTests
small_diff = record {
  base_commit = str "c0";
  diff = str "diff --git a/x.rs b/x.rs\n+1";
  test_result = record { status = passed; command = none; stdout = []; stderr = [] };
}

finalize_write_task-closed_example :
    opens (finalize_write_task (str "/w") (ok small_diff) (result JobStatus.ok job_a)).0 ≡ false
finalize_write_task-closed_example =
    finalize_write_task-closed (str "/w") (ok small_diff) (result JobStatus.ok job_a)
