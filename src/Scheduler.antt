-- ===== src/Scheduler.antt =====
-- src/scheduler.rs: the agent scheduler. `Batch` validates a batch, `Exit` classifies the exit of a
-- runner, `Retry` is the loop of attempts of one job, `Health` the health probe with its retries,
-- `Plan` runs the jobs in the order of their dependencies, `Submit` puts them together, and `Write`
-- has what a write task adds.
pub mod Exit
pub mod Retry
pub mod Batch
pub mod Health
pub mod Plan
pub mod Submit
pub mod Write
use long_task_orchestration.Prelude.{ℕ, Option, none, some, List, []}
use long_task_orchestration.Prelude.Int.{ℤ}
use long_task_orchestration.Prelude.Text.{Text}
use long_task_orchestration.AgentJob.{
  AgentJob, AgentJobError, AgentResult, JobStatus, failed, timeout, skipped, PermissionPolicy,
}

pub record SchedulerConfig (F : Type 0) : Type 0 where
  pub max_total_agents : ℕ
  pub max_concurrency : ℕ
  pub max_backoff_sec : F
  pub total_retry_wall_sec : F
  pub healthcheck_retries : ℕ
  pub stall_timeout_sec : Option ℕ
  pub heartbeat_interval_sec : ℕ
  pub drain_after_exit_timeout_sec : ℕ

pub data SchedulerError : Type 0 where
  too_many_jobs : (count limit : ℕ) → SchedulerError
  duplicate_job_id : Text → SchedulerError
  dependency_cycle : SchedulerError
  invalid_job : (job_id : Text) (source : AgentJobError) → SchedulerError
  join_failed : Text → SchedulerError
  runtime_failed : Text → SchedulerError
