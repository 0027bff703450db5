-- ===== src/Scheduler/Batch.antt =====
-- src/scheduler.rs: `validate_batch`, and exactly which batches it accepts.
use long_task_orchestration.Prelude.{
  ◌≤◌, ◌≡◌, ◌↔◌, refl, false, List, [], ◌∷◌, length, ltb, arith, All,
}
use long_task_orchestration.Prelude.Eq.{contains}
use long_task_orchestration.Prelude.Result.{Result, ok, ◌>>◌, bail_if, map_err}
use long_task_orchestration.Prelude.Text.{Text, text_eq}
use long_task_orchestration.AgentJob.{AgentJob}
use long_task_orchestration.AgentJob.Policy.{validate}
use long_task_orchestration.Scheduler.{
  SchedulerConfig, SchedulerError, too_many_jobs, duplicate_job_id, invalid_job,
}

module _ {F : Type 0} where
  -- The loop over the jobs; `seen` is the set of the ids so far.
  unfoldable pub validate_jobs : List Text → List (AgentJob F) → Result SchedulerError (Unit {0})
  validate_jobs seen [] = ok tt
  validate_jobs seen (job ∷ jobs) = do
    bail_if (contains seen job.job_id) (duplicate_job_id job.job_id)
    map_err (invalid_job job.job_id) (validate job)
    validate_jobs (job.job_id ∷ seen) jobs

  unfoldable pub validate_batch :
      List (AgentJob F) → SchedulerConfig F → Result SchedulerError (Unit {0})
  unfolding validate_jobs
  validate_batch jobs config = do
    bail_if (ltb config.max_total_agents (length jobs))
        (too_many_jobs (length jobs) config.max_total_agents)
    validate_jobs [] jobs

  -- No id is in `seen` or stands twice.
  abbrev pub AllFresh : List Text → List (AgentJob F) → Type 0
  AllFresh seen [] = Unit
  AllFresh seen (job ∷ jobs) =
      (contains seen job.job_id ≡ false) × AllFresh (job.job_id ∷ seen) jobs

  abbrev pub IsValidJob : AgentJob F → Type 0
  IsValidJob job = validate job ≡ ok tt

  validate_jobs_iff :
      (seen : List Text) (jobs : List (AgentJob F))
      → validate_jobs seen jobs ≡ ok tt ↔ (AllFresh seen jobs × All IsValidJob jobs)
  unfolding validate_jobs
  validate_jobs_iff seen [] = (λ _. (tt, tt), λ _. refl)
  validate_jobs_iff seen (job ∷ jobs) = ground (arith, validate_jobs_iff (job.job_id ∷ seen) jobs)

  -- A batch is accepted exactly if it is not larger than the limit, no two of its jobs have one id,
  -- and each of its jobs is valid.
  pub validate_batch_iff :
      (jobs : List (AgentJob F)) (config : SchedulerConfig F)
      → validate_batch jobs config ≡ ok tt
        ↔ ((length jobs ≤ config.max_total_agents) × AllFresh [] jobs × All IsValidJob jobs)
  unfolding validate_batch
  validate_batch_iff jobs config = ground (arith, validate_jobs_iff [] jobs)
