-- ===== src/Scheduler/Retry/Bounds.antt =====
-- src/scheduler.rs: how long the pauses between the attempts of a job are.
use long_task_orchestration.Prelude.{
  Bool-cases, ℕ, zero, suc, ◌+◌, ◌≡◌, ◌<◌, true, false, List, [], ◌∷◌, Option, none, some,
  Option-cases, inl, inr, min, arith,
}
use long_task_orchestration.Prelude.Eq.{contains}
use long_task_orchestration.Prelude.F64.{F64}
use long_task_orchestration.Prelude.Json.{Items, nil}
use long_task_orchestration.AgentJob.{AgentJob, AgentResult, JobStatus, status_eq}
use long_task_orchestration.Scheduler.{SchedulerConfig}
use long_task_orchestration.Scheduler.Retry.{
  u32_max, retry_budget, capped_backoff, snoc, retry_entry, retry_delay_after_attempt,
  attempts_from, run_job,
}
use long_task_orchestration.Scheduler.Retry.Laws.{pauses}

module _ (F : F64) (config : SchedulerConfig F.Carrier)
    (run_once : AgentJob F.Carrier → ℕ → AgentResult F.Carrier) (job : AgentJob F.Carrier) where
  open F use {Carrier, add, gt}

  capped_backoff-not_gt :
      (retry_number : ℕ)
      → gt (capped_backoff F config job.retry_policy retry_number) config.max_backoff_sec ≡ false
  unfolding capped_backoff
  capped_backoff-not_gt retry_number = F.min-not_gt _ config.max_backoff_sec

  -- A pause is granted only for a status that the policy retries, before the last attempt, within the
  -- wall time, and not above the longest pause.
  delay_some :
      (status : JobStatus) (i : ℕ) (elapsed : Carrier) (d : Carrier)
      → retry_delay_after_attempt F config status job.retry_policy i elapsed job.budget.timeout_sec
        ≡ some d
      → (contains job.retry_policy.retry_on status ≡ true)
        × (i < job.retry_policy.max_retries)
        × (gt (add elapsed d) (retry_budget F config job.budget.timeout_sec) ≡ false)
        × (gt d config.max_backoff_sec ≡ false)
  unfolding retry_delay_after_attempt
  delay_some status i elapsed d h = ground (arith, capped_backoff-not_gt (i + 1))

  -- The pauses in a row, with the time slept before each: none ends above the wall time, and none
  -- is above the longest pause.
  abbrev pub WithinBudget : Carrier → List Carrier → Type 0
  WithinBudget elapsed [] = Unit
  WithinBudget elapsed (d ∷ ds) =
      (gt (add elapsed d) (retry_budget F config job.budget.timeout_sec) ≡ false)
      × (gt d config.max_backoff_sec ≡ false)
      × WithinBudget (add elapsed d) ds

  attempts_from-WithinBudget :
      (left i : ℕ) (elapsed : Carrier) (last : Option (AgentResult Carrier)) (log : Items Carrier)
      → WithinBudget elapsed
          (pauses (attempts_from F config run_once job left i elapsed last log).1)
  unfolding attempts_from
  attempts_from-WithinBudget zero i elapsed last log = tt
  attempts_from-WithinBudget (suc left) i elapsed last log =
      elim (Option-cases (
        retry_delay_after_attempt F config status job.retry_policy i elapsed
          job.budget.timeout_sec)) [
            | inl stop ↦ rw (stop, attempts_from) tt
            | inr (d, again) ↦ elim (Bool-cases (F.is_duration d)) [
              | inr bad ↦ rw (again, attempts_from) (rw bad tt)
              | inl fine ↦
                  let (listed, early, within, short) = delay_some status i elapsed d again in
                  rw (again, attempts_from)
                    (rw fine (
                      within,
                      short,
                      attempts_from-WithinBudget left (i + 1) (add elapsed d)
                          (some (run_once job attempt))
                          (snoc log (retry_entry attempt (run_once job attempt) d)),
                    ))
            ]
          ]
    where
      attempt : ℕ
      attempt = min (i + 1) u32_max

      status : JobStatus
      status = (run_once job attempt).status

  -- However the attempts of a job end, its pauses keep within the wall time for retries, and none is
  -- longer than the longest pause.
  pub run_job-WithinBudget : WithinBudget F.zero (pauses (run_job F config run_once job).1)
  unfolding run_job
  run_job-WithinBudget = attempts_from-WithinBudget _ 0 F.zero none nil
