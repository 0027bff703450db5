-- ===== src/Scheduler/Retry.antt =====
-- src/scheduler.rs: the attempts of one job. `run_once` starts the runner and is a parameter; the
-- loop returns, with the result, what it did: the attempts that it made and the pauses between. It has
-- no result where it panics, at a pause that is no duration.
pub mod Laws
pub mod Bounds
use long_task_orchestration.Prelude.{
  ℕ, zero, suc, ◌+◌, ◌-◌, ◌≡◌, Bool, true, false, not, ◌&&◌, ◌||◌, List, [], ◌∷◌, ◌++◌, Option,
  none, some, ltb, eqb, leb, min, if◌then◌else◌,
}
use long_task_orchestration.Prelude.BTreeMap.{text_key, insert}
use long_task_orchestration.Prelude.Eq.{contains}
use long_task_orchestration.Prelude.F64.{F64}
use long_task_orchestration.Prelude.Int.{ℤ, pos, negsuc}
use long_task_orchestration.Prelude.Json.{
  Json, Items, Fields, null, pos_int, neg_int, float, string, array, object, nil, cons, end, field,
}
use long_task_orchestration.Prelude.Text.{Text, str}
use long_task_orchestration.AgentJob.{
  AgentJob, AgentResult, JobStatus, status_eq, status_str, RetryPolicy,
}
use long_task_orchestration.Scheduler.{SchedulerConfig}
use long_task_orchestration.Scheduler.Exit.{failure_result}

abbrev pub u32_max : ℕ
u32_max = 4294967295

-- `n as i32` of a `u32`: the two's complement.
abbrev as_i32 : ℕ → ℤ
as_i32 n = if ltb n 2147483648 then pos n else negsuc (u32_max - n)

-- What the loop does, in order.
pub data Event (T : Type 0) : Type 0 where
  attempted : ℕ → Event T
  slept : T → Event T

module _ {F : Type 0} where
  unfoldable pub json_of_code : Option ℤ → Json F
  json_of_code none = null
  json_of_code (some (pos n)) = pos_int n
  json_of_code (some (negsuc n)) = neg_int (suc n)

  -- The entry of `retry_attempts` for one attempt that is tried again.
  unfoldable pub retry_entry : ℕ → AgentResult F → F → Json F
  unfolding json_of_code
  retry_entry attempt result delay = object (
      field (str "attempt") (pos_int attempt) (
        field (str "delay_sec") (float delay) (
          field (str "exit_code") (json_of_code result.exit_code)
            (field (str "status") (string (status_str result.status)) end))))

  unfoldable pub snoc : Items F → Json F → Items F
  snoc nil j = cons j nil
  snoc (cons i is) j = cons i (snoc is j)

  -- The result with the log of its retries, if there were any.
  unfoldable pub with_retry_attempts : Items F → AgentResult F → AgentResult F
  with_retry_attempts nil result = result
  with_retry_attempts (cons i is) result = record result {
    cost = insert (str "retry_attempts") (array (cons i is)) result.cost;
  }

module _ (F : F64) (config : SchedulerConfig F.Carrier) where
  open F use {Carrier, of_nat, add, mul, pow2, gt}

  -- The wall time that a job may spend on pauses.
  abbrev pub retry_budget : ℕ → Carrier
  retry_budget job_timeout_sec = F.min config.total_retry_wall_sec (of_nat job_timeout_sec)

  -- The doubled pause, no longer than the longest one.
  unfoldable pub capped_backoff : RetryPolicy Carrier → ℕ → Carrier
  capped_backoff policy retry_number =
      F.min (mul policy.backoff_sec (pow2 (as_i32 (retry_number - 1)))) config.max_backoff_sec

  unfoldable pub next_backoff_sec : RetryPolicy Carrier → ℕ → Carrier → ℕ → Option Carrier
  next_backoff_sec policy retry_number elapsed job_timeout_sec =
      let capped = capped_backoff policy retry_number in
      if eqb retry_number 0 || ltb policy.max_retries retry_number
      then none
      else if gt (add elapsed capped) (retry_budget job_timeout_sec)
      then none
      else some capped

  unfoldable pub retry_delay_after_attempt :
      JobStatus → RetryPolicy Carrier → ℕ → Carrier → ℕ → Option Carrier
  unfolding next_backoff_sec
  retry_delay_after_attempt status policy used elapsed job_timeout_sec =
      if not (contains policy.retry_on status)
      then none
      else next_backoff_sec policy (used + 1) elapsed job_timeout_sec

  module _ (run_once : AgentJob Carrier → ℕ → AgentResult Carrier) (job : AgentJob Carrier) where
    abbrev unwrap_or_failure : Option (AgentResult Carrier) → AgentResult Carrier
    unwrap_or_failure (some result) = result
    unwrap_or_failure none = failure_result job 0 none (str "no attempt executed")

    -- The loop `for attempt_idx in 0..max_attempts`, by the rounds left.
    unfoldable pub attempts_from :
        ℕ
        → ℕ
        → Carrier
        → Option (AgentResult Carrier)
        → Items Carrier
        → Option (AgentResult Carrier) × List (Event Carrier)
    attempts_from zero attempt_idx elapsed last log =
        (some (with_retry_attempts log (unwrap_or_failure last)), [])
    attempts_from (suc left) attempt_idx elapsed last log =
        let attempt = min (attempt_idx + 1) u32_max in
        let result = run_once job attempt in
        elim (retry_delay_after_attempt result.status job.retry_policy attempt_idx elapsed
          job.budget.timeout_sec) [
            | some delay ↦
                let (final, events) =
                  attempts_from left (attempt_idx + 1) (add elapsed delay) (some result)
                    (snoc log (retry_entry attempt result delay)) in
                if F.is_duration delay
                then (final, attempted attempt ∷ slept delay ∷ events)
                else (none, attempted attempt ∷ [])
            | none ↦ (some (with_retry_attempts log result), attempted attempt ∷ [])
          ]

    unfoldable pub run_job : Option (AgentResult Carrier) × List (Event Carrier)
    unfolding attempts_from
    run_job = attempts_from (min (job.retry_policy.max_retries + 1) u32_max) 0 F.zero none nil
