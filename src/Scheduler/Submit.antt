-- ===== src/Scheduler/Submit.antt =====
-- src/scheduler.rs: `submit`. A batch is validated, the runners are probed, and the jobs run, in the
-- order of their dependencies if there are any and in one wave otherwise. `none` stands for a panic
-- of the `expect` on an empty slot, or for a loop of waves that runs out of fuel.
pub mod Laws
use long_task_orchestration.Prelude.{
  ℕ, zero, suc, Bool, true, false, List, [], ◌∷◌, map, Option, none, some, length, set, replicate,
  if◌then◌else◌,
}
use long_task_orchestration.Prelude.Eq.{◌==◌}
use long_task_orchestration.Prelude.Result.{Result, ok, err, ◌>>=◌}
use long_task_orchestration.Prelude.Text.{Text, text_eq, text_ltb}
use long_task_orchestration.AgentJob.{AgentJob, AgentResult}
use long_task_orchestration.Scheduler.{SchedulerConfig, SchedulerError}
use long_task_orchestration.Scheduler.Batch.{validate_batch}
use long_task_orchestration.Scheduler.Health.{HealthProbe, healthcheck}
use long_task_orchestration.Scheduler.Plan.{plan_of, has_edges}
use long_task_orchestration.Scheduler.Plan.Run.{JoinSet, run_parallel_jobs, run_dependency_plan}

-- `BTreeSet<String>::insert`
unfoldable pub insert_runner : Text → List Text → List Text
insert_runner t [] = t ∷ []
insert_runner t (u ∷ us) =
    let rest = insert_runner t us in
    if t == u then u ∷ us else if text_ltb t u then t ∷ u ∷ us else u ∷ rest

module _ {F : Type 0} where
  unfoldable pub unique_runners : List (AgentJob F) → List Text
  unfolding insert_runner
  unique_runners [] = []
  unique_runners (job ∷ jobs) = insert_runner job.runner (unique_runners jobs)

  -- `enumerate()`
  abbrev pub enumerate_from : ℕ → List (AgentJob F) → List (ℕ × AgentJob F)
  enumerate_from i [] = []
  enumerate_from i (job ∷ jobs) = (i, job) ∷ enumerate_from (suc i) jobs

  -- `results[idx] = Some(result)` for each joined result
  unfoldable pub fill :
      List (ℕ × AgentResult F) → List (Option (AgentResult F)) → List (Option (AgentResult F))
  fill [] results = results
  fill ((i, r) ∷ done) results = fill done (set results i (some r))

  -- `result.expect("all scheduler slots filled")`
  unfoldable pub expect_all : List (Option (AgentResult F)) → Option (List (AgentResult F))
  expect_all [] = some []
  expect_all (none ∷ results) = none
  expect_all (some r ∷ results) = elim (expect_all results) [
    | none ↦ none
    | some rs ↦ some (r ∷ rs)
  ]

  abbrev pub expect_ok :
      Option (Result SchedulerError (List (Option (AgentResult F))))
      → Option (Result SchedulerError (List (AgentResult F)))
  expect_ok none = none
  expect_ok (some (err e)) = some (err e)
  expect_ok (some (ok results)) = elim (expect_all results) [ none ↦ none | some rs ↦ some (ok rs) ]

module _ {F E : Type 0} (config : SchedulerConfig F) (run : AgentJob F → AgentResult F)
    (probe : ℕ → List Text → Result E HealthProbe) (tasks : JoinSet (ℕ × AgentResult F)) where
  -- The jobs of a valid batch, with the health of their runners known.
  unfoldable pub run_jobs :
      HealthProbe
      → List (AgentJob F)
      → Option (Result SchedulerError (List (Option (AgentResult F))))
  run_jobs health jobs = elim (has_edges (plan_of jobs)) [
    | true ↦ run_dependency_plan run health tasks jobs (plan_of jobs)
    | false ↦ elim (run_parallel_jobs run health tasks (enumerate_from 0 jobs)) [
      | err e ↦ some (err e)
      | ok done ↦ some (ok (fill done (replicate (length jobs) none)))
    ]
  ]

  unfoldable pub submit : List (AgentJob F) → Option (Result SchedulerError (List (AgentResult F)))
  unfolding run_jobs
  submit jobs = elim (validate_batch jobs config) [
    | err e ↦ some (err e)
    | ok _ ↦
        expect_ok
          (run_jobs (healthcheck probe (unique_runners jobs) config.healthcheck_retries) jobs)
  ]
