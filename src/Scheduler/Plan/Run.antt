-- ===== src/Scheduler/Plan/Run.antt =====
-- src/scheduler.rs: `run_dependency_plan` and `run_parallel_jobs`. The loop takes fuel; one round
-- for each job and one more are enough.
use mathlib.Core.List.{Permᴰ}
use long_task_orchestration.Prelude.{
  ℕ, zero, suc, true, false, not, List, [], ◌∷◌, ◌++◌, Option, none, some, ◌≡◌, eqb, length, set,
  get_elem?, replicate, filter, if◌then◌else◌,
}
use long_task_orchestration.Prelude.Result.{Result, ok, err, ◌>>=◌, map_err}
use long_task_orchestration.Prelude.Text.{Text}
use long_task_orchestration.AgentJob.{AgentJob, AgentResult}
use long_task_orchestration.Scheduler.{SchedulerError, dependency_cycle, join_failed}
use long_task_orchestration.Scheduler.Exit.{skipped_for_unhealthy, skipped_for_dependency}
use long_task_orchestration.Scheduler.Health.{HealthProbe, is_healthy}
use long_task_orchestration.Scheduler.Plan.{
  DependencyPlan, is_nil, parents_at, dependency_blocked_jobs, dependencies_satisfied,
}

-- tokio's `JoinSet`: joining it yields the result of every spawned task once, in the order of
-- completion, or the error of a task that panicked or was cancelled.
pub record JoinSet (R : Type 0) : Type 0 where
  pub join : List R → Result Text (List R)
  pub join-perm : (spawned joined : List R) → join spawned ≡ ok joined → Permᴰ joined spawned

-- The results so far and the jobs that have none, by index.
pub record State (F : Type 0) : Type 0 where
  pub results : List (Option (AgentResult F))
  pub remaining : List ℕ

module _ {F : Type 0} where
  -- `results[idx] = Some(result); remaining.remove(&idx)`
  unfoldable pub record_result : ℕ → AgentResult F → State F → State F
  record_result i r state = record {
    results = set state.results i (some r);
    remaining = filter (λ j. not (eqb i j)) state.remaining;
  }

  unfoldable pub record_all : List (ℕ × AgentResult F) → State F → State F
  record_all [] state = state
  record_all ((i, r) ∷ done) state = record_all done (record_result i r state)

  -- The results of the blocked jobs; `jobs[idx]` is there for every remaining index.
  unfoldable pub skipped_results : List (AgentJob F) → List (ℕ × Text) → List (ℕ × AgentResult F)
  skipped_results jobs [] = []
  skipped_results jobs ((i, reason) ∷ blocked) =
      let rest = skipped_results jobs blocked in
      elim (get_elem? jobs i) [
        | none ↦ rest
        | some job ↦ (i, skipped_for_dependency job reason) ∷ rest
      ]

  unfoldable pub ready_jobs :
      List (AgentJob F)
      → DependencyPlan
      → List (Option (AgentResult F))
      → List ℕ
      → List (ℕ × AgentJob F)
  ready_jobs jobs plan results [] = []
  ready_jobs jobs plan results (i ∷ remaining) =
      let rest = ready_jobs jobs plan results remaining in
      elim (get_elem? jobs i) [
        | none ↦ rest
        | some job ↦
            if dependencies_satisfied (parents_at plan i) results then (i, job) ∷ rest else rest
      ]

  module _ (run : AgentJob F → AgentResult F) (health : HealthProbe) where
    -- The jobs of unhealthy runners are skipped, the others are spawned.
    unfoldable pub skipped_unhealthy : List (ℕ × AgentJob F) → List (ℕ × AgentResult F)
    skipped_unhealthy [] = []
    skipped_unhealthy ((i, job) ∷ jobs) =
        let rest = skipped_unhealthy jobs in
        if is_healthy health job.runner then rest else (i, skipped_for_unhealthy job) ∷ rest

    unfoldable pub spawned : List (ℕ × AgentJob F) → List (ℕ × AgentResult F)
    spawned [] = []
    spawned ((i, job) ∷ jobs) =
        let rest = spawned jobs in
        if is_healthy health job.runner then (i, run job) ∷ rest else rest

    module _ (tasks : JoinSet (ℕ × AgentResult F)) where
      unfoldable pub run_parallel_jobs :
          List (ℕ × AgentJob F) → Result SchedulerError (List (ℕ × AgentResult F))
      unfolding skipped_unhealthy spawned
      run_parallel_jobs jobs = do
        joined ← map_err join_failed (tasks.join (spawned jobs))
        ok (skipped_unhealthy jobs ++ joined)

      module _ (jobs : List (AgentJob F)) (plan : DependencyPlan) where
        -- The first half of a round: the blocked jobs get their results.
        unfoldable pub skip_blocked : State F → State F
        skip_blocked state =
            record_all
              (skipped_results jobs (dependency_blocked_jobs state.remaining state.results plan))
              state

        unfoldable pub ready_of : State F → List (ℕ × AgentJob F)
        ready_of state = ready_jobs jobs plan state.results state.remaining

        -- The `while` loop; `none` means that the fuel ran out.
        unfoldable pub plan_loop :
            ℕ → State F → Option (Result SchedulerError (List (Option (AgentResult F))))
        plan_loop zero state = none
        plan_loop (suc fuel) state = elim (is_nil state.remaining) [
          | true ↦ some (ok state.results)
          | false ↦
              let after = skip_blocked state in
              elim (is_nil (ready_of after)) [
                | true ↦
                    some (if is_nil after.remaining then ok after.results else err dependency_cycle)
                | false ↦ elim (run_parallel_jobs (ready_of after)) [
                  | err e ↦ some (err e)
                  | ok done ↦ plan_loop fuel (record_all done after)
                ]
              ]
        ]

unfoldable pub range_from : ℕ → ℕ → List ℕ
range_from i zero = []
range_from i (suc n) = i ∷ range_from (suc i) n

module _ {F : Type 0} (run : AgentJob F → AgentResult F) (health : HealthProbe)
    (tasks : JoinSet (ℕ × AgentResult F)) where
  -- Every job is remaining and no slot is filled.
  unfoldable pub initial : List (AgentJob F) → State F
  initial jobs = record {
    results = replicate (length jobs) none;
    remaining = range_from 0 (length jobs);
  }

  unfoldable pub run_dependency_plan :
      List (AgentJob F)
      → DependencyPlan
      → Option (Result SchedulerError (List (Option (AgentResult F))))
  unfolding plan_loop initial
  run_dependency_plan jobs plan =
      plan_loop run health tasks jobs plan (suc (length jobs)) (initial jobs)
