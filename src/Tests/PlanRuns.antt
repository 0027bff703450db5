-- ===== src/Tests/PlanRuns.antt =====
-- src/scheduler.rs: runs of batches with dependencies.
use long_task_orchestration.Prelude.{
  ℕ, ◌≡◌, ◌≢◌, ◌⊎◌, refl, Bool, true, false, List, [], ◌∷◌, map, Option, none, some, length,
  replicate,
}
use long_task_orchestration.Prelude.Eq.{contains, nat_eq}
use long_task_orchestration.Prelude.Result.{Result, ok, err}
use long_task_orchestration.Prelude.Text.{Text, str, text_eq}
use long_task_orchestration.AgentJob.{AgentJob, AgentResult, JobStatus, failed}
use long_task_orchestration.Scheduler.{SchedulerError, dependency_cycle}
use long_task_orchestration.Scheduler.Health.{HealthProbe, is_healthy}
use long_task_orchestration.Scheduler.Batch.{AllFresh}
use long_task_orchestration.Scheduler.Plan.{
  DependencyPlan, parents_at, plan_of, slot, dependencies_satisfied,
}
use long_task_orchestration.Scheduler.Plan.Run.{run_dependency_plan}
use long_task_orchestration.Scheduler.Plan.Filled.{run_dependency_plan_total}
use long_task_orchestration.Scheduler.Plan.Order.{Explained, run_dependency_plan-Explained}
use long_task_orchestration.Scheduler.Plan.Parents.{plan_of-parents}
use long_task_orchestration.Scheduler.Plan.Chain.{run_dependency_plan-chain}
use long_task_orchestration.Scheduler.Submit.{submit}
use long_task_orchestration.Scheduler.Submit.Laws.{submit-in_order}
use long_task_orchestration.Tests.Data.{config, healthy, in_order, job, job_a, job_b, result}

abbrev two_jobs : List (AgentJob ℕ)
two_jobs = job_a ∷ job_b ∷ []

abbrev two_plan : DependencyPlan
two_plan = [] ∷ (0 ∷ []) ∷ []

abbrev succeeds : AgentJob ℕ → AgentResult ℕ
succeeds = result JobStatus.ok

abbrev fails : AgentJob ℕ → AgentResult ℕ
fails = result failed

abbrev both_done : List (Option (AgentResult ℕ))
both_done = some (succeeds job_a) ∷ some (succeeds job_b) ∷ []

two_jobs-run : run_dependency_plan succeeds healthy in_order two_jobs two_plan ≡ some (ok both_done)
unfolding run_dependency_plan long_task_orchestration.Scheduler.Plan.Run.plan_loop
    long_task_orchestration.Scheduler.Plan.Run.initial
    long_task_orchestration.Scheduler.Plan.Run.range_from
    long_task_orchestration.Scheduler.Plan.Run.ready_of
    long_task_orchestration.Scheduler.Plan.Run.ready_jobs
    long_task_orchestration.Scheduler.Plan.Run.skip_blocked
    long_task_orchestration.Scheduler.Plan.Run.record_all
    long_task_orchestration.Scheduler.Plan.Run.record_result
    long_task_orchestration.Scheduler.Plan.Run.skipped_results
    long_task_orchestration.Scheduler.Plan.Run.run_parallel_jobs
    long_task_orchestration.Scheduler.Plan.Run.skipped_unhealthy
    long_task_orchestration.Scheduler.Plan.Run.spawned
    long_task_orchestration.Scheduler.Plan.dependency_blocked_jobs
    long_task_orchestration.Scheduler.Plan.blocking_reason
    long_task_orchestration.Scheduler.Plan.parent_blocks
    long_task_orchestration.Scheduler.Plan.opens parents_at slot dependencies_satisfied is_healthy
    long_task_orchestration.Prelude.all long_task_orchestration.Prelude.filter
    long_task_orchestration.Prelude.BTreeMap.get long_task_orchestration.Prelude.Text.text_beq
two_jobs-run = refl

two_jobs-plan_of : plan_of two_jobs ≡ two_plan
unfolding plan_of long_task_orchestration.Prelude.BTreeMap.get
    long_task_orchestration.Prelude.BTreeMap.insert long_task_orchestration.Prelude.Text.text_beq
    long_task_orchestration.Prelude.Text.text_ltb long_task_orchestration.Scheduler.Plan.set_insert
    parents_at
two_jobs-plan_of = refl

run_dependency_plan_total_example :
    (outcome : Result SchedulerError (List (Option (AgentResult ℕ)))) × (run_dependency_plan fails
        healthy in_order two_jobs two_plan
      ≡ some outcome)
run_dependency_plan_total_example =
    run_dependency_plan_total fails healthy in_order two_jobs two_plan

second_done : slot both_done 1 ≡ some (succeeds job_b)
unfolding slot
second_done = refl

run_dependency_plan-Explained_example :
    Explained succeeds healthy in_order two_jobs two_plan both_done 1 (succeeds job_b)
run_dependency_plan-Explained_example =
    run_dependency_plan-Explained succeeds healthy in_order two_jobs two_plan both_done 1
      (succeeds job_b) two_jobs-run second_done

second_satisfied : dependencies_satisfied (0 ∷ []) both_done ≡ true
unfolding dependencies_satisfied long_task_orchestration.Prelude.all slot
    long_task_orchestration.Scheduler.Plan.opens
second_satisfied = refl

first_listed : contains {A = ℕ} (0 ∷ []) 0 ≡ true
unfolding contains
first_listed = refl

two_jobs-AllFresh : AllFresh [] two_jobs
unfolding contains long_task_orchestration.Prelude.Text.text_beq
two_jobs-AllFresh = (refl, (refl, tt))

plan_of-parents_example :
    contains (parents_at (plan_of two_jobs) 1) 0 ≡ contains job_a.children job_b.job_id
plan_of-parents_example = plan_of-parents two_jobs 0 1 job_a job_b two_jobs-AllFresh refl refl

claude-healthy : is_healthy healthy (str "claude") ≡ true
unfolding is_healthy long_task_orchestration.Prelude.BTreeMap.get
    long_task_orchestration.Prelude.Text.text_beq
claude-healthy = refl

failed-not_ok : failed ≢ JobStatus.ok
failed-not_ok h = cc

run_dependency_plan-chain_example :
    run_dependency_plan fails healthy in_order
      (job_a ∷ job (str "b") (str "c" ∷ []) ∷ job (str "c") [] ∷ [])
      ([] ∷ (0 ∷ []) ∷ (1 ∷ []) ∷ [])
    ≡ some (err dependency_cycle)
run_dependency_plan-chain_example =
    run_dependency_plan-chain fails healthy in_order job_a (job (str "b") (str "c" ∷ []))
      (job (str "c") []) claude-healthy refl failed-not_ok

abbrev probes : ℕ → List Text → Result Text HealthProbe
probes call runners = ok healthy

submit-in_order_example :
    ((e : SchedulerError) × (submit config succeeds probes in_order two_jobs ≡ some (err e)))
    ⊎ ((results : List (AgentResult ℕ)) × (submit config succeeds probes in_order two_jobs
          ≡ some (ok results))
        × (map (λ r. r.job_id) results ≡ map (λ j. j.job_id) two_jobs))
submit-in_order_example = submit-in_order config succeeds probes in_order (λ j. refl) two_jobs
