-- ===== src/Scheduler/Submit/Laws.antt =====
-- src/scheduler.rs: what `submit` returns.
use long_task_orchestration.Prelude.{
  ℕ, suc, ◌+◌, ◌≤◌, ◌<◌, ◌≡◌, refl, ap, ◌∙◌, ◌⊎◌, inl, inr, true, List, [], ◌∷◌, map, Option, none,
  some, length, replicate, arith, get_elem?, All, All-Memᴰ, Bool-cases, length-replicate,
}
use long_task_orchestration.Prelude.Eq.{contains, nat_eq}
use long_task_orchestration.Prelude.Result.{Result, ok, err, Result-cases}
use long_task_orchestration.Prelude.Text.{Text}
use long_task_orchestration.AgentJob.{AgentJob, AgentResult}
use long_task_orchestration.Scheduler.{SchedulerConfig, SchedulerError}
use long_task_orchestration.Scheduler.Batch.{validate_batch}
use long_task_orchestration.Scheduler.Exit.{skipped_for_unhealthy, skipped_for_dependency}
use long_task_orchestration.Scheduler.Health.{HealthProbe, healthcheck}
use long_task_orchestration.Scheduler.Plan.{DependencyPlan, plan_of, has_edges, slot}
use long_task_orchestration.Scheduler.Plan.Run.{
  JoinSet, State, record_all, record_result, run_parallel_jobs, run_dependency_plan,
}
use long_task_orchestration.Scheduler.Plan.Record.{
  is_some, length-record_all, slot-record_all_filled, slot-record_all_cases,
}
use long_task_orchestration.Scheduler.Plan.Wave.{keys, wave_keys, wave-Comes, Comes}
use long_task_orchestration.Scheduler.Plan.Filled.{
  run_dependency_plan_total, run_dependency_plan-AllFilled,
}
use long_task_orchestration.Scheduler.Plan.Order.{run_dependency_plan-Explained, slot-replicate}
use long_task_orchestration.Scheduler.Submit.{
  enumerate_from, fill, expect_all, expect_ok, run_jobs, submit, unique_runners,
}

module _ {F : Type 0} where
  -- The result is of the job with its index.
  abbrev Owned : List (AgentJob F) → ℕ → AgentResult F → Type 0
  Owned jobs i r = (job : AgentJob F) × (get_elem? jobs i ≡ some job) × (r.job_id ≡ job.job_id)

  -- Every job has a slot with a result of its own.
  record IsComplete (jobs : List (AgentJob F)) (results : List (Option (AgentResult F)))
      : Type 0 where
    sized : length results ≡ length jobs
    filled : (i : ℕ) → i < length jobs → is_some (slot results i) ≡ true
    owned : (i : ℕ) (r : AgentResult F) → slot results i ≡ some r → Owned jobs i r

  expect_all-IsComplete :
      (jobs : List (AgentJob F)) (results : List (Option (AgentResult F)))
      → IsComplete jobs results
      → (rs : List (AgentResult F)) × (expect_all results ≡ some rs)
        × (map (λ r. r.job_id) rs ≡ map (λ job. job.job_id) jobs)
  unfolding expect_all slot
  expect_all-IsComplete [] [] c = ([], refl, refl)
  expect_all-IsComplete [] (r ∷ results) c = absurd (omega (arith, c.sized))
  expect_all-IsComplete (job ∷ jobs) [] c = absurd (omega (arith, c.sized))
  expect_all-IsComplete (job ∷ jobs) (none ∷ results) c =
      absurd (ground (arith, c.filled 0 (omega arith)))
  expect_all-IsComplete (job ∷ jobs) (some r ∷ results) c =
      let (rs, e, ids) = expect_all-IsComplete jobs results rest in
      let (own, here, id) = c.owned 0 r refl in
      (r ∷ rs, rw (e, expect_all) refl, ground (arith, here, id, ids))
    where
      rest : IsComplete jobs results
      rest = record {
        sized = omega (arith, c.sized);
        filled = λ i h. c.filled (suc i) (omega (arith, h));
        owned = λ i q h. c.owned (suc i) q h;
      }

  fill-record_all :
      (done : List (ℕ × AgentResult F)) (state : State F)
      → fill done state.results ≡ (record_all done state).results
  unfolding fill record_all record_result
  fill-record_all [] state = refl
  fill-record_all ((i, r) ∷ done) state = fill-record_all done (record_result i r state)

  enumerate-keys :
      (i j : ℕ) (jobs : List (AgentJob F))
      → i ≤ j
      → j < i + length jobs
      → contains (keys (enumerate_from i jobs)) j ≡ true
  unfolding contains
  enumerate-keys i j [] h k = absurd (omega arith)
  enumerate-keys i j (job ∷ jobs) h k = ground (arith, enumerate-keys (suc i) j jobs)

  enumerate-indexed :
      (i : ℕ) (all before : List (AgentJob F)) (jobs : List (AgentJob F))
      → ((j : ℕ) → get_elem? all (i + j) ≡ get_elem? jobs j)
      → All (λ p. get_elem? all p.0 ≡ some p.1) (enumerate_from i jobs)
  enumerate-indexed i all before [] same = tt
  enumerate-indexed i all before (job ∷ jobs) same = (
    ground (arith, same 0),
    enumerate-indexed (suc i) all before jobs (λ j. ground (arith, same (suc j))),
  )

  -- A wave of all jobs, run at once.
  module _ (run : AgentJob F → AgentResult F) (health : HealthProbe)
      (tasks : JoinSet (ℕ × AgentResult F))
      (keeps_id : (job : AgentJob F) → (run job).job_id ≡ job.job_id) where
    Comes-Owned :
        (jobs : List (AgentJob F)) (i : ℕ) (r : AgentResult F)
        → Comes run health tasks jobs (i, r)
        → Owned jobs i r
    unfolding skipped_for_unhealthy
    Comes-Owned jobs i r (job, here, e) = (job, here, ground (arith, keeps_id job, e))

    one_wave-IsComplete :
        (jobs : List (AgentJob F)) (done : List (ℕ × AgentResult F))
        → run_parallel_jobs run health tasks (enumerate_from 0 jobs) ≡ ok done
        → IsComplete jobs (fill done (replicate (length jobs) none))
    one_wave-IsComplete jobs done e = rw (fill-record_all done empty) (record {
      sized = length-record_all done empty ∙ length-replicate (length jobs) none;
      filled = λ i h.
          slot-record_all_filled done empty i
            (omega (arith, length-replicate {A = Option (AgentResult F)} (length jobs) none))
            (wave_keys run health tasks (enumerate_from 0 jobs) done i e
              ∙ enumerate-keys 0 i jobs (omega arith) (omega arith));
      owned = λ i r h. elim (slot-record_all_cases done empty i r h) [
        | inl m ↦ Comes-Owned jobs i r (
            All-Memᴰ (Comes run health tasks jobs) done
              (wave-Comes run health tasks jobs (enumerate_from 0 jobs) done
                (enumerate-indexed 0 jobs [] jobs (λ j. ground arith)) e)
              m)
        | inr old ↦ absurd (cc (slot-replicate run health tasks jobs [] (length jobs) i))
      ];
    })
      where
        empty : State F
        empty = record { results = replicate (length jobs) none; remaining = [] }

    plan-IsComplete :
        (jobs : List (AgentJob F)) (plan : DependencyPlan) (results : List (Option (AgentResult F)))
        → run_dependency_plan run health tasks jobs plan ≡ some (ok results)
        → IsComplete jobs results
    unfolding skipped_for_dependency skipped_for_unhealthy
    plan-IsComplete jobs plan results e =
        let (sized, filled) = run_dependency_plan-AllFilled run health tasks jobs plan results e in
        record {
          sized = sized;
          filled = filled;
          owned = λ i r h.
              let (job, here, why) =
                run_dependency_plan-Explained run health tasks jobs plan results i r e h in
              (
                job,
                here,
                elim why [
                  | inl (sat, made) ↦ ground (arith, keeps_id job, made)
                  | inr (reason, made, _) ↦ ground (arith, made)
                ],
              );
        }

module _ {F E : Type 0} (config : SchedulerConfig F) (run : AgentJob F → AgentResult F)
    (probe : ℕ → List Text → Result E HealthProbe) (tasks : JoinSet (ℕ × AgentResult F))
    (keeps_id : (job : AgentJob F) → (run job).job_id ≡ job.job_id) where
  -- The jobs run to an error, or to a result in every slot.
  run_jobs-cases :
      (health : HealthProbe) (jobs : List (AgentJob F))
      → ((e : SchedulerError) × (run_jobs config run probe tasks health jobs ≡ some (err e)))
        ⊎ ((results : List (Option (AgentResult F))) × (run_jobs config run probe tasks health jobs
              ≡ some (ok results))
            × IsComplete jobs results)
  unfolding run_jobs
  run_jobs-cases health jobs = elim (Bool-cases (has_edges (plan_of jobs))) [
    | inl edges ↦
        let (outcome, e) = run_dependency_plan_total run health tasks jobs (plan_of jobs) in
        elim (Result-cases outcome) [
          | inl (results, o) ↦ inr (
            results,
            rw (edges, run_jobs) (e ∙ ap some o),
            plan-IsComplete run health tasks keeps_id jobs (plan_of jobs) results (e ∙ ap some o),
          )
          | inr (x, o) ↦ inl (x, rw (edges, run_jobs) (e ∙ ap some o))
        ]
    | inr flat ↦ elim (Result-cases (run_parallel_jobs run health tasks (enumerate_from 0 jobs))) [
      | inl (done, e) ↦
          inr (
            _,
            rw (flat, run_jobs) (rw e),
            one_wave-IsComplete run health tasks keeps_id jobs done e,
          )
      | inr (x, e) ↦ inl (x, rw (flat, run_jobs) (rw e))
    ]
  ]

  -- If the loop of attempts keeps the id of its job, then `submit` neither panics on an empty slot nor
  -- runs forever: it returns an error, or one result for each job, in the order of the jobs.
  pub submit-in_order :
      (jobs : List (AgentJob F))
      → ((e : SchedulerError) × (submit config run probe tasks jobs ≡ some (err e)))
        ⊎ ((results : List (AgentResult F)) × (submit config run probe tasks jobs
              ≡ some (ok results))
            × (map (λ r. r.job_id) results ≡ map (λ job. job.job_id) jobs))
  unfolding submit
  submit-in_order jobs = elim (Result-cases (validate_batch jobs config)) [
    | inr (x, bad) ↦ inl (x, rw (bad, submit) refl)
    | inl (_, good) ↦
        let health = healthcheck probe (unique_runners jobs) config.healthcheck_retries in
        elim (run_jobs-cases health jobs) [
          | inl (x, e) ↦ inl (x, rw (good, submit) (rw e))
          | inr (results, e, complete) ↦
              let (rs, all_there, ids) = expect_all-IsComplete jobs results complete in
              inr (rs, rw (good, submit) (rw (e, submit) (rw (all_there, expect_ok))), ids)
        ]
  ]
