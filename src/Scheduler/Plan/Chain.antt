-- ===== src/Scheduler/Plan/Chain.antt =====
-- src/scheduler.rs: a chain of three jobs whose first one does not succeed.
use long_task_orchestration.Prelude.{
  ℕ, ◌≡◌, ◌≢◌, refl, suc, inl, inr, Option-cases, ap, true, false, List, [], ◌∷◌, none, some, arith,
  filter, all, ◌∙◌,
}
use long_task_orchestration.Prelude.Result.{ok, err}
use long_task_orchestration.Prelude.Text.{Text}
use long_task_orchestration.AgentJob.{AgentJob, AgentResult, JobStatus, status_beq_iff}
use long_task_orchestration.Scheduler.{dependency_cycle}
use long_task_orchestration.Scheduler.Exit.{skipped_for_dependency}
use long_task_orchestration.Scheduler.Health.{HealthProbe, is_healthy}
use long_task_orchestration.Scheduler.Plan.{
  DependencyPlan, is_nil, opens, parent_blocks, dependency_blocked_jobs, blocking_reason,
  dependencies_satisfied, slot, parents_at,
}
use long_task_orchestration.Scheduler.Plan.Run.{
  JoinSet, State, plan_loop, run_dependency_plan, initial, run_parallel_jobs, skipped_unhealthy,
  spawned, range_from, skip_blocked, ready_of, ready_jobs, skipped_results, record_all,
  record_result,
}

module _ {F : Type 0} (run : AgentJob F → AgentResult F) (health : HealthProbe)
    (tasks : JoinSet (ℕ × AgentResult F)) (jobs : List (AgentJob F)) (plan : DependencyPlan) where
  loop_wave :
      (fuel : ℕ) (state after : State F) (wave : List (ℕ × AgentJob F))
      (done : List (ℕ × AgentResult F))
      → is_nil state.remaining ≡ false
      → skip_blocked run health tasks jobs plan state ≡ after
      → ready_of run health tasks jobs plan after ≡ wave
      → is_nil wave ≡ false
      → run_parallel_jobs run health tasks wave ≡ ok done
      → plan_loop run health tasks jobs plan (suc fuel) state
        ≡ plan_loop run health tasks jobs plan fuel (record_all done after)
  unfolding plan_loop
  loop_wave fuel state after wave done left skips here busy e =
      let next = skip_blocked run health tasks jobs plan state in
      let spawns : ready_of run health tasks jobs plan next ≡ wave =
        ap (ready_of run health tasks jobs plan) skips ∙ here in
      let some_ready : is_nil (ready_of run health tasks jobs plan next) ≡ false =
        ap is_nil spawns ∙ busy in
      let ran : run_parallel_jobs run health tasks (ready_of run health tasks jobs plan next)
          ≡ ok done =
        ap (run_parallel_jobs run health tasks) spawns ∙ e in
      rw (left, plan_loop)
        (rw (some_ready, plan_loop)
          (rw (ran, plan_loop)
            (ap (λ s. plan_loop run health tasks jobs plan fuel (record_all done s)) skips)))

  loop_stuck :
      (fuel : ℕ) (state after : State F)
      → is_nil state.remaining ≡ false
      → skip_blocked run health tasks jobs plan state ≡ after
      → ready_of run health tasks jobs plan after ≡ []
      → is_nil after.remaining ≡ false
      → plan_loop run health tasks jobs plan (suc fuel) state ≡ some (err dependency_cycle)
  unfolding plan_loop
  loop_stuck fuel state after left skips idle more =
      let next = skip_blocked run health tasks jobs plan state in
      let none_ready : is_nil (ready_of run health tasks jobs plan next) ≡ true =
        ap (λ s. is_nil (ready_of run health tasks jobs plan s)) skips ∙ ap is_nil idle in
      let some_left : is_nil next.remaining ≡ false = ap (λ s. is_nil s.remaining) skips ∙ more in
      rw (left, plan_loop) (rw (none_ready, plan_loop) (rw some_left))

module _ {F : Type 0} (run : AgentJob F → AgentResult F) (health : HealthProbe)
    (tasks : JoinSet (ℕ × AgentResult F)) where
  abbrev chain : DependencyPlan
  chain = [] ∷ (0 ∷ []) ∷ (1 ∷ []) ∷ []

  abbrev first_done : AgentJob F → State F
  first_done a = record { results = some (run a) ∷ none ∷ none ∷ []; remaining = 1 ∷ 2 ∷ [] }

  first_wave :
      (a : AgentJob F)
      → is_healthy health a.runner ≡ true
      → tasks.join ((0, run a) ∷ []) ≡ ok ((0, run a) ∷ [])
      → run_parallel_jobs run health tasks ((0, a) ∷ []) ≡ ok ((0, run a) ∷ [])
  unfolding run_parallel_jobs skipped_unhealthy spawned
  first_wave a healthy joined = rw (healthy, joined)

  first_skips :
      (a b c : AgentJob F)
      → skip_blocked run health tasks
          (a ∷ b ∷ c ∷ [])
          chain
          (initial run health tasks (a ∷ b ∷ c ∷ []))
        ≡ initial run health tasks (a ∷ b ∷ c ∷ [])
  unfolding skip_blocked initial range_from skipped_results record_all dependency_blocked_jobs
      blocking_reason slot parents_at
  first_skips a b c = refl

  first_ready :
      (a b c : AgentJob F)
      → ready_of run health tasks (a ∷ b ∷ c ∷ []) chain (initial run health tasks (a ∷ b ∷ c ∷ []))
        ≡ (0, a) ∷ []
  unfolding ready_of ready_jobs initial range_from dependencies_satisfied slot parents_at all
  first_ready a b c = refl

  first_record :
      (a b c : AgentJob F)
      → record_all ((0, run a) ∷ []) (initial run health tasks (a ∷ b ∷ c ∷ [])) ≡ first_done a
  unfolding record_all record_result initial range_from filter
  first_record a b c = refl

  abbrev second_done : AgentJob F → AgentJob F → Text → State F
  second_done a b reason = record {
    results = some (run a) ∷ some (skipped_for_dependency b reason) ∷ none ∷ [];
    remaining = 2 ∷ [];
  }

  second_skips :
      (a b c : AgentJob F) (reason : Text)
      → parent_blocks (run a) ≡ some reason
      → skip_blocked run health tasks (a ∷ b ∷ c ∷ []) chain (first_done a) ≡ second_done a b reason
  unfolding skip_blocked skipped_results record_all record_result dependency_blocked_jobs
      blocking_reason slot parents_at filter
  second_skips a b c reason blocked = ground (arith, blocked)

  second_ready :
      (a b c : AgentJob F) (reason : Text)
      → ready_of run health tasks (a ∷ b ∷ c ∷ []) chain (second_done a b reason) ≡ []
  unfolding ready_of ready_jobs dependencies_satisfied slot parents_at all opens
      skipped_for_dependency
  second_ready a b c reason = refl

  no_success-blocks :
      (r : AgentResult F)
      → r.status ≢ JobStatus.ok
      → (reason : Text) × (parent_blocks r ≡ some reason)
  unfolding parent_blocks
  no_success-blocks r fails = elim (Option-cases (parent_blocks r)) [
    | inl free ↦ absurd (fails ((status_beq_iff r.status JobStatus.ok).0 (ground (arith, free))))
    | inr found ↦ found
  ]

  -- A chain of three jobs, each behind the one before it: if the runner of the first is healthy, its
  -- task is joined, and its result is no success, then the run ends in the error of a dependency
  -- cycle, though the plan has none. The third job is neither ready, nor blocked by the skip of the
  -- second, which its round records after it has looked for blocked jobs.
  pub run_dependency_plan-chain :
      (a b c : AgentJob F)
      → is_healthy health a.runner ≡ true
      → tasks.join ((0, run a) ∷ []) ≡ ok ((0, run a) ∷ [])
      → (run a).status ≢ JobStatus.ok
      → run_dependency_plan run health tasks (a ∷ b ∷ c ∷ []) ([] ∷ (0 ∷ []) ∷ (1 ∷ []) ∷ [])
        ≡ some (err dependency_cycle)
  unfolding run_dependency_plan initial range_from
  run_dependency_plan-chain a b c healthy joined fails =
      let jobs = a ∷ b ∷ c ∷ [] in
      let (reason, blocked) = no_success-blocks (run a) fails in
      loop_wave run health tasks jobs chain 3 _ _ _ ((0, run a) ∷ []) refl (first_skips a b c)
        (first_ready a b c) refl (first_wave a healthy joined)
      ∙ ap (plan_loop run health tasks jobs chain 3) (first_record a b c)
      ∙ loop_stuck run health tasks jobs chain 2 (first_done a) _ refl
          (second_skips a b c reason blocked) (second_ready a b c reason) refl
