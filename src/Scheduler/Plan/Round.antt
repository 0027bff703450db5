-- ===== src/Scheduler/Plan/Round.antt =====
-- src/scheduler.rs: the five ways in which a round of the loop goes on.
use long_task_orchestration.Prelude.{
  ℕ, suc, ◌≤◌, ◌<◌, ◌≡◌, inl, inr, true, false, List, [], ◌∷◌, Option, some, arith, length,
  Bool-cases, sym, ◌∙◌,
}
use long_task_orchestration.Prelude.Eq.{nat_eq, contains}
use long_task_orchestration.Prelude.Result.{Result, Result-cases, ok, err}
use long_task_orchestration.AgentJob.{AgentJob, AgentResult}
use long_task_orchestration.Scheduler.{SchedulerError, dependency_cycle}
use long_task_orchestration.Scheduler.Health.{HealthProbe}
use long_task_orchestration.Scheduler.Plan.{
  DependencyPlan, is_nil, parents_at, dependencies_satisfied,
}
use long_task_orchestration.Scheduler.Plan.Run.{
  JoinSet, State, record_all, ready_of, run_parallel_jobs, skip_blocked, plan_loop,
}
use long_task_orchestration.Scheduler.Plan.Record.{length-remaining-le, length-remaining-lt}
use long_task_orchestration.Scheduler.Plan.Wave.{keys, ready_jobs_sound, wave_keys}

module _ {F : Type 0} (run : AgentJob F → AgentResult F) (health : HealthProbe)
    (tasks : JoinSet (ℕ × AgentResult F)) (jobs : List (AgentJob F)) (plan : DependencyPlan) where
  abbrev pub Slots : Type 0
  Slots = List (Option (AgentResult F))

  abbrev pub loop : ℕ → State F → Option (Result SchedulerError Slots)
  loop = plan_loop run health tasks jobs plan

  abbrev pub after_skips : State F → State F
  after_skips = skip_blocked run health tasks jobs plan

  abbrev pub ready : State F → List (ℕ × AgentJob F)
  ready = ready_of run health tasks jobs plan

  -- What the loop makes of a state with jobs left.
  pub data Round (fuel : ℕ) (state : State F) : Type 0 where
    finished :
        is_nil state.remaining ≡ true
        → loop (suc fuel) state ≡ some (ok state.results)
        → Round fuel state
    all_skipped :
        is_nil (after_skips state).remaining ≡ true
        → loop (suc fuel) state ≡ some (ok (after_skips state).results)
        → Round fuel state
    stuck :
        is_nil (ready (after_skips state)) ≡ true
        → is_nil (after_skips state).remaining ≡ false
        → loop (suc fuel) state ≡ some (err dependency_cycle)
        → Round fuel state
    broken : (e : SchedulerError) → loop (suc fuel) state ≡ some (err e) → Round fuel state
    wave :
        (done : List (ℕ × AgentResult F))
        → is_nil (ready (after_skips state)) ≡ false
        → run_parallel_jobs run health tasks (ready (after_skips state)) ≡ ok done
        → loop (suc fuel) state ≡ loop fuel (record_all done (after_skips state))
        → Round fuel state

  pub rounds : (fuel : ℕ) (state : State F) → Round fuel state
  unfolding plan_loop
  rounds fuel state = elim (Bool-cases (is_nil state.remaining)) [
    | inl none_left ↦ finished none_left (rw (none_left, plan_loop))
    | inr some_left ↦ elim (Bool-cases (is_nil (ready (after_skips state)))) [
      | inl idle ↦ elim (Bool-cases (is_nil (after_skips state).remaining)) [
        | inl empty ↦
            all_skipped empty (rw (some_left, plan_loop) (rw (idle, plan_loop) (rw empty)))
        | inr left ↦ stuck idle left (rw (some_left, plan_loop) (rw (idle, plan_loop) (rw left)))
      ]
      | inr busy ↦
          elim (Result-cases (run_parallel_jobs run health tasks (ready (after_skips state)))) [
            | inl (done, e) ↦
                wave done busy e
                  (rw (some_left, plan_loop) (rw (busy, plan_loop) (rw (e, plan_loop))))
            | inr (x, e) ↦
                broken x (rw (some_left, plan_loop) (rw (busy, plan_loop) (rw (e, plan_loop))))
          ]
    ]
  ]

  first_key :
      (pairs : List (ℕ × AgentJob F))
      → is_nil pairs ≡ false
      → (i : ℕ) × (contains (keys pairs) i ≡ true)
  unfolding contains
  first_key [] h = absurd (cc)
  first_key ((i, job) ∷ pairs) h = (i, ground arith)

  -- The jobs of a wave were remaining with their dependencies satisfied.
  pub wave_ready :
      (state : State F) (done : List (ℕ × AgentResult F)) (j : ℕ)
      → run_parallel_jobs run health tasks (ready state) ≡ ok done
      → contains (keys done) j ≡ true
      → (contains state.remaining j ≡ true)
        × (dependencies_satisfied (parents_at plan j) state.results ≡ true)
  unfolding ready_of
  wave_ready state done j e h =
      ready_jobs_sound jobs plan state.results state.remaining j
        (sym (wave_keys run health tasks (ready state) done j e) ∙ h)

  -- A wave leaves fewer jobs than it found.
  pub wave_shrinks :
      (state : State F) (done : List (ℕ × AgentResult F))
      → is_nil (ready state) ≡ false
      → run_parallel_jobs run health tasks (ready state) ≡ ok done
      → length (record_all done state).remaining < length state.remaining
  wave_shrinks state [] busy e =
      let (i, h) = first_key (ready state) busy in
      absurd (nothing i (wave_keys run health tasks (ready state) [] i e ∙ h))
    where
      nothing : (i : ℕ) → contains (keys {A = AgentResult F} []) i ≡ true → ⊥
      nothing i h = unfold contains in cc
  wave_shrinks state ((k, r) ∷ done) busy e =
      length-remaining-lt k r done state
        (wave_ready state ((k, r) ∷ done) k e (unfold contains in ground arith)).0

  pub skips_shrink :
      (state : State F) → length (after_skips state).remaining ≤ length state.remaining
  unfolding skip_blocked
  skips_shrink state = length-remaining-le _ state
