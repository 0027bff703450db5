-- ===== src/Scheduler/Plan/Filled.antt =====
-- src/scheduler.rs: the loop ends within its fuel, and a run that succeeds has filled every slot.
use long_task_orchestration.Prelude.{
  ℕ, zero, suc, ◌+◌, ◌≤◌, ◌<◌, ◌≡◌, ◌⊎◌, inl, inr, refl, true, List, [], ◌∷◌, Option, none, some,
  arith, length, Bool-cases, subst, sym, ap, ◌∙◌, length-replicate,
}
use long_task_orchestration.Prelude.Eq.{nat_eq, contains}
use long_task_orchestration.Prelude.Result.{Result, ok}
use long_task_orchestration.AgentJob.{AgentJob, AgentResult}
use long_task_orchestration.Scheduler.{SchedulerError}
use long_task_orchestration.Scheduler.Health.{HealthProbe}
use long_task_orchestration.Scheduler.Plan.{DependencyPlan, is_nil, slot}
use long_task_orchestration.Scheduler.Plan.Run.{
  JoinSet, State, record_all, skip_blocked, plan_loop, run_dependency_plan, initial, range_from,
}
use long_task_orchestration.Scheduler.Plan.Record.{
  indices, is_some, length-record_all, contains-record_all, slot-record_all-other,
  slot-record_all_filled,
}
use long_task_orchestration.Scheduler.Plan.Round.{
  finished, all_skipped, stuck, broken, wave, rounds, after_skips, Slots, wave_shrinks,
  skips_shrink,
}

module _ {F : Type 0} (run : AgentJob F → AgentResult F) (health : HealthProbe)
    (tasks : JoinSet (ℕ × AgentResult F)) (jobs : List (AgentJob F)) (plan : DependencyPlan) where
  plan_loop_total :
      (fuel : ℕ) (state : State F)
      → length state.remaining < fuel
      → (outcome : Result SchedulerError (Slots run health tasks jobs plan)) × (plan_loop run health
            tasks jobs plan fuel state
          ≡ some outcome)
  plan_loop_total zero state h = absurd (omega arith)
  plan_loop_total (suc fuel) state h = elim (rounds run health tasks jobs plan fuel state) [
    | finished _ e ↦ (_, e)
    | all_skipped _ e ↦ (_, e)
    | stuck _ _ e ↦ (_, e)
    | broken x e ↦ (_, e)
    | wave done busy e next ↦
        let after = after_skips run health tasks jobs plan state in
        let (outcome, r) = plan_loop_total fuel (record_all done after) (
          omega (
            arith,
            wave_shrinks run health tasks jobs plan after done busy e,
            skips_shrink run health tasks jobs plan state,
          )) in
        (outcome, next ∙ r)
  ]

  -- Every index below `n` is still remaining or has its slot filled.
  record Covers (n : ℕ) (state : State F) : Type 0 where
    sized : length state.results ≡ n
    covered :
        (i : ℕ)
        → i < n
        → (contains state.remaining i ≡ true) ⊎ (is_some (slot state.results i) ≡ true)

  record_all-Covers :
      (n : ℕ) (done : List (ℕ × AgentResult F)) (state : State F)
      → Covers n state
      → Covers n (record_all done state)
  record_all-Covers n done state c = record {
    sized = length-record_all done state ∙ c.sized;
    covered = λ i h. elim (Bool-cases (contains (indices done) i)) [
      | inl now ↦ inr (slot-record_all_filled done state i (rw c.sized h) now)
      | inr other ↦ ground (
        arith,
        c.covered i h,
        contains-record_all done state i,
        slot-record_all-other done state i other,
      )
    ];
  }

  abbrev pub AllFilled : ℕ → List (Option (AgentResult F)) → Type 0
  AllFilled n results = (length results ≡ n) × ((i : ℕ) → i < n → is_some (slot results i) ≡ true)

  -- With no job remaining every slot is filled.
  Covers-AllFilled :
      (n : ℕ) (state : State F)
      → Covers n state
      → is_nil state.remaining ≡ true
      → AllFilled n state.results
  unfolding contains
  Covers-AllFilled n state c none_left =
      (c.sized, λ i h. ground (arith, c.covered i h, nil_of state.remaining none_left))
    where
      nil_of : (xs : List ℕ) → is_nil xs ≡ true → xs ≡ []
      nil_of [] h = refl
      nil_of (x ∷ xs) h = absurd (cc)

  skips-Covers :
      (n : ℕ) (state : State F)
      → Covers n state
      → Covers n (after_skips run health tasks jobs plan state)
  unfolding skip_blocked
  skips-Covers n state c = record_all-Covers n _ state c

  plan_loop-AllFilled :
      (n fuel : ℕ) (state : State F) (results : List (Option (AgentResult F)))
      → Covers n state
      → plan_loop run health tasks jobs plan fuel state ≡ some (ok results)
      → AllFilled n results
  unfolding plan_loop
  plan_loop-AllFilled n zero state results c h = absurd (cc)
  plan_loop-AllFilled n (suc fuel) state results c h =
      elim (rounds run health tasks jobs plan fuel state) [
        | finished none_left e ↦
            subst (AllFilled n) (same (sym e ∙ h)) (Covers-AllFilled n state c none_left)
        | all_skipped none_left e ↦
            subst (AllFilled n) (same (sym e ∙ h))
              (Covers-AllFilled n _ (skips-Covers n state c) none_left)
        | stuck _ _ e ↦ absurd (cc)
        | broken x e ↦ absurd (cc)
        | wave done busy e next ↦
            plan_loop-AllFilled n fuel _ results
              (record_all-Covers n done _ (skips-Covers n state c)) (sym next ∙ h)
      ]
    where
      same :
          {xs ys : List (Option (AgentResult F))}
          → ◌≡◌ {A = Option (Result SchedulerError (List (Option (AgentResult F))))}
              (some (ok xs))
              (some (ok ys))
          → xs ≡ ys
      same e = cc

contains-range_from : (i n j : ℕ) → i ≤ j → j < i + n → contains (range_from i n) j ≡ true
unfolding range_from contains
contains-range_from i zero j h k = absurd (omega arith)
contains-range_from i (suc n) j h k = ground (arith, contains-range_from (suc i) n j)

length-range_from : (i n : ℕ) → length (range_from i n) ≡ n
unfolding range_from
length-range_from i zero = refl
length-range_from i (suc n) = ap suc (length-range_from (suc i) n)

module _ {F : Type 0} (run : AgentJob F → AgentResult F) (health : HealthProbe)
    (tasks : JoinSet (ℕ × AgentResult F)) (jobs : List (AgentJob F)) (plan : DependencyPlan) where
  -- The loop over the waves always ends: with one round for each job and one more it has an outcome.
  pub run_dependency_plan_total :
      (outcome : Result SchedulerError (List (Option (AgentResult F)))) × (run_dependency_plan run
          health tasks jobs plan
        ≡ some outcome)
  unfolding run_dependency_plan
  run_dependency_plan_total =
      plan_loop_total run health tasks jobs plan (suc (length jobs)) (initial run health tasks jobs)
        (omega (arith, length-range_from 0 (length jobs)))

  -- If it succeeds, it has a result for each job and no other slot: the caller's `expect` of a result
  -- in every slot cannot fail.
  pub run_dependency_plan-AllFilled :
      (results : List (Option (AgentResult F)))
      → run_dependency_plan run health tasks jobs plan ≡ some (ok results)
      → AllFilled run health tasks jobs plan (length jobs) results
  unfolding run_dependency_plan
  run_dependency_plan-AllFilled results h =
      plan_loop-AllFilled run health tasks jobs plan (length jobs) (suc (length jobs))
        (initial run health tasks jobs) results
        (record {
          sized = length-replicate (length jobs) none;
          covered = λ i k. inl (contains-range_from 0 (length jobs) i (omega arith) (omega arith));
        })
        h
