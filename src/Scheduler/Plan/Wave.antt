-- ===== src/Scheduler/Plan/Wave.antt =====
-- src/scheduler.rs: one wave: whom it runs, and that every one of them gets a result.
use mathlib.Core.List.{Permᴰ}
use long_task_orchestration.Prelude.{
  ℕ, ◌≡◌, inl, inr, refl, true, ◌||◌, List, [], ◌∷◌, ◌++◌, map, Option, some, arith, if◌then◌else◌,
  Bool-cases, Option-cases, All, get_elem?, ap, ◌∙◌,
}
use long_task_orchestration.Prelude.Eq.{nat_eq, contains}
use long_task_orchestration.Prelude.Result.{Result-cases, ok}
use long_task_orchestration.Prelude.Text.{Text}
use long_task_orchestration.AgentJob.{AgentJob, AgentResult}
use long_task_orchestration.Scheduler.Health.{HealthProbe, is_healthy}
use long_task_orchestration.Scheduler.Plan.{
  DependencyPlan, parents_at, dependency_blocked_jobs, dependencies_satisfied, blocking_reason,
}
use long_task_orchestration.Scheduler.Plan.Run.{
  JoinSet, skipped_results, ready_jobs, skipped_unhealthy, spawned, run_parallel_jobs,
}
use long_task_orchestration.Scheduler.Exit.{skipped_for_unhealthy, skipped_for_dependency}

contains-append :
    (xs ys : List ℕ) (j : ℕ) → contains (xs ++ ys) j ≡ (contains xs j || contains ys j)
unfolding contains
contains-append [] ys j = refl
contains-append (x ∷ xs) ys j = ground (arith, contains-append xs ys j)

module _ {A : Type 0} where
  abbrev pub keys : List (ℕ × A) → List ℕ
  keys pairs = map (λ p. p.0) pairs

  keys-append : (xs ys : List (ℕ × A)) → keys (xs ++ ys) ≡ keys xs ++ keys ys
  keys-append [] ys = refl
  keys-append (x ∷ xs) ys = ap (λ l. x.0 ∷ l) (keys-append xs ys)

  contains-keys-perm :
      {xs ys : List (ℕ × A)} (j : ℕ) → Permᴰ xs ys → contains (keys xs) j ≡ contains (keys ys) j
  unfolding contains
  contains-keys-perm j Permᴰ.nil = refl
  contains-keys-perm j (Permᴰ.cons e p) = ground (arith, e, contains-keys-perm j p)
  contains-keys-perm j (Permᴰ.swap e f) = ground (arith, e, f)
  contains-keys-perm j (Permᴰ.trans p q) = contains-keys-perm j p ∙ contains-keys-perm j q

module _ {F : Type 0} (jobs : List (AgentJob F)) where
  -- A ready job is a remaining one with its dependencies satisfied.
  pub ready_jobs_sound :
      (plan : DependencyPlan) (results : List (Option (AgentResult F))) (remaining : List ℕ) (j : ℕ)
      → contains (keys (ready_jobs jobs plan results remaining)) j ≡ true
      → (contains remaining j ≡ true) × (dependencies_satisfied (parents_at plan j) results ≡ true)
  unfolding ready_jobs contains
  ready_jobs_sound plan results [] j h = absurd (cc)
  ready_jobs_sound plan results (i ∷ remaining) j h =
      ground (arith, ready_jobs_sound plan results remaining j)

  pub blocked_remaining :
      (plan : DependencyPlan) (results : List (Option (AgentResult F))) (remaining : List ℕ) (j : ℕ)
      → contains (keys (dependency_blocked_jobs remaining results plan)) j ≡ true
      → contains remaining j ≡ true
  unfolding dependency_blocked_jobs contains
  blocked_remaining plan results [] j h = absurd (cc)
  blocked_remaining plan results (i ∷ remaining) j h =
      ground (arith, blocked_remaining plan results remaining j)

  pub skipped_blocked :
      (blocked : List (ℕ × Text)) (j : ℕ)
      → contains (keys (skipped_results jobs blocked)) j ≡ true
      → contains (keys blocked) j ≡ true
  unfolding skipped_results contains
  skipped_blocked [] j h = absurd (cc)
  skipped_blocked ((i, reason) ∷ blocked) j h = ground (arith, skipped_blocked blocked j)

  -- A result that a parent of the job made: the job is skipped for the parent's sake.
  abbrev pub SkippedFor :
      DependencyPlan → List (Option (AgentResult F)) → ℕ × AgentResult F → Type 0
  SkippedFor plan results p =
      (job : AgentJob F) × (reason : Text) × (get_elem? jobs p.0 ≡ some job)
      × (p.1 ≡ skipped_for_dependency job reason)
      × (blocking_reason results (parents_at plan p.0) ≡ some reason)

  pub skipped_results-SkippedFor :
      (plan : DependencyPlan) (results : List (Option (AgentResult F))) (blocked : List (ℕ × Text))
      → All (λ b. blocking_reason results (parents_at plan b.0) ≡ some b.1) blocked
      → All (SkippedFor plan results) (skipped_results jobs blocked)
  unfolding skipped_results
  skipped_results-SkippedFor plan results [] h = tt
  skipped_results-SkippedFor plan results ((i, reason) ∷ blocked) h =
      let rest = skipped_results-SkippedFor plan results blocked h.1 in
      elim (Option-cases (get_elem? jobs i)) [
        | inl gone ↦ rw (gone, skipped_results) rest
        | inr (job, here) ↦ rw (here, skipped_results) ((job, reason, here, refl, h.0), rest)
      ]

  pub blocked_jobs-reasons :
      (plan : DependencyPlan) (results : List (Option (AgentResult F))) (remaining : List ℕ)
      → All
          (λ b. blocking_reason results (parents_at plan b.0) ≡ some b.1)
          (dependency_blocked_jobs remaining results plan)
  unfolding dependency_blocked_jobs
  blocked_jobs-reasons plan results [] = tt
  blocked_jobs-reasons plan results (i ∷ remaining) =
      let rest = blocked_jobs-reasons plan results remaining in
      elim (Option-cases (blocking_reason results (parents_at plan i))) [
        | inl free ↦ rw (free, dependency_blocked_jobs) rest
        | inr (reason, held) ↦ rw (held, dependency_blocked_jobs) (held, rest)
      ]

  -- A ready job is the one with its index.
  pub ready_jobs-indexed :
      (plan : DependencyPlan) (results : List (Option (AgentResult F))) (remaining : List ℕ)
      → All (λ p. get_elem? jobs p.0 ≡ some p.1) (ready_jobs jobs plan results remaining)
  unfolding ready_jobs
  ready_jobs-indexed plan results [] = tt
  ready_jobs-indexed plan results (i ∷ remaining) =
      let rest = ready_jobs-indexed plan results remaining in
      elim (Option-cases (get_elem? jobs i)) [
        | inl gone ↦ rw (gone, ready_jobs) rest
        | inr (job, here) ↦ rw (here, ready_jobs) (ground (arith, here, rest))
      ]

All-append :
    {A : Type 0} (holds : A → Type 0) (first second : List A)
    → All holds first
    → All holds second
    → All holds (first ++ second)
All-append holds [] second done rest = rest
All-append holds (a ∷ first) second done rest = (done.0, All-append holds first second done.1 rest)

All-perm : {A : Type 0} (P : A → Type 0) {xs ys : List A} → Permᴰ xs ys → All P ys → All P xs
All-perm P Permᴰ.nil h = tt
All-perm P (Permᴰ.cons e p) h = (rw e h.0, All-perm P p h.1)
All-perm P (Permᴰ.swap e f) h = (rw e h.1.0, (rw f h.0, h.1.1))
All-perm P (Permᴰ.trans p q) h = All-perm P p (All-perm P q h)

module _ {F : Type 0} (run : AgentJob F → AgentResult F) (health : HealthProbe)
    (tasks : JoinSet (ℕ × AgentResult F)) where
  -- Each job of a wave is skipped or spawned.
  contains-split :
      (ready : List (ℕ × AgentJob F)) (j : ℕ)
      → (contains (keys (skipped_unhealthy run health ready)) j
          || contains (keys (spawned run health ready)) j)
        ≡ contains (keys ready) j
  unfolding skipped_unhealthy spawned contains
  contains-split [] j = refl
  contains-split ((i, job) ∷ ready) j = ground (arith, contains-split ready j)

  -- A wave that succeeds is its skipped jobs and behind them the joined ones.
  wave_parts :
      (ready : List (ℕ × AgentJob F)) (done : List (ℕ × AgentResult F))
      → run_parallel_jobs run health tasks ready ≡ ok done
      → (joined : List (ℕ × AgentResult F)) × (Permᴰ joined (spawned run health ready))
        × (done ≡ skipped_unhealthy run health ready ++ joined)
  unfolding run_parallel_jobs
  wave_parts ready done h = elim (Result-cases (tasks.join (spawned run health ready))) [
    | inl (joined, e) ↦ (joined, tasks.join-perm _ joined e, ground arith)
    | inr (x, e) ↦ absurd (ground arith)
  ]

  -- The results of a wave are those of its jobs, in some order.
  pub wave_keys :
      (ready : List (ℕ × AgentJob F)) (done : List (ℕ × AgentResult F)) (j : ℕ)
      → run_parallel_jobs run health tasks ready ≡ ok done
      → contains (keys done) j ≡ contains (keys ready) j
  wave_keys ready done j h =
      let (joined, perm, e) = wave_parts ready done h in
      let first = skipped_unhealthy run health ready in
      ap (λ l. contains (keys l) j) e
      ∙ ap (λ l. contains l j) (keys-append first joined)
      ∙ contains-append (keys first) (keys joined) j
      ∙ ap (λ b. contains (keys first) j || b) (contains-keys-perm j perm)
      ∙ contains-split ready j

  -- The result is that of the job with its index: of its attempts if its runner is healthy, and
  -- otherwise of a skip.
  abbrev pub Comes : List (AgentJob F) → ℕ × AgentResult F → Type 0
  Comes jobs p =
      (job : AgentJob F) × (get_elem? jobs p.0 ≡ some job)
      × (p.1 ≡ (if is_healthy health job.runner then run job else skipped_for_unhealthy job))

  skipped_unhealthy-Comes :
      (jobs : List (AgentJob F)) (ready : List (ℕ × AgentJob F))
      → All (λ p. get_elem? jobs p.0 ≡ some p.1) ready
      → All (Comes jobs) (skipped_unhealthy run health ready)
  unfolding skipped_unhealthy
  skipped_unhealthy-Comes jobs [] h = tt
  skipped_unhealthy-Comes jobs ((i, job) ∷ ready) h =
      let rest = skipped_unhealthy-Comes jobs ready h.1 in
      elim (Bool-cases (is_healthy health job.runner)) [
        | inl fine ↦ rw (fine, skipped_unhealthy) rest
        | inr ill ↦ rw (ill, skipped_unhealthy) ((job, h.0, rw ill), rest)
      ]

  spawned-Comes :
      (jobs : List (AgentJob F)) (ready : List (ℕ × AgentJob F))
      → All (λ p. get_elem? jobs p.0 ≡ some p.1) ready
      → All (Comes jobs) (spawned run health ready)
  unfolding spawned
  spawned-Comes jobs [] h = tt
  spawned-Comes jobs ((i, job) ∷ ready) h =
      let rest = spawned-Comes jobs ready h.1 in
      elim (Bool-cases (is_healthy health job.runner)) [
        | inl fine ↦ rw (fine, spawned) ((job, h.0, rw fine), rest)
        | inr ill ↦ rw (ill, spawned) rest
      ]

  pub wave-Comes :
      (jobs : List (AgentJob F)) (ready : List (ℕ × AgentJob F)) (done : List (ℕ × AgentResult F))
      → All (λ p. get_elem? jobs p.0 ≡ some p.1) ready
      → run_parallel_jobs run health tasks ready ≡ ok done
      → All (Comes jobs) done
  wave-Comes jobs ready done indexed h =
      let (joined, perm, e) = wave_parts ready done h in
      rw e (
        All-append (Comes jobs) (skipped_unhealthy run health ready) joined
          (skipped_unhealthy-Comes jobs ready indexed)
          (All-perm (Comes jobs) perm (spawned-Comes jobs ready indexed)))
