-- ===== src/Scheduler/Plan.antt =====
-- src/scheduler.rs: the dependency plan and the loop that runs the jobs in waves. `run` is the loop
-- of attempts of a job, and `join` the set of spawned tasks, which yields their results in the order
-- of completion. A job runs in one wave only, so neither needs to know the wave.
pub mod Run
pub mod Record
pub mod Wave
pub mod Round
pub mod Filled
pub mod Order
pub mod Chain
pub mod Index
pub mod Parents
use long_task_orchestration.Prelude.{
  ℕ, zero, suc, Bool, true, false, not, ◌&&◌, List, [], ◌∷◌, ◌++◌, Option, none, some, any, all,
  eqb, ltb, length, get_elem?, set, replicate, filter, if◌then◌else◌,
}
use long_task_orchestration.Prelude.BTreeMap.{text_key, get, insert}
use long_task_orchestration.Prelude.Result.{Result, ok, err, ◌>>=◌, map_err}
use long_task_orchestration.Prelude.Text.{Text, str}
use long_task_orchestration.MergeReview.{MergeReview}
use long_task_orchestration.AgentJob.{
  AgentJob, AgentResult, JobStatus, pending, running, failed, timeout, rate_limited,
  quota_exhausted, skipped, status_beq,
}
use long_task_orchestration.Scheduler.{SchedulerError, dependency_cycle, join_failed}
use long_task_orchestration.Scheduler.Exit.{skipped_for_unhealthy, skipped_for_dependency}
use long_task_orchestration.Scheduler.Health.{HealthProbe, is_healthy}

-- `BTreeSet<usize>::insert`
unfoldable pub set_insert : ℕ → List ℕ → List ℕ
set_insert p [] = p ∷ []
set_insert p (q ∷ qs) =
    let rest = set_insert p qs in
    if eqb p q then q ∷ qs else if ltb p q then p ∷ q ∷ qs else q ∷ rest

abbrev pub DependencyPlan : Type 0
DependencyPlan = List (List ℕ)

-- `plan.parents_by_idx[idx]`
unfoldable pub parents_at : DependencyPlan → ℕ → List ℕ
parents_at [] i = []
parents_at (ps ∷ plan) zero = ps
parents_at (ps ∷ plan) (suc i) = parents_at plan i

abbrev pub is_nil {ℓ} : {A : Type ℓ} → List A → Bool
is_nil [] = true
is_nil (x ∷ xs) = false

unfoldable pub has_edges : DependencyPlan → Bool
has_edges plan = any (λ parents. not (is_nil parents)) plan

-- The loop over the children of one parent; an unknown child is passed over.
unfoldable pub add_children : List (Text × ℕ) → ℕ → List Text → DependencyPlan → DependencyPlan
add_children index parent [] plan = plan
add_children index parent (child ∷ rest) plan =
    add_children index parent rest (elim (get child index) [
      | none ↦ plan
      | some c ↦ set plan c (set_insert parent (parents_at plan c))
    ])

-- `{:?}` of a status
status_debug : JobStatus → Text
status_debug pending = str "Pending"
status_debug running = str "Running"
status_debug JobStatus.ok = str "Ok"
status_debug failed = str "Failed"
status_debug timeout = str "Timeout"
status_debug rate_limited = str "RateLimited"
status_debug quota_exhausted = str "QuotaExhausted"
status_debug skipped = str "Skipped"

abbrev pub is_none : Option MergeReview → Bool
is_none none = true
is_none (some review) = false

module _ {F : Type 0} where
  -- The index of each job id; a repeated id keeps its last index.
  unfoldable pub index_from : ℕ → List (AgentJob F) → List (Text × ℕ) → List (Text × ℕ)
  index_from i [] index = index
  index_from i (job ∷ jobs) index = index_from (suc i) jobs (insert job.job_id i index)

  unfoldable pub add_parents :
      List (Text × ℕ) → ℕ → List (AgentJob F) → DependencyPlan → DependencyPlan
  add_parents index i [] plan = plan
  add_parents index i (job ∷ jobs) plan =
      add_parents index (suc i) jobs (add_children index i job.children plan)

  unfoldable pub plan_of : List (AgentJob F) → DependencyPlan
  unfolding index_from add_parents add_children
  plan_of jobs = add_parents (index_from 0 jobs []) 0 jobs (replicate (length jobs) [])

  -- The slots of the results; a slot beyond the end is empty.
  unfoldable pub slot : List (Option (AgentResult F)) → ℕ → Option (AgentResult F)
  slot [] i = none
  slot (r ∷ results) zero = r
  slot (r ∷ results) (suc i) = slot results i

  -- A result that opens the jobs behind it: a success with no merge review left to the host.
  unfoldable pub opens : AgentResult F → Bool
  opens r = status_beq r.status JobStatus.ok && is_none r.merge_review

  -- Why a finished parent blocks its job.
  unfoldable pub parent_blocks : AgentResult F → Option Text
  unfolding status_debug
  parent_blocks parent =
      if not (status_beq parent.status JobStatus.ok)
      then some (
          str "dependency "
          ++ (parent.job_id
              ++ (str " did not complete successfully ("
                  ++ (status_debug parent.status ++ str ")"))))
      else if not (is_none parent.merge_review)
      then some (
          str "dependency "
          ++ (parent.job_id
              ++ str " produced a merge review; host must merge it before this job opens"))
      else none

  unfoldable pub blocking_reason : List (Option (AgentResult F)) → List ℕ → Option Text
  blocking_reason results [] = none
  blocking_reason results (p ∷ ps) =
      let rest = blocking_reason results ps in
      elim (slot results p) [
        | none ↦ rest
        | some parent ↦ elim (parent_blocks parent) [ some reason ↦ some reason | none ↦ rest ]
      ]

  unfoldable pub dependency_blocked_jobs :
      List ℕ → List (Option (AgentResult F)) → DependencyPlan → List (ℕ × Text)
  dependency_blocked_jobs [] results plan = []
  dependency_blocked_jobs (i ∷ remaining) results plan =
      let rest = dependency_blocked_jobs remaining results plan in
      elim (blocking_reason results (parents_at plan i)) [
        | none ↦ rest
        | some reason ↦ (i, reason) ∷ rest
      ]

  abbrev opens_slot : Option (AgentResult F) → Bool
  opens_slot none = false
  opens_slot (some r) = opens r

  unfoldable pub dependencies_satisfied : List ℕ → List (Option (AgentResult F)) → Bool
  dependencies_satisfied parents results = all (λ p. opens_slot (slot results p)) parents
