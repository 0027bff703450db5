-- ===== src/Scheduler/Plan/Order.antt =====
-- src/scheduler.rs: a job is run only behind its parents, and skipped only for a reason.
use mathlib.Core.List.{Memᴰ}
use long_task_orchestration.Prelude.{
  ℕ, zero, suc, ◌≡◌, ◌⊎◌, inl, inr, refl, true, false, List, [], ◌∷◌, Option, none, some, arith,
  eqb, eqb_iff, length, replicate, if◌then◌else◌, Bool-cases, Option-cases, all, All, All-Memᴰ,
  All_of_forall, get_elem?, subst, sym, ◌∙◌,
}
use long_task_orchestration.Prelude.Eq.{nat_eq, contains}
use long_task_orchestration.Prelude.Result.{ok}
use long_task_orchestration.Prelude.Text.{Text}
use long_task_orchestration.AgentJob.{AgentJob, AgentResult, JobStatus, status_beq_iff}
use long_task_orchestration.MergeReview.{MergeReview}
use long_task_orchestration.Scheduler.Exit.{skipped_for_unhealthy, skipped_for_dependency}
use long_task_orchestration.Scheduler.Health.{HealthProbe, is_healthy}
use long_task_orchestration.Scheduler.Plan.{
  DependencyPlan, is_none, parents_at, slot, dependency_blocked_jobs, dependencies_satisfied,
  blocking_reason, parent_blocks, opens,
}
use long_task_orchestration.Scheduler.Plan.Run.{
  JoinSet, State, record_all, skipped_results, ready_of, run_parallel_jobs, skip_blocked, plan_loop,
  run_dependency_plan, initial,
}
use long_task_orchestration.Scheduler.Plan.Record.{
  indices, contains-record_all, slot-record_all-other, slot-record_all_cases,
}
use long_task_orchestration.Scheduler.Plan.Wave.{
  ready_jobs-indexed, blocked_remaining, blocked_jobs-reasons, skipped_blocked,
  skipped_results-SkippedFor, SkippedFor, Comes, wave-Comes,
}
use long_task_orchestration.Scheduler.Plan.Round.{
  finished, all_skipped, stuck, broken, wave, rounds, after_skips, ready, wave_ready,
}

module _ {F : Type 0} where
  -- A result in the slot that does not open the jobs behind it.
  abbrev pub HasBlocker : List ℕ → List (Option (AgentResult F)) → Type 0
  HasBlocker parents results =
      (p : ℕ) × (q : AgentResult F) × (contains parents p ≡ true)
      × (slot results p ≡ some q)
      × (opens q ≡ false)

  blocking_reason-HasBlocker :
      (results : List (Option (AgentResult F))) (parents : List ℕ) (reason : Text)
      → blocking_reason results parents ≡ some reason
      → HasBlocker parents results
  unfolding blocking_reason contains
  blocking_reason-HasBlocker results [] reason h = absurd (cc)
  blocking_reason-HasBlocker results (p ∷ ps) reason h = elim (Option-cases (slot results p)) [
    | inl empty ↦
        let (k, q, m, e, o) =
          blocking_reason-HasBlocker results ps reason (ground (arith, empty)) in
        (k, q, ground arith, e, o)
    | inr (q, full) ↦ elim (Option-cases (parent_blocks q)) [
      | inl free ↦
          let (k, r, m, e, o) =
            blocking_reason-HasBlocker results ps reason (ground (arith, full, free)) in
          (k, r, ground arith, e, o)
      | inr (why, held) ↦ (p, q, ground arith, full, unfold opens parent_blocks in ground arith)
    ]
  ]

  contains-keys_of_Memᴰ :
      (p : ℕ × AgentResult F) (done : List (ℕ × AgentResult F))
      → Memᴰ p done
      → contains (indices done) p.0 ≡ true
  unfolding contains
  contains-keys_of_Memᴰ p [] m = elim m [ ]
  contains-keys_of_Memᴰ p (q ∷ done) (Memᴰ.head e) = ground (arith, e)
  contains-keys_of_Memᴰ p (q ∷ done) (Memᴰ.tail m) = ground (arith, contains-keys_of_Memᴰ p done m)

  -- Slots that open jobs stay as they are.
  abbrev Keeps : List (Option (AgentResult F)) → List (Option (AgentResult F)) → Type 0
  Keeps old new = (p : ℕ) (q : AgentResult F) → slot old p ≡ some q → slot new p ≡ some q

  satisfied-Keeps :
      (old new : List (Option (AgentResult F))) (parents : List ℕ)
      → Keeps old new
      → dependencies_satisfied parents old ≡ true
      → dependencies_satisfied parents new ≡ true
  unfolding dependencies_satisfied all
  satisfied-Keeps old new [] keep h = refl
  satisfied-Keeps old new (p ∷ ps) keep h = elim (Option-cases (slot old p)) [
    | inl empty ↦ ground arith
    | inr (q, full) ↦ ground (arith, keep p q full, satisfied-Keeps old new ps keep)
  ]

module _ {F : Type 0} (run : AgentJob F → AgentResult F) (health : HealthProbe)
    (tasks : JoinSet (ℕ × AgentResult F)) (jobs : List (AgentJob F)) (plan : DependencyPlan) where
  -- How the job of the index came to its result: with its dependencies satisfied by its attempts, or
  -- by a skip if its runner is unhealthy; or by a skip for a parent whose result does not open it.
  abbrev pub Explained : List (Option (AgentResult F)) → ℕ → AgentResult F → Type 0
  Explained results i r =
      (job : AgentJob F) × (get_elem? jobs i ≡ some job)
      × ((dependencies_satisfied (parents_at plan i) results ≡ true)
            × (r ≡ (if is_healthy health job.runner then run job else skipped_for_unhealthy job))
          ⊎ (reason : Text) × (r ≡ skipped_for_dependency job reason)
            × HasBlocker (parents_at plan i) results)

  Explained-Keeps :
      (old new : List (Option (AgentResult F))) (i : ℕ) (r : AgentResult F)
      → Keeps old new
      → Explained old i r
      → Explained new i r
  Explained-Keeps old new i r keep (job, here, inl (sat, e)) =
      (job, here, inl (satisfied-Keeps old new (parents_at plan i) keep sat, e))
  Explained-Keeps old new i r keep (job, here, inr (reason, e, (p, q, m, full, shut))) =
      (job, here, inr (reason, e, (p, q, m, keep p q full, shut)))

  -- The remaining jobs have no result, and every result is explained.
  record IsSound (state : State F) : Type 0 where
    pending : (i : ℕ) → contains state.remaining i ≡ true → slot state.results i ≡ none
    explained :
        (i : ℕ) (r : AgentResult F) → slot state.results i ≡ some r → Explained state.results i r

  -- Recording explained results of remaining jobs keeps that.
  record_all-IsSound :
      (done : List (ℕ × AgentResult F)) (state : State F)
      → IsSound state
      → ((i : ℕ) → contains (indices done) i ≡ true → contains state.remaining i ≡ true)
      → All (λ p. Explained state.results p.0 p.1) done
      → IsSound (record_all done state)
  record_all-IsSound done state sound open_jobs why = record {
    pending = λ i h.
        let parts = sym (contains-record_all done state i) ∙ h in
        slot-record_all-other done state i (ground (arith, parts))
        ∙ sound.pending i (ground (arith, parts));
    explained = λ i r h.
        Explained-Keeps state.results _ i r keep (elim (slot-record_all_cases done state i r h) [
          | inl m ↦ All-Memᴰ (λ p. Explained state.results p.0 p.1) done why m
          | inr old ↦ sound.explained i r old
        ]);
  }
    where
      keep : Keeps state.results (record_all done state).results
      keep p q full = elim (Bool-cases (contains (indices done) p)) [
        | inl now ↦ absurd (cc (sound.pending p (open_jobs p now)))
        | inr other ↦ slot-record_all-other done state p other ∙ full
      ]

  skips-IsSound :
      (state : State F) → IsSound state → IsSound (after_skips run health tasks jobs plan state)
  unfolding skip_blocked
  skips-IsSound state sound =
      let blocked = dependency_blocked_jobs state.remaining state.results plan in
      record_all-IsSound (skipped_results jobs blocked) state sound
        (λ i h.
          blocked_remaining jobs plan state.results state.remaining i
            (skipped_blocked jobs blocked i h))
        (All_of_forall (skipped_results jobs blocked) λ p m.
          let (job, reason, here, e, held) =
            All-Memᴰ (SkippedFor jobs plan state.results) _
              (skipped_results-SkippedFor jobs plan state.results blocked
                (blocked_jobs-reasons jobs plan state.results state.remaining))
              m in
          (
            job,
            here,
            inr (
              reason,
              e,
              blocking_reason-HasBlocker state.results (parents_at plan p.0) reason held,
            ),
          ))

  wave-IsSound :
      (state : State F) (done : List (ℕ × AgentResult F))
      → IsSound state
      → run_parallel_jobs run health tasks (ready run health tasks jobs plan state) ≡ ok done
      → IsSound (record_all done state)
  wave-IsSound state done sound e =
      record_all-IsSound done state sound
        (λ i h. (wave_ready run health tasks jobs plan state done i e h).0)
        (All_of_forall done λ p m.
          let (job, here, r) =
            All-Memᴰ (Comes run health tasks jobs) done
              (wave-Comes run health tasks jobs (ready run health tasks jobs plan state) done
                (unfold ready_of in ready_jobs-indexed jobs plan state.results state.remaining) e)
              m in
          let (_, sat) =
            wave_ready run health tasks jobs plan state done p.0 e
              (contains-keys_of_Memᴰ p done m) in
          (job, here, inl (sat, r)))

  plan_loop-IsSound :
      (fuel : ℕ) (state : State F) (results : List (Option (AgentResult F)))
      → IsSound state
      → plan_loop run health tasks jobs plan fuel state ≡ some (ok results)
      → (final : State F) × IsSound final × (final.results ≡ results)
  unfolding plan_loop
  plan_loop-IsSound zero state results sound h = absurd (cc)
  plan_loop-IsSound (suc fuel) state results sound h =
      elim (rounds run health tasks jobs plan fuel state) [
        | finished _ e ↦ (state, sound, cc)
        | all_skipped _ e ↦ (_, skips-IsSound state sound, cc)
        | stuck _ _ e ↦ absurd (cc)
        | broken x e ↦ absurd (cc)
        | wave done busy e next ↦
            plan_loop-IsSound fuel _ results (wave-IsSound _ done (skips-IsSound state sound) e)
              (sym next ∙ h)
      ]

  pub slot-replicate : (n i : ℕ) → ◌≡◌ {A = Option (AgentResult F)} (slot (replicate n none) i) none
  unfolding slot
  slot-replicate zero i = refl
  slot-replicate (suc n) zero = refl
  slot-replicate (suc n) (suc i) = slot-replicate n i

  initial-IsSound : IsSound (initial run health tasks jobs)
  unfolding initial
  initial-IsSound = record {
    pending = λ i _. slot-replicate (length jobs) i;
    explained = λ i r h. absurd (cc (slot-replicate (length jobs) i));
  }

  -- In a run that succeeds each result is that of its own job: of its attempts, or of a skip for its
  -- unhealthy runner, with every parent's result a success that has no merge review; or of a skip
  -- for a parent whose result is no such success.
  pub run_dependency_plan-Explained :
      (results : List (Option (AgentResult F))) (i : ℕ) (r : AgentResult F)
      → run_dependency_plan run health tasks jobs plan ≡ some (ok results)
      → slot results i ≡ some r
      → Explained results i r
  unfolding run_dependency_plan
  run_dependency_plan-Explained results i r h full =
      let (final, sound, e) =
        plan_loop-IsSound (suc (length jobs)) (initial run health tasks jobs) results
          initial-IsSound h in
      subst (λ slots. Explained slots i r) e (sound.explained i r (rw e full))

-- What `dependencies_satisfied` asks, parent by parent.
dependencies_satisfied_parents :
    {F : Type 0} (parents : List ℕ) (results : List (Option (AgentResult F))) (p : ℕ)
    → dependencies_satisfied parents results ≡ true
    → contains parents p ≡ true
    → (q : AgentResult F) × (slot results p ≡ some q)
      × (q.status ≡ JobStatus.ok)
      × (q.merge_review ≡ none)
unfolding dependencies_satisfied all contains opens
dependencies_satisfied_parents [] results p h m = absurd (cc)
dependencies_satisfied_parents (k ∷ ks) results p h m = elim (Bool-cases (eqb k p)) [
  | inl here ↦ elim (Option-cases (slot results k)) [
    | inl empty ↦ absurd (cc)
    | inr (q, full) ↦ (
      q,
      subst (λ j. slot results j ≡ some q) ((eqb_iff k p).0 here) full,
      ground (arith, full, status_beq_iff q.status JobStatus.ok),
      no_review_of q.merge_review (ground (arith, full)),
    )
  ]
  | inr later ↦ dependencies_satisfied_parents ks results p (ground arith) (ground arith)
]
  where
    no_review_of : (review : Option MergeReview) → is_none review ≡ true → review ≡ none
    no_review_of none h = refl
    no_review_of (some r) h = absurd (cc)
