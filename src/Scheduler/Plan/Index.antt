-- ===== src/Scheduler/Plan/Index.antt =====
-- src/scheduler.rs: what `DependencyPlan::new` finds under the id of a job.
use long_task_orchestration.Prelude.{
  ℕ, zero, suc, ◌+◌, ◌<◌, ◌≡◌, ◌≢◌, ◌⊎◌, inl, inr, refl, sym, ap, ◌∙◌, Bool, true, false, List, [],
  ◌∷◌, Option, none, some, eqb, length, get_elem?, arith, Bool-cases, Option-cases,
}
use long_task_orchestration.Prelude.BTreeMap.{text_key, get, insert, get-insert}
use long_task_orchestration.Prelude.Eq.{contains, nat_eq, eq_refl, ◌==◌}
use long_task_orchestration.Prelude.Text.{Text, text_eq, text_beq_iff}
use long_task_orchestration.AgentJob.{AgentJob}
use long_task_orchestration.Scheduler.Batch.{AllFresh}
use long_task_orchestration.Scheduler.Plan.{index_from}

-- The child is known, and has the index.
abbrev pub names : Option ℕ → ℕ → Bool
names none c = false
names (some i) c = eqb i c

-- Every index in the map is one of the plan.
abbrev pub Bounded : List (Text × ℕ) → ℕ → Type 0
Bounded index n = (k : Text) (i : ℕ) → get k index ≡ some i → i < n

module _ {F : Type 0} where
  -- What the index of the ids has: what it had before, or the place of a job of that id.
  get-index_from :
      (k : Text) (i m : ℕ) (jobs : List (AgentJob F)) (index : List (Text × ℕ))
      → get k (index_from i jobs index) ≡ some m
      → (get k index ≡ some m)
        ⊎ ((j : ℕ) × (job : AgentJob F) × (get_elem? jobs j ≡ some job)
            × (job.job_id ≡ k)
            × (m ≡ i + j))
  unfolding index_from
  get-index_from k i m [] index h = inl h
  get-index_from k i m (job ∷ jobs) index h =
      elim (get-index_from k (suc i) m jobs (insert job.job_id i index) h) [
        | inr (j, found, here, id, e) ↦ inr (suc j, found, here, id, omega arith)
        | inl old ↦ elim (Bool-cases (job.job_id == k)) [
          | inl same ↦ inr (
            0,
            job,
            refl,
            (text_beq_iff job.job_id k).0 same,
            ground (arith, get-insert job.job_id k i index, same),
          )
          | inr other ↦ inl (ground (arith, get-insert job.job_id k i index, other))
        ]
      ]

  fresh_elem :
      (seen : List Text) (jobs : List (AgentJob F)) (j : ℕ) (job : AgentJob F)
      → AllFresh seen jobs
      → get_elem? jobs j ≡ some job
      → contains seen job.job_id ≡ false
  unfolding contains
  fresh_elem seen [] j job fresh h = absurd (cc)
  fresh_elem seen (first ∷ jobs) zero job fresh h = ground (arith, fresh.0)
  fresh_elem seen (first ∷ jobs) (suc j) job fresh h =
      ground (arith, fresh_elem (first.job_id ∷ seen) jobs j job fresh.1 h)

  -- Later jobs leave the entries of earlier ids.
  get-index_from_kept :
      (seen : List Text) (k : Text) (i : ℕ) (jobs : List (AgentJob F)) (index : List (Text × ℕ))
      → AllFresh seen jobs
      → contains seen k ≡ true
      → get k (index_from i jobs index) ≡ get k index
  unfolding index_from contains
  get-index_from_kept seen k i [] index fresh h = refl
  get-index_from_kept seen k i (job ∷ jobs) index fresh h =
      get-index_from_kept (job.job_id ∷ seen) k (suc i) jobs (insert job.job_id i index) fresh.1
        (ground arith)
      ∙ elim (Bool-cases (job.job_id == k)) [
        | inl same ↦ absurd (clash ((text_beq_iff job.job_id k).0 same))
        | inr other ↦ ground (arith, get-insert job.job_id k i index, other)
      ]
    where
      clash : job.job_id ≢ k
      clash e = cc (ap (contains seen) e)

  -- With distinct ids the index has each job at its place.
  get-index_from_self :
      (seen : List Text) (i j : ℕ) (jobs : List (AgentJob F)) (index : List (Text × ℕ))
      (job : AgentJob F)
      → AllFresh seen jobs
      → get_elem? jobs j ≡ some job
      → get job.job_id (index_from i jobs index) ≡ some (i + j)
  unfolding index_from contains
  get-index_from_self seen i j [] index job fresh h = absurd (cc)
  get-index_from_self seen i zero (first ∷ jobs) index job fresh h =
      get-index_from_kept (first.job_id ∷ seen) job.job_id (suc i) jobs
        (insert first.job_id i index) fresh.1 (ground (arith, same, eq_refl job.job_id))
      ∙ get-insert first.job_id job.job_id i index
      ∙ ground (arith, same, eq_refl job.job_id)
    where
      same : first.job_id ≡ job.job_id
      same = cc
  get-index_from_self seen i (suc j) (first ∷ jobs) index job fresh h =
      get-index_from_self (first.job_id ∷ seen) (suc i) j jobs (insert first.job_id i index) job
        fresh.1 h
      ∙ ground arith

  in_range :
      (xs : List (AgentJob F)) (i : ℕ) (x : AgentJob F) → get_elem? xs i ≡ some x → i < length xs
  in_range [] i x h = absurd (cc)
  in_range (y ∷ ys) zero x h = omega arith
  in_range (y ∷ ys) (suc i) x h = omega (arith, in_range ys i x h)

  same_place :
      (jobs : List (AgentJob F)) (j c : ℕ) (job child : AgentJob F)
      → get_elem? jobs j ≡ some job
      → get_elem? jobs c ≡ some child
      → j ≡ c
      → job.job_id ≡ child.job_id
  same_place jobs j c job child at there same =
      let e : some job ≡ some child = sym at ∙ ap (get_elem? jobs) same ∙ there in cc

  -- With distinct ids an id is found at the place of its own job only.
  pub index_from-names :
      (jobs : List (AgentJob F)) (c : ℕ) (child : AgentJob F) (k : Text)
      → AllFresh [] jobs
      → get_elem? jobs c ≡ some child
      → names (get k (index_from 0 jobs [])) c ≡ k == child.job_id
  index_from-names jobs c child k fresh there = elim (Bool-cases (k == child.job_id)) [
    | inl same ↦
        let self = get-index_from_self [] 0 c jobs [] child fresh there in
        let k_is : k ≡ child.job_id = (text_beq_iff k child.job_id).0 same in
        let found : get k (index_from 0 jobs []) ≡ some (0 + c) =
          ap (λ t. get t (index_from 0 jobs [])) k_is ∙ self in
        ground (arith, found, same)
    | inr other ↦ elim (Option-cases (get k (index_from 0 jobs []))) [
      | inl e ↦ ground (arith, e, other)
      | inr (i, e) ↦ elim (get-index_from k 0 i jobs [] e) [
        | inl old ↦ absurd (unfold get in cc)
        | inr (j, job, at, id, at_j) ↦ elim (Bool-cases (eqb i c)) [
          | inl clash ↦
              let same_id = same_place jobs j c job child at there (ground arith) in
              let k_is : k ≡ child.job_id = sym id ∙ same_id in
              absurd (ground (arith, (text_beq_iff k child.job_id).1 k_is, other))
          | inr apart ↦ ground (arith, e, other, apart)
        ]
      ]
    ]
  ]

  pub index_from-Bounded : (jobs : List (AgentJob F)) → Bounded (index_from 0 jobs []) (length jobs)
  index_from-Bounded jobs k i h = elim (get-index_from k 0 i jobs [] h) [
    | inl old ↦ absurd (unfold get in cc)
    | inr (j, job, at, id, e) ↦ omega (arith, in_range jobs j job at)
  ]
