-- ===== src/Scheduler/Plan/Parents.antt =====
-- src/scheduler.rs: `DependencyPlan::new` finds exactly the parents that the jobs name.
use long_task_orchestration.Prelude.{
  ℕ, zero, suc, ◌+◌, ◌<◌, ◌≡◌, inl, inr, refl, ◌∙◌, Bool, false, ◌&&◌, ◌||◌, List, [], ◌∷◌, Option,
  none, some, eqb, length, get_elem?, set, replicate, if◌then◌else◌, arith, Option-cases,
  length-set, length-replicate,
}
use long_task_orchestration.Prelude.BTreeMap.{text_key, get}
use long_task_orchestration.Prelude.Eq.{contains, nat_eq, ◌==◌}
use long_task_orchestration.Prelude.Text.{Text, text_eq}
use long_task_orchestration.AgentJob.{AgentJob}
use long_task_orchestration.Scheduler.Batch.{AllFresh}
use long_task_orchestration.Scheduler.Plan.Index.{
  names, Bounded, index_from-names, index_from-Bounded,
}
use long_task_orchestration.Scheduler.Plan.{
  DependencyPlan, parents_at, set_insert, add_children, add_parents, index_from, plan_of,
}

contains-set_insert :
    (p q : ℕ) (xs : List ℕ) → contains (set_insert p xs) q ≡ (eqb p q || contains xs q)
unfolding set_insert contains
contains-set_insert p q [] = ground arith
contains-set_insert p q (x ∷ xs) = ground (arith, contains-set_insert p q xs)

parents_at-set :
    (plan : DependencyPlan) (c d : ℕ) (ps : List ℕ)
    → c < length plan
    → parents_at (set plan c ps) d ≡ (if eqb c d then ps else parents_at plan d)
unfolding parents_at
parents_at-set [] c d ps h = absurd (omega arith)
parents_at-set (qs ∷ plan) zero zero ps h = refl
parents_at-set (qs ∷ plan) zero (suc d) ps h = ground arith
parents_at-set (qs ∷ plan) (suc c) zero ps h = ground arith
parents_at-set (qs ∷ plan) (suc c) (suc d) ps h =
    parents_at-set plan c d ps (omega arith) ∙ ground arith

abbrev resolves : List (Text × ℕ) → List Text → ℕ → Bool
resolves index [] c = false
resolves index (child ∷ rest) c = names (get child index) c || resolves index rest c

length-add_children :
    (index : List (Text × ℕ)) (parent : ℕ) (children : List Text) (plan : DependencyPlan)
    → length (add_children index parent children plan) ≡ length plan
unfolding add_children
length-add_children index parent [] plan = refl
length-add_children index parent (child ∷ rest) plan = elim (Option-cases (get child index)) [
  | inl e ↦ rw (e, add_children) (length-add_children index parent rest plan)
  | inr (c, e) ↦
      rw (e, add_children)
        (length-add_children index parent rest (set plan c (set_insert parent (parents_at plan c)))
          ∙ length-set plan c (set_insert parent (parents_at plan c)))
]

add_children-parents :
    (index : List (Text × ℕ)) (parent : ℕ) (children : List Text) (plan : DependencyPlan) (c p : ℕ)
    → Bounded index (length plan)
    → contains (parents_at (add_children index parent children plan) c) p
      ≡ (contains (parents_at plan c) p || (eqb parent p && resolves index children c))
unfolding add_children
add_children-parents index parent [] plan c p bounded = ground arith
add_children-parents index parent (child ∷ rest) plan c p bounded =
    elim (Option-cases (get child index)) [
      | inl e ↦ ground (arith, e, add_children-parents index parent rest plan c p bounded)
      | inr (d, e) ↦
          let next = set plan d (set_insert parent (parents_at plan d)) in
          ground (
            arith,
            e,
            add_children-parents index parent rest next c p
                (λ k i h. rw length-set (bounded k i h)),
            parents_at-set plan d c (set_insert parent (parents_at plan d)) (bounded child d e),
            contains-set_insert parent p (parents_at plan d),
          )
    ]

nothing : (n d q : ℕ) → contains (parents_at (replicate n []) d) q ≡ false
unfolding parents_at contains
nothing zero d q = refl
nothing (suc n) zero q = refl
nothing (suc n) (suc d) q = nothing n d q

resolves-contains :
    (index : List (Text × ℕ)) (id : Text) (c : ℕ) (children : List Text)
    → ((k : Text) → names (get k index) c ≡ k == id)
    → resolves index children c ≡ contains children id
unfolding contains
resolves-contains index id c [] h = refl
resolves-contains index id c (child ∷ rest) h =
    ground (arith, h child, resolves-contains index id c rest h)

module _ {F : Type 0} where
  abbrev job_resolves : List (Text × ℕ) → Option (AgentJob F) → ℕ → Bool
  job_resolves index none c = false
  job_resolves index (some job) c = resolves index job.children c

  -- The jobs from an index on add no parent below it.
  add_parents-before :
      (index : List (Text × ℕ)) (i : ℕ) (jobs : List (AgentJob F)) (plan : DependencyPlan) (c p : ℕ)
      → Bounded index (length plan)
      → p < i
      → contains (parents_at (add_parents index i jobs plan) c) p ≡ contains (parents_at plan c) p
  unfolding add_parents
  add_parents-before index i [] plan c p bounded h = refl
  add_parents-before index i (job ∷ jobs) plan c p bounded h =
      let next = add_children index i job.children plan in
      ground (
        arith,
        add_parents-before index (suc i) jobs next c p
            (λ k m e. rw (length-add_children index i job.children plan) (bounded k m e))
            (omega arith),
        add_children-parents index i job.children plan c p bounded,
      )

  add_parents-at :
      (index : List (Text × ℕ)) (i : ℕ) (jobs : List (AgentJob F)) (plan : DependencyPlan) (c j : ℕ)
      → Bounded index (length plan)
      → contains (parents_at (add_parents index i jobs plan) c) (i + j)
        ≡ (contains (parents_at plan c) (i + j) || job_resolves index (get_elem? jobs j) c)
  unfolding add_parents
  add_parents-at index i [] plan c j bounded = ground arith
  add_parents-at index i (job ∷ jobs) plan c zero bounded =
      let next = add_children index i job.children plan in
      ground (
        arith,
        add_parents-before index (suc i) jobs next c (i + 0)
            (λ k m e. rw (length-add_children index i job.children plan) (bounded k m e))
            (omega arith),
        add_children-parents index i job.children plan c (i + 0) bounded,
      )
  add_parents-at index i (job ∷ jobs) plan c (suc j) bounded =
      let next = add_children index i job.children plan in
      let here = add_children-parents index i job.children plan c (i + suc j) bounded in
      let later =
        add_parents-at index (suc i) jobs next c j
          (λ k m e. rw (length-add_children index i job.children plan) (bounded k m e)) in
      ground (arith, here, later)

  -- In a batch with distinct ids, a job is a parent of another in the plan exactly if it names its id
  -- among its children.
  pub plan_of-parents :
      (jobs : List (AgentJob F)) (p c : ℕ) (parent child : AgentJob F)
      → AllFresh [] jobs
      → get_elem? jobs p ≡ some parent
      → get_elem? jobs c ≡ some child
      → contains (parents_at (plan_of jobs) c) p ≡ contains parent.children child.job_id
  unfolding plan_of
  plan_of-parents jobs p c parent child fresh here there =
      let index = index_from 0 jobs [] in
      ground (
        arith,
        here,
        nothing (length jobs) c p,
        add_parents-at index 0 jobs (replicate (length jobs) []) c p
            (λ k i h. rw length-replicate (index_from-Bounded jobs k i h)),
        resolves-contains index child.job_id c parent.children
            (λ k. index_from-names jobs c child k fresh there),
      )
