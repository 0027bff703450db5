-- ===== src/Decision/Families.antt =====
-- src/decision.rs: two heterogeneous reviewers are two sources of different families.
use mathlib.Core.List.{Memᴰ}
use long_task_orchestration.Prelude.{
  ◌≤◌, ◌≡◌, ◌≢◌, ◌↔◌, inl, inr, refl, sym, ◌∙◌, true, List, [], ◌∷◌, ◌++◌, map, length,
  length-append, filter, leb, arith, Bool-cases, ap,
}
use long_task_orchestration.Prelude.Eq.{contains}
use long_task_orchestration.Prelude.Text.{Text}
use long_task_orchestration.AgentJob.{AgentResult}
use long_task_orchestration.Audit.{RunnerFamily, family, family_eq, family_beq, family_beq_iff}
use long_task_orchestration.Decision.{DirectionVote}
use long_task_orchestration.Decision.Count.{push_families}
use long_task_orchestration.Decision.Run.{has_minimum_valid_reviewers, valid_review}
use long_task_orchestration.Decision.Compose.{has_minimum_vote_families}

-- Two of the names belong to different families.
abbrev pub Heterogeneous : List Text → Type 0
Heterogeneous names = (a : Text) × (b : Text) × Memᴰ a names × Memᴰ b names × (family a ≢ family b)

push_families-length :
    (families : List RunnerFamily) (names : List Text)
    → length families ≤ length (push_families families names)
unfolding push_families
push_families-length families [] = omega arith
push_families-length families (name ∷ names) = elim (Bool-cases (contains families (family name))) [
  | inl known ↦ rw known (push_families-length families names)
  | inr new ↦
      let more = families ++ (family name ∷ []) in
      rw new
        (omega (arith, push_families-length more names, length-append families (family name ∷ [])))
]

-- After one family, a second one is found exactly if there is a name of another family.
push_families-second :
    (f : RunnerFamily) (names : List Text)
    → (leb 2 (length (push_families (f ∷ []) names)) ≡ true)
      ↔ ((b : Text) × Memᴰ b names × (f ≢ family b))
unfolding push_families contains
push_families-second f [] = (λ h. absurd (ground (arith, h)), λ (b, m, e). elim m [ ])
push_families-second f (name ∷ names) = elim (Bool-cases (family_beq f (family name))) [
  | inl same ↦
      let rest = push_families-second f names in
      rw same (
        λ h. let (b, m, e) = rest.0 h in (b, Memᴰ.tail m, e),
        λ (b, m, e). rest.1 (b, later b m e ((family_beq_iff f (family name)).0 same), e),
      )
  | inr other ↦ rw other (
    λ h. (name, Memᴰ.head refl, λ e. ground (arith, e, other, family_beq_iff f (family name))),
    λ found. ground (arith, push_families-length (f ∷ family name ∷ []) names),
  )
]
  where
    later :
        {f : RunnerFamily} {name : Text} {names : List Text} (b : Text)
        → Memᴰ b (name ∷ names)
        → f ≢ family b
        → f ≡ family name
        → Memᴰ b names
    later b (Memᴰ.head p) e same = absurd (e (same ∙ sym (ap family p)))
    later b (Memᴰ.tail m) e same = m

-- A name of another family than the first one stands behind it.
behind_first :
    (name : Text) (names : List Text) (a : Text)
    → Memᴰ a (name ∷ names)
    → family name ≢ family a
    → (b : Text) × Memᴰ b names × (family name ≢ family b)
behind_first name names a (Memᴰ.head p) e = absurd (e (sym (ap family p)))
behind_first name names a (Memᴰ.tail m) e = (a, m, e)

second_family :
    (name : Text) (names : List Text) (a b : Text)
    → Memᴰ a (name ∷ names)
    → Memᴰ b (name ∷ names)
    → family a ≢ family b
    → (c : Text) × Memᴰ c names × (family name ≢ family c)
second_family name names a b m n e = elim (Bool-cases (family_beq (family name) (family a))) [
  | inl same ↦
      let first : family name ≡ family a = (family_beq_iff _ _).0 same in
      behind_first name names b n (λ q. e (sym first ∙ q))
  | inr other ↦
      behind_first name names a m
        (λ q. ground (arith, other, q, family_beq_iff (family name) (family a)))
]

two_families_iff :
    (names : List Text) → (leb 2 (length (push_families [] names)) ≡ true) ↔ Heterogeneous names
unfolding push_families contains
two_families_iff [] = (λ h. absurd (ground (arith, h)), λ (a, b, m, n, e). elim m [ ])
two_families_iff (name ∷ names) =
    let second = push_families-second (family name) names in
    (
      λ h. let (b, m, e) = second.0 h in (name, b, Memᴰ.head refl, Memᴰ.tail m, e),
      λ (a, b, m, n, e). second.1 (second_family name names a b m n e),
    )

-- The votes are enough exactly if two of their sources belong to different families.
pub has_minimum_vote_families_iff :
    (votes : List DirectionVote)
    → has_minimum_vote_families votes ≡ true ↔ Heterogeneous (map (λ v. v.source) votes)
unfolding has_minimum_vote_families
has_minimum_vote_families_iff votes = two_families_iff (map (λ v. v.source) votes)

-- The reviews are enough exactly if two runners of different families each gave a successful result
-- with a reply that is not blank.
pub has_minimum_valid_reviewers_iff :
    {F : Type 0} (results : List (AgentResult F))
    → has_minimum_valid_reviewers results ≡ true
      ↔ Heterogeneous (map (λ r. r.runner) (filter valid_review results))
unfolding has_minimum_valid_reviewers
has_minimum_valid_reviewers_iff results =
    two_families_iff (map (λ r. r.runner) (filter valid_review results))
