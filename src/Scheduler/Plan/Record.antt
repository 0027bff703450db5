-- ===== src/Scheduler/Plan/Record.antt =====
-- src/scheduler.rs: what recording a list of results does to the slots and to the remaining jobs.
use mathlib.Core.List.{Memᴰ}
use long_task_orchestration.Prelude.{
  ℕ, zero, suc, ◌≤◌, ◌<◌, ◌≡◌, ◌⊎◌, inl, inr, refl, Bool, true, false, not, ◌&&◌, List, [], ◌∷◌,
  map, Option, none, some, arith, eqb, ltb, length, set, filter, if◌then◌else◌, length-set,
  Bool-cases, length-filter-le,
}
use long_task_orchestration.Prelude.Eq.{nat_eq, contains}
use long_task_orchestration.AgentJob.{AgentResult}
use long_task_orchestration.Scheduler.Plan.{slot}
use long_task_orchestration.Scheduler.Plan.Run.{State, record_result, record_all}

abbrev pub is_some {ℓ} : {A : Type ℓ} → Option A → Bool
is_some none = false
is_some (some a) = true

contains-filter :
    (i : ℕ) (xs : List ℕ) (j : ℕ)
    → contains (filter (λ k. not (eqb i k)) xs) j ≡ (contains xs j && not (eqb i j))
unfolding filter contains
contains-filter i [] j = refl
contains-filter i (x ∷ xs) j = ground (arith, contains-filter i xs j)

length-filter-lt :
    (i : ℕ) (xs : List ℕ)
    → contains xs i ≡ true
    → length (filter (λ k. not (eqb i k)) xs) < length xs
unfolding filter contains
length-filter-lt i [] h = absurd (cc)
length-filter-lt i (x ∷ xs) h =
    ground (arith, length-filter-lt i xs, length-filter-le (λ k. not (eqb i k)) xs)

module _ {F : Type 0} where
  abbrev pub indices : List (ℕ × AgentResult F) → List ℕ
  indices done = map (λ p. p.0) done

  slot-set :
      (results : List (Option (AgentResult F))) (i : ℕ) (r : AgentResult F) (j : ℕ)
      → slot (set results i (some r)) j
        ≡ (if eqb i j && ltb i (length results) then some r else slot results j)
  unfolding slot
  slot-set [] i r j = ground arith
  slot-set (x ∷ results) zero r zero = ground arith
  slot-set (x ∷ results) zero r (suc j) = ground arith
  slot-set (x ∷ results) (suc i) r zero = ground arith
  slot-set (x ∷ results) (suc i) r (suc j) = ground (arith, slot-set results i r j)

  pub length-record_all :
      (done : List (ℕ × AgentResult F)) (state : State F)
      → length (record_all done state).results ≡ length state.results
  unfolding record_all record_result
  length-record_all [] state = refl
  length-record_all ((i, r) ∷ done) state =
      ground (
        arith,
        length-record_all done (record_result i r state),
        length-set state.results i (some r),
      )

  pub contains-record_all :
      (done : List (ℕ × AgentResult F)) (state : State F) (j : ℕ)
      → contains (record_all done state).remaining j
        ≡ (contains state.remaining j && not (contains (indices done) j))
  unfolding record_all record_result contains
  contains-record_all [] state j = ground arith
  contains-record_all ((i, r) ∷ done) state j = ground (
    arith,
    contains-record_all done (record_result i r state) j,
    contains-filter i state.remaining j,
  )

  pub slot-record_all-other :
      (done : List (ℕ × AgentResult F)) (state : State F) (j : ℕ)
      → contains (indices done) j ≡ false
      → slot (record_all done state).results j ≡ slot state.results j
  unfolding record_all record_result contains
  slot-record_all-other [] state j h = refl
  slot-record_all-other ((i, r) ∷ done) state j h =
      ground (
        arith,
        slot-record_all-other done (record_result i r state) j,
        slot-set state.results i r j,
      )

  pub slot-record_all_cases :
      (done : List (ℕ × AgentResult F)) (state : State F) (j : ℕ) (r : AgentResult F)
      → slot (record_all done state).results j ≡ some r
      → Memᴰ (j, r) done ⊎ (slot state.results j ≡ some r)
  unfolding record_all
  slot-record_all_cases [] state j r h = inr h
  slot-record_all_cases ((i, q) ∷ done) state j r h =
      elim (slot-record_all_cases done (record_result i q state) j r h) [
        | inl m ↦ inl (Memᴰ.tail m)
        | inr e ↦ elim (Bool-cases (eqb i j && ltb i (length state.results))) [
          | inl here ↦
              let same : ◌≡◌ {A = ℕ × AgentResult F} (j, r) (i, q) =
                unfold record_result in ground (arith, slot-set state.results i q j) in
              inl (Memᴰ.head same)
          | inr there ↦ inr (unfold record_result in ground (arith, slot-set state.results i q j))
        ]
      ]

  -- A slot within the list is filled once its index is recorded.
  pub slot-record_all_filled :
      (done : List (ℕ × AgentResult F)) (state : State F) (j : ℕ)
      → j < length state.results
      → contains (indices done) j ≡ true
      → is_some (slot (record_all done state).results j) ≡ true
  unfolding record_all contains
  slot-record_all_filled [] state j h m = absurd (cc)
  slot-record_all_filled ((i, q) ∷ done) state j h m =
      elim (Bool-cases (contains (indices done) j)) [
        | inl later ↦ slot-record_all_filled done (record_result i q state) j kept later
        | inr last ↦
            unfold record_result in
            ground (
              arith,
              slot-record_all-other done (record_result i q state) j last,
              slot-set state.results i q j,
            )
      ]
    where
      kept : j < length (record_result i q state).results
      kept = unfold record_result in rw length-set h

  -- Recording never adds a remaining job, and takes one away where it records one.
  pub length-remaining-le :
      (done : List (ℕ × AgentResult F)) (state : State F)
      → length (record_all done state).remaining ≤ length state.remaining
  unfolding record_all record_result
  length-remaining-le [] state = omega arith
  length-remaining-le ((i, r) ∷ done) state = omega (
    arith,
    length-remaining-le done (record_result i r state),
    length-filter-le (λ k. not (eqb i k)) state.remaining,
  )

  pub length-remaining-lt :
      (i : ℕ) (r : AgentResult F) (done : List (ℕ × AgentResult F)) (state : State F)
      → contains state.remaining i ≡ true
      → length (record_all ((i, r) ∷ done) state).remaining < length state.remaining
  unfolding record_all record_result
  length-remaining-lt i r done state h = omega (
    arith,
    length-remaining-le done (record_result i r state),
    length-filter-lt i state.remaining h,
  )
