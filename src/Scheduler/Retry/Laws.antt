-- ===== src/Scheduler/Retry/Laws.antt =====
-- src/scheduler.rs: how often a job is tried, which results are tried again, and how it ends.
use long_task_orchestration.Prelude.{
  Bool, Bool-cases, ◌⊎◌, ℕ, zero, suc, ◌+◌, ◌≡◌, ◌≤◌, ◌<◌, refl, true, false, List, [], ◌∷◌, Option,
  none, some, subst, sym, inl, inr, min, ap, arith,
}
use long_task_orchestration.Prelude.Eq.{contains}
use long_task_orchestration.Prelude.F64.{F64}
use long_task_orchestration.Prelude.Json.{Items, nil, cons}
use long_task_orchestration.AgentJob.{AgentJob, AgentResult, JobStatus, status_eq}
use long_task_orchestration.Scheduler.{SchedulerConfig}
use long_task_orchestration.Scheduler.Retry.{
  Event, attempted, slept, u32_max, with_retry_attempts, retry_budget, capped_backoff, snoc,
  retry_entry, retry_delay_after_attempt, next_backoff_sec, attempts_from, run_job,
}

module _ {T : Type 0} where
  -- The numbers of the attempts, in order.
  abbrev pub attempts : List (Event T) → List ℕ
  attempts [] = []
  attempts (attempted n ∷ events) = n ∷ attempts events
  attempts (slept d ∷ events) = attempts events

  -- The pauses, in order.
  abbrev pub pauses : List (Event T) → List T
  pauses [] = []
  pauses (attempted n ∷ events) = pauses events
  pauses (slept d ∷ events) = d ∷ pauses events

-- The numbers `from`, `from + 1`, … of the given length.
abbrev pub count_from : ℕ → ℕ → List ℕ
count_from from zero = []
count_from from (suc n) = from ∷ count_from (from + 1) n

with_retry_attempts-status :
    {T : Type 0} (log : Items T) (r : AgentResult T) → (with_retry_attempts log r).status ≡ r.status
unfolding with_retry_attempts
with_retry_attempts-status nil r = refl
with_retry_attempts-status (cons i is) r = refl

module _ (F : F64) (config : SchedulerConfig F.Carrier)
    (run_once : AgentJob F.Carrier → ℕ → AgentResult F.Carrier) (job : AgentJob F.Carrier) where
  open F use {Carrier, add, gt}

  abbrev outcome : ℕ → JobStatus
  outcome attempt = (run_once job attempt).status

  abbrev delay_after : ℕ → ℕ → Carrier → Option Carrier
  delay_after attempt i elapsed =
      retry_delay_after_attempt F config (outcome attempt) job.retry_policy i elapsed
        job.budget.timeout_sec

  module _ (left i : ℕ) (elapsed : Carrier) (last : Option (AgentResult Carrier))
      (log : Items Carrier) (fits : i < u32_max) where
    step_stop :
        delay_after (i + 1) i elapsed ≡ none
        → attempts_from F config run_once job (suc left) i elapsed last log
          ≡ (some (with_retry_attempts log (run_once job (i + 1))), attempted (i + 1) ∷ [])
    unfolding attempts_from
    step_stop e =
        let n : min (i + 1) u32_max ≡ i + 1 = omega arith in
        rw (n, attempts_from) (rw (e, attempts_from) (rw n))

    step_again :
        (d : Carrier)
        → delay_after (i + 1) i elapsed ≡ some d
        → F.is_duration d ≡ true
        → let again =
            attempts_from F config run_once job left
              (i + 1)
              (add elapsed d)
              (some (run_once job (i + 1)))
              (snoc log (retry_entry (i + 1) (run_once job (i + 1)) d)) in
          attempts_from F config run_once job (suc left) i elapsed last log
          ≡ (again.0, attempted (i + 1) ∷ slept d ∷ again.1)
    unfolding attempts_from
    step_again d e fine =
        let n : min (i + 1) u32_max ≡ i + 1 = omega arith in
        rw (n, attempts_from) (rw (e, attempts_from) (rw (n, fine)))

    step_panic :
        (d : Carrier)
        → delay_after (i + 1) i elapsed ≡ some d
        → F.is_duration d ≡ false
        → attempts_from F config run_once job (suc left) i elapsed last log
          ≡ (none, attempted (i + 1) ∷ [])
    unfolding attempts_from
    step_panic d e bad =
        let n : min (i + 1) u32_max ≡ i + 1 = omega arith in
        rw (n, attempts_from) (rw (e, attempts_from) (rw (n, bad)))

  open job.retry_policy use {retry_on, max_retries}

  -- The pause behind attempt `i + 1`, and the time slept before it.
  abbrev pub pause_after : ℕ → Carrier
  pause_after i = capped_backoff F config job.retry_policy (i + 1)

  abbrev pub slept_before : ℕ → Carrier
  slept_before zero = F.zero
  slept_before (suc i) = add (slept_before i) (pause_after i)

  abbrev pub pauses_from : ℕ → ℕ → List Carrier
  pauses_from i zero = []
  pauses_from i (suc n) = pause_after i ∷ pauses_from (i + 1) n

  abbrev over_wall_time : ℕ → Carrier → Bool
  over_wall_time i elapsed =
      gt (add elapsed (pause_after i)) (retry_budget F config job.budget.timeout_sec)

  -- Attempt `i + 1` is to be tried again: its status is listed, a retry is left, and there is time for
  -- the pause.
  abbrev pub Retries : ℕ → Type 0
  Retries i =
      (contains retry_on (outcome (i + 1)) ≡ true)
      × (i < max_retries)
      × (over_wall_time i (slept_before i) ≡ false)

  -- Attempt `i + 1` is the last one: its status is not listed, no retry is left, or there is no time.
  abbrev pub Stops : ℕ → Type 0
  Stops i =
      (contains retry_on (outcome (i + 1)) ≡ false)
      ⊎ (max_retries ≤ i)
      ⊎ (over_wall_time i (slept_before i) ≡ true)

  -- The end of the loop behind attempt `i + 1`: its status if it is the last one, or a panic at a pause
  -- that is no duration.
  abbrev pub EndsAt : ℕ → Option (AgentResult Carrier) → Type 0
  EndsAt i final =
      ((result : AgentResult Carrier) × (final ≡ some result)
        × (result.status ≡ outcome (i + 1))
        × Stops i)
      ⊎ ((final ≡ none) × Retries i × (F.is_duration (pause_after i) ≡ false))

  delay_cases :
      (i : ℕ)
      → ((delay_after (i + 1) i (slept_before i) ≡ none) × Stops i)
        ⊎ ((delay_after (i + 1) i (slept_before i) ≡ some (pause_after i)) × Retries i)
  unfolding retry_delay_after_attempt next_backoff_sec
  delay_cases i = ground arith

  slept_before-next : (i : ℕ) → slept_before (i + 1) ≡ add (slept_before i) (pause_after i)
  slept_before-next i = ap slept_before (let next : i + 1 ≡ suc i = omega arith in next)

  -- A run of the loop from attempt `i + 1` to attempt `last + 1`, with `k` retries.
  record Ends (i k last : ℕ) (run : Option (AgentResult Carrier) × List (Event Carrier))
      : Type 0 where
    ends_at : last ≡ i + k
    numbered : attempts run.1 ≡ count_from (i + 1) (suc k)
    paused : pauses run.1 ≡ pauses_from i k
    retried : (j : ℕ) → i ≤ j → j < last → Retries j × (F.is_duration (pause_after j) ≡ true)
    ended : EndsAt last run.0

  Ends-last :
      (i : ℕ) (final : Option (AgentResult Carrier))
      → EndsAt i final
      → Ends i 0 i (final, attempted (i + 1) ∷ [])
  Ends-last i final e = record {
    ends_at = omega arith;
    numbered = refl;
    paused = refl;
    retried = λ j h k. absurd (omega arith);
    ended = e;
  }

  Ends-again :
      (i k last : ℕ) (run : Option (AgentResult Carrier) × List (Event Carrier))
      → Retries i
      → F.is_duration (pause_after i) ≡ true
      → Ends (i + 1) k last run
      → Ends i (suc k) last (run.0, attempted (i + 1) ∷ slept (pause_after i) ∷ run.1)
  Ends-again i k last run again fine later = record {
    ends_at = omega (arith, later.ends_at);
    numbered = ap (λ l. (i + 1) ∷ l) later.numbered;
    paused = ap (λ l. pause_after i ∷ l) later.paused;
    retried = λ j low high. elim (first_or_later j low) [
      | inl first ↦
          subst (λ n. Retries n × (F.is_duration (pause_after n) ≡ true)) first (again, fine)
      | inr above ↦ later.retried j above high
    ];
    ended = later.ended;
  }
    where
      first_or_later : (j : ℕ) → i ≤ j → (i ≡ j) ⊎ (i + 1 ≤ j)
      first_or_later j h = omega arith

  -- One round: the loop ends with the attempt, or goes on behind the pause.
  round_cases :
      (left i : ℕ) (last : Option (AgentResult Carrier)) (log : Items Carrier)
      → i < u32_max
      → Ends i 0 i (attempts_from F config run_once job (suc left) i (slept_before i) last log)
        ⊎ ((delay_after (i + 1) i (slept_before i) ≡ some (pause_after i))
            × Retries i
            × (F.is_duration (pause_after i) ≡ true))
  round_cases left i last log small = elim (delay_cases i) [
    | inl (stop, why) ↦ inl (
        rw (step_stop left i (slept_before i) last log small stop)
          (Ends-last i _ (inl (_, refl, with_retry_attempts-status log _, why))))
    | inr (again, why) ↦ elim (Bool-cases (F.is_duration (pause_after i))) [
      | inr bad ↦ inl (
          rw (step_panic left i (slept_before i) last log small (pause_after i) again bad)
            (Ends-last i none (inr (refl, why, bad))))
      | inl fine ↦ inr (again, why, fine)
    ]
  ]

  attempts_from-Ends :
      (left i : ℕ) (last : Option (AgentResult Carrier)) (log : Items Carrier)
      → i + left ≡ max_retries
      → max_retries < u32_max
      → (k : ℕ) × (k ≤ left)
        × (m : ℕ) × Ends i k m
            (attempts_from F config run_once job (suc left) i (slept_before i) last log)
  attempts_from-Ends zero i last log e small = elim (round_cases zero i last log (omega arith)) [
    | inl ends ↦ (0, omega arith, i, ends)
    | inr (again, why, fine) ↦ absurd (omega (arith, why.1))
  ]
  attempts_from-Ends (suc left) i last log e small =
      elim (round_cases (suc left) i last log (omega arith)) [
        | inl ends ↦ (0, omega arith, i, ends)
        | inr (again, why, fine) ↦
            let (k, few, m, later) =
              attempts_from-Ends left (i + 1) (some (run_once job (i + 1)))
                (snoc log (retry_entry (i + 1) (run_once job (i + 1)) (pause_after i)))
                (omega arith) small in
            (
              suc k,
              omega arith,
              m,
              rw
                  (
                    step_again (suc left) i (slept_before i) last log (omega arith) (pause_after i)
                        again fine,
                    sym (slept_before-next i),
                  )
                  (Ends-again i k m _ why fine later),
            )
      ]

  -- A job whose `max_retries` is below the largest u32 is tried `k + 1` times for one `k` that is at
  -- most `max_retries`, in attempts numbered from 1. Each attempt but the last ended in a status that the policy
  -- retries, with a retry left and its pause within the wall time; behind it comes the doubled pause,
  -- cut at the longest one. The last attempt fails one of these three conditions, and gives the status
  -- of the job; or it meets them, and the loop panics since its pause is no duration.
  pub run_job-attempts :
      max_retries < u32_max
      → let (final, events) = run_job F config run_once job in
        (k : ℕ) × (k ≤ max_retries)
        × (attempts events ≡ count_from 1 (suc k))
        × (pauses events ≡ pauses_from 0 k)
        × ((j : ℕ) → j < k → Retries j × (F.is_duration (pause_after j) ≡ true))
        × EndsAt k final
  unfolding run_job
  run_job-attempts small =
      let rounds : min (max_retries + 1) u32_max ≡ suc max_retries = omega arith in
      let (k, few, m, ends) = attempts_from-Ends max_retries 0 none nil (omega arith) small in
      let run = attempts_from F config run_once job (suc max_retries) 0 F.zero none nil in
      let same : m ≡ k = omega (arith, ends.ends_at) in
      rw rounds (
        k,
        few,
        ends.numbered,
        ends.paused,
        λ j below. ends.retried j (omega arith) (omega arith),
        subst (λ n. EndsAt n run.0) same ends.ended,
      )
