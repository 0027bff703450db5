-- ===== src/Decision/Outcome.antt =====
-- src/decision.rs: what every outcome of a decision holds, errors included.
use long_task_orchestration.Prelude.{
  ◌≤◌, ◌<◌, ◌≡◌, ◌≢◌, ◌⊎◌, inl, inr, refl, true, false, Option, none, some, ltb, arith, Bool-cases,
}
use long_task_orchestration.Prelude.Eq.{contains}
use long_task_orchestration.Prelude.Json.{Json}
use long_task_orchestration.Prelude.Result.{Result, ok, err}
use long_task_orchestration.Prelude.Text.{text_eq}
use long_task_orchestration.Audit.Findings.{Reader}
use long_task_orchestration.Decision.{
  DecisionKind, DecisionStatus, DirectionVote, DecisionRunRequest, DecisionDissent,
  DirectionPayload, ReviewPayload, DecisionOutcome,
}
use long_task_orchestration.Decision.Gate.{
  run_decision-short, run_decision-again, run_decision-tracks,
}
use long_task_orchestration.Decision.Tracks.{Stopped, direction_track-cases, review_track-cases}
use long_task_orchestration.Decision.Run.{tracks, decided, finished, run_decision, direction_found}
use long_task_orchestration.Decision.Compose.{est_cost, compose_status, compose_payload, no_dissent}

abbrev Found : Type 0
Found = DecisionDissent × Option DirectionPayload × Option ReviewPayload

module _ {F : Type 0} (raw_vote : Json F → Option DirectionVote) (reader : Reader F) where
  -- A track that is cut short is stopped, and one that is not has what its kind answers with.
  abbrev Ends : DecisionKind → DecisionRunRequest F → Result DecisionOutcome Found → Type 0
  Ends kind request (err o) = Stopped (some request.escalate_key) o
  Ends kind request (ok (dissent, d, r)) = compose_payload kind d r ≢ none

  tracks-Ends :
      (request : DecisionRunRequest F) (kind : DecisionKind)
      → Ends kind request (tracks raw_vote reader kind request)
  unfolding tracks compose_payload
  tracks-Ends request DecisionKind.direction =
      elim (direction_track-cases raw_vote reader request) [
        | inl (few, o, stop, s) ↦ rw stop s
        | inr (two, go) ↦ rw go (λ e. cc)
      ]
  tracks-Ends request DecisionKind.review =
      elim (review_track-cases raw_vote reader request no_dissent) [
        | inl (few, o, stop, s) ↦ rw stop s
        | inr (two, go) ↦ rw go (λ e. cc)
      ]
  tracks-Ends request DecisionKind.both = elim (direction_track-cases raw_vote reader request) [
    | inl (few, o, stop, s) ↦ rw stop s
    | inr (two, go) ↦
        elim (review_track-cases raw_vote reader request
          (direction_found raw_vote reader request).0) [
            | inl (few, o, stop, s) ↦ rw (go, stop) s
            | inr (enough, r_go) ↦ rw (go, r_go) (λ e. cc)
          ]
  ]

  -- The outcome of a decision that was made: its payload, its cost and its point of escalation.
  abbrev pub Made : DecisionRunRequest F → DecisionOutcome → Type 0
  Made request o =
      (o.status ≢ DecisionStatus.needs_human)
      × (o.result ≢ none)
      × (o.dispatched_to ≡ request.auditors)
      × (o.budget_consumed_est ≡ est_cost request.kind request.diverge)
      × (o.record_escalate_key ≡ some request.escalate_key)

  compose_status-made :
      (kind : DecisionKind) (d : Option DirectionPayload)
      → compose_status kind d ≢ DecisionStatus.needs_human
  unfolding compose_status
  compose_status-made DecisionKind.review d = λ e. cc
  compose_status-made DecisionKind.direction none = λ e. cc
  compose_status-made DecisionKind.direction (some d) = λ e. ground (arith, e)
  compose_status-made DecisionKind.both none = λ e. cc
  compose_status-made DecisionKind.both (some d) = λ e. ground (arith, e)

  finished-Made :
      (request : DecisionRunRequest F) (found : Result DecisionOutcome Found)
      → Ends request.kind request found
      → Stopped (some request.escalate_key) (finished request found)
        ⊎ Made request (finished request found)
  unfolding finished decided
  finished-Made request (err o) h = inl h
  finished-Made request (ok (dissent, d, r)) h =
      inr (compose_status-made request.kind d, h, refl, refl, refl)

  -- A decision is refused with nothing recorded exactly if the budget falls short of its cost or its
  -- point of escalation was spawned before. Otherwise the point is recorded, and the decision is
  -- either stopped for a human, with nothing spent, or made, with a payload and its full cost.
  pub run_decision-Made :
      (request : DecisionRunRequest F)
      → let o = run_decision raw_vote reader request in
        let cost = est_cost request.kind request.diverge in
        (((request.budget_remaining < cost)
            ⊎ (contains request.spawned_escalate_keys request.escalate_key ≡ true))
          × Stopped none o)
        ⊎ ((cost ≤ request.budget_remaining)
            × (contains request.spawned_escalate_keys request.escalate_key ≡ false)
            × (Stopped (some request.escalate_key) o ⊎ Made request o))
  run_decision-Made request =
      elim (Bool-cases (ltb request.budget_remaining (est_cost request.kind request.diverge))) [
        | inl short ↦
            inl (inl (ground (arith, short)), run_decision-short raw_vote reader request short)
        | inr enough ↦
            elim (Bool-cases (contains request.spawned_escalate_keys request.escalate_key)) [
              | inl again ↦ inl (inr again, run_decision-again raw_vote reader request enough again)
              | inr fresh ↦ inr (
                ground (arith, enough),
                fresh,
                rw (run_decision-tracks raw_vote reader request enough fresh)
                    (finished-Made request _ (tracks-Ends request request.kind)),
              )
            ]
      ]
