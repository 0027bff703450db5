-- ===== src/Decision/Gate.antt =====
-- src/decision.rs: when a decision converges.
use long_task_orchestration.Prelude.{
  ◌≤◌, ◌≡◌, ◌≢◌, ◌↔◌, inl, inr, refl, sym, ◌∙◌, true, false, map, Option, none, some, filter, any,
  ltb, arith, Bool-cases, ap,
}
use long_task_orchestration.Prelude.Eq.{contains}
use long_task_orchestration.Prelude.Json.{Json}
use long_task_orchestration.Prelude.Result.{Result, ok, err}
use long_task_orchestration.Prelude.Text.{text_eq}
use long_task_orchestration.Audit.Findings.{Reader}
use long_task_orchestration.Decision.{
  DecisionKind, DecisionStatus, DirectionVote, DecisionRunRequest, DecisionDissent,
  DirectionPayload, ReviewPayload, DecisionOutcome,
}
use long_task_orchestration.Decision.Count.{asks_human}
use long_task_orchestration.Decision.Families.{
  Heterogeneous, has_minimum_vote_families_iff, has_minimum_valid_reviewers_iff,
}
use long_task_orchestration.Decision.Run.{
  has_minimum_valid_reviewers, valid_review, run_direction_phases, tracks, decided, stopped,
  direction_found, review_found, finished, run_decision,
}
use long_task_orchestration.Decision.Compose.{
  est_cost, has_minimum_vote_families, edge_outcome, no_dissent, compose_status,
}
use long_task_orchestration.Decision.Tracks.{
  Stopped, tally_of, direction_status, direction_track-cases, review_track-cases,
}

module _ {F : Type 0} (raw_vote : Json F → Option DirectionVote) (reader : Reader F) where
  -- What the track of directions needs in order to converge.
  abbrev pub DirectionGate : DecisionRunRequest F → Type 0
  DirectionGate request =
      Heterogeneous (map (λ v. v.source) (tally_of raw_vote reader request).votes)
      × (2 ≤ (tally_of raw_vote reader request).majority_count)
      × (any asks_human (tally_of raw_vote reader request).votes ≡ false)

  -- What the track of reviews needs.
  abbrev pub ReviewGate : DecisionRunRequest F → Type 0
  ReviewGate request =
      Heterogeneous (map (λ r. r.runner) (filter valid_review request.review_results))

  abbrev pub TracksGate : DecisionKind → DecisionRunRequest F → Type 0
  TracksGate DecisionKind.direction request = DirectionGate request
  TracksGate DecisionKind.review request = ReviewGate request
  TracksGate DecisionKind.both request = DirectionGate request × ReviewGate request

  abbrev VotesGate : DecisionRunRequest F → Type 0
  VotesGate request =
      (has_minimum_vote_families (tally_of raw_vote reader request).votes ≡ true)
      × (2 ≤ (tally_of raw_vote reader request).majority_count)
      × (any asks_human (tally_of raw_vote reader request).votes ≡ false)

  abbrev ReviewersGate : DecisionRunRequest F → Type 0
  ReviewersGate request = has_minimum_valid_reviewers request.review_results ≡ true

  status_after : DecisionKind → DecisionRunRequest F → DecisionStatus
  status_after kind request = (finished request (tracks raw_vote reader kind request)).status

  -- A track that is cut short or that says what it found, in the status of the outcome.
  finished-status :
      (request : DecisionRunRequest F)
      (found : Result DecisionOutcome
        (DecisionDissent × Option DirectionPayload × Option ReviewPayload))
      (d : Option DirectionPayload) (dissent : DecisionDissent) (r : Option ReviewPayload)
      → found ≡ ok (dissent, d, r)
      → (finished request found).status ≡ compose_status request.kind d
  unfolding finished decided
  finished-status request found d dissent r e = ap (λ f. (finished request f).status) e

  finished-stopped :
      (request : DecisionRunRequest F)
      (found : Result DecisionOutcome
        (DecisionDissent × Option DirectionPayload × Option ReviewPayload))
      (o : DecisionOutcome)
      → found ≡ err o
      → (finished request found).status ≡ o.status
  unfolding finished
  finished-stopped request found o e = ap (λ f. (finished request f).status) e

  not_review :
      (request : DecisionRunRequest F) (kind : DecisionKind)
      → request.kind ≡ kind
      → kind ≢ DecisionKind.review
      → request.kind ≢ DecisionKind.review
  not_review request kind same track e = track (sym same ∙ e)

  direction-converged :
      (request : DecisionRunRequest F)
      → request.kind ≡ DecisionKind.direction
      → status_after DecisionKind.direction request ≡ DecisionStatus.converged ↔ VotesGate request
  unfolding tracks direction_found status_after
  direction-converged request same = elim (direction_track-cases raw_vote reader request) [
    | inl (few, o, stop, s) ↦
        let cut : tracks raw_vote reader DecisionKind.direction request ≡ err o = rw stop refl in
        ground (arith, few, s.0, finished-stopped request _ o cut)
    | inr (two, go) ↦
        let found = direction_found raw_vote reader request in
        let both : tracks raw_vote reader DecisionKind.direction request
            ≡ ok (found.0, some found.1, none) =
          rw go refl in
        let pool = (run_direction_phases raw_vote reader request).1 in
        let gate =
          direction_status raw_vote reader request.kind request pool
            (not_review request _ same (λ e. cc)) in
        ground (arith, two, finished-status request _ (some found.1) found.0 none both, gate)
  ]

  review-converged :
      (request : DecisionRunRequest F)
      → request.kind ≡ DecisionKind.review
      → status_after DecisionKind.review request ≡ DecisionStatus.converged ↔ ReviewersGate request
  unfolding tracks status_after compose_status
  review-converged request same = elim (review_track-cases raw_vote reader request no_dissent) [
    | inl (few, o, stop, s) ↦
        let cut : tracks raw_vote reader DecisionKind.review request ≡ err o = rw stop refl in
        ground (arith, few, s.0, finished-stopped request _ o cut)
    | inr (two, go) ↦
        let found = review_found raw_vote reader request no_dissent in
        let all : tracks raw_vote reader DecisionKind.review request
            ≡ ok (found.0, none, some found.1) =
          rw go refl in
        let status = finished-status request _ none found.0 (some found.1) all in
        ground (arith, two, status, ap (λ k. compose_status k none) same)
  ]

  both-converged :
      (request : DecisionRunRequest F)
      → request.kind ≡ DecisionKind.both
      → status_after DecisionKind.both request ≡ DecisionStatus.converged
        ↔ (VotesGate request × ReviewersGate request)
  unfolding tracks direction_found status_after
  both-converged request same = elim (direction_track-cases raw_vote reader request) [
    | inl (few, o, stop, s) ↦
        let cut : tracks raw_vote reader DecisionKind.both request ≡ err o = rw stop refl in
        ground (arith, few, s.0, finished-stopped request _ o cut)
    | inr (two, go) ↦
        let d = direction_found raw_vote reader request in
        elim (review_track-cases raw_vote reader request d.0) [
          | inl (missing, o, stop, s) ↦
              let cut : tracks raw_vote reader DecisionKind.both request ≡ err o =
                rw (go, stop) refl in
              ground (arith, missing, s.0, finished-stopped request _ o cut)
          | inr (enough, r_go) ↦
              let r = review_found raw_vote reader request d.0 in
              let all : tracks raw_vote reader DecisionKind.both request
                  ≡ ok (r.0, some d.1, some r.1) =
                rw (go, r_go) refl in
              let pool = (run_direction_phases raw_vote reader request).1 in
              let gate =
                direction_status raw_vote reader request.kind request pool
                  (not_review request _ same (λ e. cc)) in
              let status = finished-status request _ (some d.1) r.0 (some r.1) all in
              ground (arith, two, enough, status, gate)
        ]
  ]

  -- The gate in Booleans is the gate of each track.
  status_after-converged :
      (request : DecisionRunRequest F) (kind : DecisionKind)
      → request.kind ≡ kind
      → status_after kind request ≡ DecisionStatus.converged ↔ TracksGate kind request
  status_after-converged request DecisionKind.direction same =
      let gate = direction-converged request same in
      let two = has_minimum_vote_families_iff (tally_of raw_vote reader request).votes in
      (λ h. let g = gate.0 h in (two.0 g.0, g.1, g.2), λ g. gate.1 (two.1 g.0, g.1, g.2))
  status_after-converged request DecisionKind.review same =
      let gate = review-converged request same in
      let two = has_minimum_valid_reviewers_iff request.review_results in
      (λ h. two.0 (gate.0 h), λ g. gate.1 (two.1 g))
  status_after-converged request DecisionKind.both same =
      let gate = both-converged request same in
      let two = has_minimum_vote_families_iff (tally_of raw_vote reader request).votes in
      let reviewers = has_minimum_valid_reviewers_iff request.review_results in
      (
        λ h. let g = gate.0 h in ((two.0 g.0.0, g.0.1, g.0.2), reviewers.0 g.1),
        λ g. gate.1 ((two.1 g.0.0, g.0.1, g.0.2), reviewers.1 g.1),
      )

  pub run_decision-short :
      (request : DecisionRunRequest F)
      → ltb request.budget_remaining (est_cost request.kind request.diverge) ≡ true
      → Stopped none (run_decision raw_vote reader request)
  unfolding run_decision edge_outcome
  run_decision-short request h = rw h (refl, refl, refl, refl, refl)

  pub run_decision-again :
      (request : DecisionRunRequest F)
      → ltb request.budget_remaining (est_cost request.kind request.diverge) ≡ false
      → contains request.spawned_escalate_keys request.escalate_key ≡ true
      → Stopped none (run_decision raw_vote reader request)
  unfolding run_decision edge_outcome stopped
  run_decision-again request h k = rw (h, k) (refl, refl, refl, refl, refl)

  pub run_decision-tracks :
      (request : DecisionRunRequest F)
      → ltb request.budget_remaining (est_cost request.kind request.diverge) ≡ false
      → contains request.spawned_escalate_keys request.escalate_key ≡ false
      → run_decision raw_vote reader request
        ≡ finished request (tracks raw_vote reader request.kind request)
  unfolding run_decision
  run_decision-tracks request h k = rw (h, k) refl

  -- A decision converges exactly if the budget covers its cost, its point of escalation was not
  -- spawned before, and each track that its kind asks for passes its gate: for a direction, valid
  -- votes of two families, a pick with two votes and no valid vote for a human; for a review,
  -- successful and not blank replies of runners of two families.
  pub run_decision-converged :
      (request : DecisionRunRequest F)
      → (run_decision raw_vote reader request).status ≡ DecisionStatus.converged ↔ (
          (est_cost request.kind request.diverge ≤ request.budget_remaining)
          × (contains request.spawned_escalate_keys request.escalate_key ≡ false)
          × TracksGate request.kind request)
  unfolding status_after
  run_decision-converged request =
      elim (Bool-cases (ltb request.budget_remaining (est_cost request.kind request.diverge))) [
        | inl short ↦
            let stop = (run_decision-short request short).0 in
            (λ h. absurd (ground (arith, h, stop)), λ g. absurd (ground (arith, g.0, short)))
        | inr enough ↦
            elim (Bool-cases (contains request.spawned_escalate_keys request.escalate_key)) [
              | inl again ↦
                  let stop = (run_decision-again request enough again).0 in
                  (λ h. absurd (ground (arith, h, stop)), λ g. absurd (ground (arith, g.1, again)))
              | inr fresh ↦
                  let run = ap (λ o. o.status) (run_decision-tracks request enough fresh) in
                  let gate = status_after-converged request request.kind refl in
                  (
                    λ h. (ground (arith, enough), fresh, gate.0 (sym run ∙ h)),
                    λ g. run ∙ gate.1 g.2,
                  )
            ]
      ]
