-- ===== src/Decision/Tracks.antt =====
-- src/decision.rs: the ends of the two tracks of a decision.
use long_task_orchestration.Prelude.{
  ◌≤◌, ◌≡◌, ◌≢◌, ◌↔◌, ◌⊎◌, inl, inr, refl, true, false, not, ◌||◌, List, [], Option, none, some,
  length, any, leb, Bool-cases,
}
use long_task_orchestration.Prelude.Json.{Json}
use long_task_orchestration.Prelude.Result.{ok, err}
use long_task_orchestration.Prelude.Text.{Text, text_eq}
use long_task_orchestration.Audit.Findings.{Reader}
use long_task_orchestration.Decision.{
  DecisionKind, DecisionStatus, DirectionVote, DecisionRunRequest, DecisionDissent, DecisionOutcome,
  Tally, CandidatePool,
}
use long_task_orchestration.Decision.Count.{asks_human, tally_votes}
use long_task_orchestration.Decision.Run.{
  diverge_phase, has_minimum_valid_reviewers, run_direction_phases, direction_track, review_track,
  stopped, direction_found, review_found,
}
use long_task_orchestration.Decision.Compose.{
  candidate_task_ids, has_minimum_vote_families, with_record, edge_outcome, direction_short,
  review_short, compose_status, direction_payload,
}
use long_task_orchestration.Decision.Veto.{payload_status}

-- An outcome that leaves the decision to a human, with nothing spent and nothing sent out.
abbrev pub Stopped : Option Text → DecisionOutcome → Type 0
Stopped key o =
    (o.status ≡ DecisionStatus.needs_human)
    × (o.result ≡ none)
    × (o.dispatched_to ≡ [])
    × (o.budget_consumed_est ≡ 0)
    × (o.record_escalate_key ≡ key)

stopped-Stopped :
    {F : Type 0} (request : DecisionRunRequest F) (reason : Text)
    → Stopped
        (some request.escalate_key)
        (with_record (stopped request reason) request.escalate_key)
unfolding with_record stopped edge_outcome
stopped-Stopped request reason = (refl, refl, refl, refl, refl)

module _ {F : Type 0} (raw_vote : Json F → Option DirectionVote) (reader : Reader F) where
  -- The tally of the track of directions.
  abbrev pub tally_of : DecisionRunRequest F → Tally
  tally_of request = (run_direction_phases raw_vote reader request).0

  tally_of-cases :
      (request : DecisionRunRequest F)
      → (ids : Option (List Text)) × (tally_of request ≡ tally_votes ids request.direction_votes)
  unfolding run_direction_phases
  tally_of-cases request =
      elim (Bool-cases (not request.diverge || leb (length request.candidate_results) 0)) [
        | inl single ↦ (request.valid_task_ids, rw (tally_of, single) refl)
        | inr two_stages ↦
            elim (Bool-cases
              (has_minimum_vote_families (diverge_phase raw_vote reader request).candidates)) [
                | inl enough ↦ (
                  some (candidate_task_ids (diverge_phase raw_vote reader request)),
                  rw (tally_of, two_stages, enough) refl,
                )
                | inr few ↦ (request.valid_task_ids, rw (tally_of, two_stages, few) refl)
              ]
      ]

  -- What the outcome of a track of directions that was not cut short says.
  pub direction_status :
      (kind : DecisionKind) (request : DecisionRunRequest F) (pool : Option CandidatePool)
      → kind ≢ DecisionKind.review
      → (compose_status kind (some (direction_payload (tally_of request) pool))
          ≡ DecisionStatus.converged)
        ↔ ((2 ≤ (tally_of request).majority_count)
            × (any asks_human (tally_of request).votes ≡ false))
  direction_status kind request pool track =
      let (ids, same) = tally_of-cases request in
      rw same (payload_status ids request.direction_votes kind pool track)

  pub direction_track-cases :
      (request : DecisionRunRequest F)
      → ((has_minimum_vote_families (tally_of request).votes ≡ false)
          × (o : DecisionOutcome) × (direction_track raw_vote reader request ≡ err o)
          × Stopped (some request.escalate_key) o)
        ⊎ ((has_minimum_vote_families (tally_of request).votes ≡ true)
            × (direction_track raw_vote reader request
                ≡ ok (direction_found raw_vote reader request)))
  unfolding direction_track
  direction_track-cases request =
      elim (Bool-cases (has_minimum_vote_families (tally_of request).votes)) [
        | inl enough ↦ inr (enough, rw enough refl)
        | inr few ↦ inl (
          few,
          with_record (stopped request direction_short) request.escalate_key,
          rw few refl,
          stopped-Stopped request direction_short,
        )
      ]

  pub review_track-cases :
      (request : DecisionRunRequest F) (dissent : DecisionDissent)
      → ((has_minimum_valid_reviewers request.review_results ≡ false)
          × (o : DecisionOutcome) × (review_track raw_vote reader request dissent ≡ err o)
          × Stopped (some request.escalate_key) o)
        ⊎ ((has_minimum_valid_reviewers request.review_results ≡ true)
            × (review_track raw_vote reader request dissent
                ≡ ok (review_found raw_vote reader request dissent)))
  unfolding review_track
  review_track-cases request dissent =
      elim (Bool-cases (has_minimum_valid_reviewers request.review_results)) [
        | inl enough ↦ inr (enough, rw enough refl)
        | inr few ↦ inl (
          few,
          with_record (stopped request review_short) request.escalate_key,
          rw few refl,
          stopped-Stopped request review_short,
        )
      ]
