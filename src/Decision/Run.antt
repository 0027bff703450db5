-- ===== src/Decision/Run.antt =====
-- src/decision.rs: the decision itself. An early return is an error value that holds the outcome. What
-- a reader of JSON gives for the findings and the candidates is a parameter of the run.
use long_task_orchestration.Prelude.{
  Bool, true, false, not, ◌&&◌, ◌||◌, List, [], ◌∷◌, ◌++◌, map, Option, none, some, leb, ltb,
  length, filter, if◌then◌else◌,
}
use long_task_orchestration.Prelude.Eq.{◌==◌, contains}
use long_task_orchestration.Prelude.Json.{Json}
use long_task_orchestration.Prelude.Result.{Result, ok, err, ◌>>=◌}
use long_task_orchestration.Prelude.Text.{Text, str, text_eq, trim, is_empty}
use long_task_orchestration.AgentJob.{AgentResult, JobStatus, status_eq}
use long_task_orchestration.Audit.{Finding, Severity}
use long_task_orchestration.Audit.Findings.{
  Reader, parse_findings_values, parse_valid_findings_values, parse_findings_text,
}
use long_task_orchestration.Decision.{
  DecisionKind, DirectionVote, CandidatePool, Tally, DecisionRunRequest, DirectionPayload,
  ReviewPayload, DecisionDissent, DecisionOutcome, decision_eq,
}
use long_task_orchestration.Decision.Brief.{
  build_budget_brief, build_needs_human_brief, build_decision_brief,
}
use long_task_orchestration.Decision.Count.{push_families, tally_votes}
use long_task_orchestration.Decision.Votes.{merge_candidates, validate_candidate}
use long_task_orchestration.Decision.Compose.{
  est_cost, has_minimum_vote_families, no_dissent, edge_outcome, with_record, direction_payload,
  compose_status, compose_payload, candidate_sources, candidate_task_ids, with_source, fell_back,
  invalid_of, direction_short, review_short, respawn,
}

module _ {F : Type 0} where
  unfoldable pub candidate_task_base : DecisionRunRequest F → Option (List Text)
  candidate_task_base request = elim request.task_universe [
    | [] ↦ request.valid_task_ids
    | id ∷ ids ↦ some (id ∷ ids)
  ]

  abbrev pub valid_review : AgentResult F → Bool
  valid_review r = r.status == JobStatus.ok && not (is_empty (trim r.reply_text))

  unfoldable pub has_minimum_valid_reviewers : List (AgentResult F) → Bool
  unfolding push_families filter
  has_minimum_valid_reviewers results =
      leb 2 (length (push_families [] (map (λ r. r.runner) (filter valid_review results))))

  -- The findings under `result.findings`: all of them, or those that can be read.
  abbrev stated_findings : AgentResult F → List Finding
  stated_findings result = elim (parse_findings_values result.findings) [
    | some findings ↦ findings
    | none ↦ parse_valid_findings_values result.findings
  ]

  -- The outcome of a run that stops for the given reason.
  unfoldable pub stopped : DecisionRunRequest F → Text → DecisionOutcome
  unfolding edge_outcome build_needs_human_brief est_cost
  stopped request reason = edge_outcome request.kind reason (
      build_needs_human_brief request.kind request.auditors reason request.budget_remaining
        (est_cost request.kind request.diverge))

  unfoldable pub decided :
      DecisionRunRequest F
      → DecisionDissent × Option DirectionPayload × Option ReviewPayload
      → DecisionOutcome
  unfolding compose_status compose_payload build_decision_brief est_cost
  decided request (dissent, direction, review) =
      let cost = est_cost request.kind request.diverge in
      let status = compose_status request.kind direction in
      let result = compose_payload request.kind direction review in
      record {
        status = status;
        kind = request.kind;
        result = result;
        dissent = dissent;
        brief =
            build_decision_brief request.kind status result dissent request.auditors cost
              request.budget_remaining;
        dispatched_to = request.auditors;
        budget_consumed_est = cost;
        record_escalate_key = some request.escalate_key;
      }

  -- The outcome of the tracks, cut short or not.
  unfoldable pub finished :
      DecisionRunRequest F
      → Result DecisionOutcome (DecisionDissent × Option DirectionPayload × Option ReviewPayload)
      → DecisionOutcome
  unfolding decided
  finished request (ok found) = decided request found
  finished request (err outcome) = outcome

  module _ (raw_vote : Json F → Option DirectionVote) (reader : Reader F) where
    abbrev reply_finding : AgentResult F → Finding
    reply_finding result = record {
      severity = Severity.medium;
      claim = result.reply_text;
      reported_confidence = none;
      invalidated_when = none;
      evidence_to_check = none;
      file = none;
      source = some result.runner;
    }

    unfoldable pub reply_findings : AgentResult F → List Finding
    unfolding parse_findings_text
    reply_findings result = elim (parse_findings_text reader result.reply_text) [
      | some findings ↦ map (with_source result.runner) findings
      | none ↦ if is_empty (trim result.reply_text) then [] else reply_finding result ∷ []
    ]

    unfoldable pub findings_of : AgentResult F → List Finding
    unfolding parse_findings_values parse_valid_findings_values reply_findings
    findings_of result = elim (result.status == JobStatus.ok) [
      | false ↦ []
      | true ↦ elim (stated_findings result) [
        | [] ↦ reply_findings result
        | finding ∷ findings ↦ map (with_source result.runner) (finding ∷ findings)
      ]
    ]

    unfoldable pub merge_findings : List (AgentResult F) → List Finding
    unfolding findings_of
    merge_findings [] = []
    merge_findings (result ∷ results) = findings_of result ++ merge_findings results

    unfoldable pub diverge_phase : DecisionRunRequest F → CandidatePool
    unfolding merge_candidates validate_candidate candidate_sources candidate_task_base filter
    diverge_phase request =
        let proposed = merge_candidates raw_vote reader request.candidate_results in
        let task_base = candidate_task_base request in
        let candidates = filter (λ c. validate_candidate c task_base) proposed in
        let invalid_candidates = filter (λ c. not (validate_candidate c task_base)) proposed in
        record {
          candidates = candidates;
          invalid_candidates = invalid_candidates;
          sources = candidate_sources candidates invalid_candidates;
        }

    unfoldable pub run_direction_phases :
        DecisionRunRequest F → Tally × Option CandidatePool × Option Text
    unfolding tally_votes diverge_phase has_minimum_vote_families candidate_task_ids fell_back
    run_direction_phases request =
        let single = tally_votes request.valid_task_ids request.direction_votes in
        let pool = diverge_phase request in
        if not request.diverge || leb (length request.candidate_results) 0
        then (single, none, none)
        else if not (has_minimum_vote_families pool.candidates)
        then (single, some pool, some fell_back)
        else (tally_votes (some (candidate_task_ids pool)) request.direction_votes, some pool, none)

    -- What the track of directions finds.
    unfoldable pub direction_found : DecisionRunRequest F → DecisionDissent × DirectionPayload
    unfolding run_direction_phases direction_payload
    direction_found request =
        let (tally, pool, fallback) = run_direction_phases request in
        (
          record {
            reason = fallback;
            minority_votes = tally.minority;
            invalid_votes = tally.invalid_votes;
            invalid_candidates = invalid_of pool;
            needs_human_votes = tally.needs_human_votes;
            findings_for_host_judgment = [];
          },
          direction_payload tally pool,
        )

    unfoldable pub direction_track :
        DecisionRunRequest F → Result DecisionOutcome (DecisionDissent × DirectionPayload)
    unfolding run_direction_phases has_minimum_vote_families stopped with_record direction_short
        direction_found
    direction_track request =
        if not (has_minimum_vote_families (run_direction_phases request).0.votes)
        then err (with_record (stopped request direction_short) request.escalate_key)
        else ok (direction_found request)

    -- What the track of reviews finds, with the findings put into the dissent.
    unfoldable pub review_found :
        DecisionRunRequest F → DecisionDissent → DecisionDissent × ReviewPayload
    unfolding merge_findings
    review_found request dissent =
        let findings = merge_findings request.review_results in
        (record dissent { findings_for_host_judgment = findings }, record { findings = findings })

    unfoldable pub review_track :
        DecisionRunRequest F
        → DecisionDissent
        → Result DecisionOutcome (DecisionDissent × ReviewPayload)
    unfolding has_minimum_valid_reviewers stopped with_record review_short review_found
    review_track request dissent =
        if not (has_minimum_valid_reviewers request.review_results)
        then err (with_record (stopped request review_short) request.escalate_key)
        else ok (review_found request dissent)

    -- The tracks that the kind of the decision asks for.
    unfoldable pub tracks :
        DecisionKind
        → DecisionRunRequest F
        → Result DecisionOutcome (DecisionDissent × Option DirectionPayload × Option ReviewPayload)
    unfolding direction_track review_track
    tracks DecisionKind.direction request =
        direction_track request >>= λ (dissent, d). ok (dissent, some d, none)
    tracks DecisionKind.review request =
        review_track request no_dissent >>= λ (dissent, r). ok (dissent, none, some r)
    tracks DecisionKind.both request = direction_track request >>= λ (dissent, d).
        review_track request dissent >>= λ (all_dissent, r). ok (all_dissent, some d, some r)

    unfoldable pub run_decision : DecisionRunRequest F → DecisionOutcome
    unfolding est_cost edge_outcome build_budget_brief contains stopped respawn tracks finished
    run_decision request =
        let cost = est_cost request.kind request.diverge in
        if ltb request.budget_remaining cost
        then edge_outcome request.kind (str "budget_exhausted")
            (build_budget_brief request.kind request.auditors request.budget_remaining cost)
        else if contains request.spawned_escalate_keys request.escalate_key
        then stopped request respawn
        else finished request (tracks request.kind request)
