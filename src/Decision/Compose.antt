-- ===== src/Decision/Compose.antt =====
-- src/decision.rs: the cost of a decision and the parts of its outcome.
use long_task_orchestration.Prelude.{
  ℕ, ◌*◌, Bool, true, false, not, ◌||◌, List, [], ◌++◌, map, Option, none, some, min, leb, length,
  any, filter, if◌then◌else◌,
}
use long_task_orchestration.Prelude.Eq.{◌==◌}
use long_task_orchestration.Prelude.Render.{set_of}
use long_task_orchestration.Prelude.Text.{Text, str, text_eq}
use long_task_orchestration.AgentJob.{status_eq}
use long_task_orchestration.Audit.{Finding}
use long_task_orchestration.Audit.Findings.{or_else}
use long_task_orchestration.Dispatch.{u64_max}
use long_task_orchestration.Decision.{
  est_tokens_per_round, DecisionKind, DecisionStatus, pick_task, DirectionVote, CandidatePool,
  Tally, DirectionPayload, ReviewPayload, DecisionResultPayload, DecisionDissent, DecisionOutcome,
  decision_eq,
}
use long_task_orchestration.Decision.Count.{push_families, asks_human}

unfoldable pub rounds_needed : DecisionKind → Bool → ℕ
rounds_needed DecisionKind.both true = 3
rounds_needed DecisionKind.both false = 2
rounds_needed DecisionKind.direction true = 2
rounds_needed DecisionKind.direction false = 1
rounds_needed DecisionKind.review diverge = 1

-- `EST_TOKENS_PER_ROUND.saturating_mul(rounds_needed(kind, diverge))`
unfoldable pub est_cost : DecisionKind → Bool → ℕ
unfolding rounds_needed
est_cost kind diverge = min (est_tokens_per_round * rounds_needed kind diverge) u64_max

unfoldable pub has_minimum_vote_families : List DirectionVote → Bool
unfolding push_families
has_minimum_vote_families votes = leb 2 (length (push_families [] (map (λ v. v.source) votes)))

abbrev pub no_dissent : DecisionDissent
no_dissent = record {
  reason = none;
  minority_votes = [];
  invalid_votes = [];
  invalid_candidates = [];
  needs_human_votes = 0;
  findings_for_host_judgment = [];
}

unfoldable pub edge_outcome : DecisionKind → Text → Text → DecisionOutcome
edge_outcome kind reason brief = record {
  status = DecisionStatus.needs_human;
  kind = kind;
  result = none;
  dissent = record no_dissent { reason = some reason };
  brief = brief;
  dispatched_to = [];
  budget_consumed_est = 0;
  record_escalate_key = none;
}

unfoldable pub with_record : DecisionOutcome → Text → DecisionOutcome
with_record outcome key = record outcome { record_escalate_key = some key }

unfoldable pub direction_payload : Tally → Option CandidatePool → DirectionPayload
direction_payload tally candidate_pool = record {
  converged = tally.supermajority_met;
  pick = tally.majority_pick;
  count = tally.majority_count;
  total = tally.total_voters;
  votes = tally.votes;
  minority = tally.minority;
  candidate_pool = candidate_pool;
}

unfoldable pub compose_status : DecisionKind → Option DirectionPayload → DecisionStatus
unfolding any
compose_status DecisionKind.review direction = DecisionStatus.converged
compose_status _ none = DecisionStatus.needs_info
compose_status _ (some direction) =
    if not direction.converged || any asks_human direction.minority
    then DecisionStatus.needs_info
    else DecisionStatus.converged

unfoldable pub compose_payload :
    DecisionKind → Option DirectionPayload → Option ReviewPayload → Option DecisionResultPayload
compose_payload DecisionKind.direction (some d) review = some (DecisionResultPayload.direction d)
compose_payload DecisionKind.review direction (some r) = some (DecisionResultPayload.review r)
compose_payload DecisionKind.both (some d) (some r) =
    some (DecisionResultPayload.both (record { direction = d; review = r }))
compose_payload _ _ _ = none

unfoldable pub candidate_sources : List DirectionVote → List DirectionVote → List Text
unfolding set_of
candidate_sources candidates invalid_candidates =
    set_of (map (λ c. c.source) (candidates ++ invalid_candidates))

unfoldable pub candidate_task_ids : CandidatePool → List Text
unfolding filter set_of
candidate_task_ids pool =
    set_of (map (λ c. c.value) (filter (λ c. c.decision == pick_task) pool.candidates))

-- `if finding.source.is_none() { finding.source = Some(runner) }` for each finding.
abbrev pub with_source : Text → Finding → Finding
with_source runner finding = record finding { source = or_else finding.source (some runner) }

unfoldable pub fell_back : Text
fell_back =
    str
      "direction diverge: fewer than two heterogeneous candidate sources; fell back to single-stage convergence"

abbrev pub invalid_of : Option CandidatePool → List DirectionVote
invalid_of none = []
invalid_of (some pool) = pool.invalid_candidates

unfoldable pub direction_short : Text
direction_short = str "direction track: fewer than two valid heterogeneous reviewers"

unfoldable pub review_short : Text
review_short = str "review track: fewer than two valid heterogeneous reviewers"

unfoldable pub respawn : Text
respawn = str "same escalate point already spawned once - refusing re-spawn (G5 limit)"
