-- ===== src/Tests/DecisionRuns.antt =====
-- src/decision.rs and src/audit.rs at concrete inputs, with a reader of JSON that reads nothing.
use mathlib.Core.List.{Permᴰ}
use long_task_orchestration.Prelude.{
  ℕ, ◌≤◌, ◌<◌, ◌≡◌, ◌↔◌, ◌⊎◌, refl, true, false, List, [], ◌∷◌, Option, none, some,
}
use long_task_orchestration.Prelude.Eq.{contains}
use long_task_orchestration.Prelude.Json.{Json}
use long_task_orchestration.Prelude.Text.{Text, str, text_eq, text_beq, text_ltb, has_substring}
use long_task_orchestration.Prelude.Render.{to_ascii_lowercase}
use long_task_orchestration.AgentJob.{JobStatus}
use long_task_orchestration.Audit.{family, pi}
use long_task_orchestration.Audit.Findings.{Reader}
use long_task_orchestration.Decision.{
  DecisionKind, DecisionStatus, DirectionVote, DecisionRunRequest, pick_task,
}
use long_task_orchestration.Decision.Count.{tally_votes, valid_of}
use long_task_orchestration.Decision.Counts.{votes_for}
use long_task_orchestration.Decision.Gate.{TracksGate, run_decision-converged}
use long_task_orchestration.Decision.Tracks.{Stopped}
use long_task_orchestration.Decision.Majority.{Wins, tally_votes-Wins, tally_votes-perm}
use long_task_orchestration.Decision.Outcome.{Made, run_decision-Made}
use long_task_orchestration.Decision.Run.{run_decision}
use long_task_orchestration.Decision.Compose.{est_cost}
use long_task_orchestration.Decision.Votes.{is_valid_vote}
use long_task_orchestration.Tests.Data.{job_a, result}

abbrev no_reader : Reader ℕ
no_reader = record { from_str = λ t. none; fence_bodies = λ t. [] }

abbrev no_vote : Json ℕ → Option DirectionVote
no_vote value = none

abbrev vote : Text → Text → DirectionVote
vote value source = record {
  decision = pick_task;
  value = value;
  reasoning = str "first";
  source = source;
}

abbrev two_votes : List DirectionVote
two_votes = vote (str "t1") (str "claude") ∷ vote (str "t1") (str "codex") ∷ []

abbrev turned : List DirectionVote
turned = vote (str "t1") (str "codex") ∷ vote (str "t1") (str "claude") ∷ []

-- Two votes for each of two tasks, and one for a third.
abbrev split_votes : List DirectionVote
split_votes =
    vote (str "t2") (str "pi")
    ∷ vote (str "t1") (str "claude")
    ∷ vote (str "t3") (str "agy")
    ∷ vote (str "t2") (str "claude")
    ∷ vote (str "t1") (str "codex")
    ∷ []

abbrev request : DecisionRunRequest ℕ
request = record {
  kind = DecisionKind.both;
  auditors = str "claude" ∷ str "codex" ∷ [];
  budget_remaining = 60000;
  escalate_key = str "p1";
  diverge = false;
  spawned_escalate_keys = str "p0" ∷ [];
  valid_task_ids = some (str "t1" ∷ []);
  task_universe = [];
  candidate_results = [];
  direction_votes = two_votes;
  review_results =
      result JobStatus.ok job_a ∷ record (result JobStatus.ok job_a) { runner = str "codex" } ∷ [];
}

run_decision-converged_example :
    (run_decision no_vote no_reader request).status ≡ DecisionStatus.converged ↔ (
      (est_cost request.kind request.diverge ≤ request.budget_remaining)
      × (contains request.spawned_escalate_keys request.escalate_key ≡ false)
      × TracksGate no_vote no_reader request.kind request)
run_decision-converged_example = run_decision-converged no_vote no_reader request

run_decision-Made_example :
    let o = run_decision no_vote no_reader request in
    let cost = est_cost request.kind request.diverge in
    (((request.budget_remaining < cost)
        ⊎ (contains request.spawned_escalate_keys request.escalate_key ≡ true))
      × Stopped none o)
    ⊎ ((cost ≤ request.budget_remaining)
        × (contains request.spawned_escalate_keys request.escalate_key ≡ false)
        × (Stopped (some request.escalate_key) o ⊎ Made no_vote no_reader request o))
run_decision-Made_example = run_decision-Made no_vote no_reader request

tally_votes-Wins_example :
    let tally = tally_votes none split_votes in
    let key = str "pick_task:t1" in
    (tally.majority_pick ≡ some key ↔ Wins key (valid_of none split_votes))
    × (tally.majority_pick ≡ some key
        → tally.majority_count ≡ votes_for key (valid_of none split_votes))
tally_votes-Wins_example = tally_votes-Wins none split_votes (str "pick_task:t1")

tally_votes-perm_example :
    let tally = tally_votes none two_votes in
    let other = tally_votes none turned in
    (tally.majority_pick ≡ other.majority_pick)
    × (tally.majority_count ≡ other.majority_count)
    × (tally.supermajority_met ≡ other.supermajority_met)
tally_votes-perm_example = tally_votes-perm none two_votes turned (Permᴰ.swap refl refl)

-- Of two keys with two votes each, the one that comes first is picked, with a supermajority of two in
-- five.
split_pick :
    ((tally_votes none split_votes).majority_pick ≡ some (str "pick_task:t1"))
    × ((tally_votes none split_votes).supermajority_met ≡ true)
    × ((tally_votes none split_votes).total_voters ≡ 5)
unfolding tally_votes is_valid_vote text_beq text_ltb
split_pick = (refl, refl, refl)

converges : (run_decision no_vote no_reader request).status ≡ DecisionStatus.converged
unfolding run_decision text_beq is_valid_vote family has_substring to_ascii_lowercase
converges = refl

-- The key `pi` is found in `api`, before `gemini` is tried.
api_family : family (str "gemini-api") ≡ pi
unfolding family has_substring to_ascii_lowercase
api_family = refl
