-- ===== src/Decision.antt =====
-- src/decision.rs: the convergence of reviewers on a direction or on a review. This file has the
-- requests, votes and outcomes; `Votes` reads and validates votes, `Count` counts them, `Brief` writes
-- the report, `Compose` has the parts of an outcome, and `Run` is the decision itself. The other
-- modules prove what they do: `Order`, `Counts` and `Majority` for the tally, `Families` and `Veto` for
-- the gates, and `Tracks`, `Gate` and `Outcome` for the decision.
pub mod Votes
pub mod Brief
pub mod Count
pub mod Compose
pub mod Run
pub mod Order
pub mod Counts
pub mod Majority
pub mod Families
pub mod Veto
pub mod Tracks
pub mod Gate
pub mod Outcome
use long_task_orchestration.Prelude.{ℕ, Bool, true, false, List, Option, ◌≡◌, ◌↔◌, arith}
use long_task_orchestration.Prelude.Eq.{PartialEq}
use long_task_orchestration.Prelude.Text.{Text, str}
use long_task_orchestration.AgentJob.{AgentResult}
use long_task_orchestration.Audit.{Finding}

abbrev pub est_tokens_per_round : ℕ
est_tokens_per_round = 18000

pub data DecisionKind : Type 0 where
  direction review both : DecisionKind

pub data DecisionStatus : Type 0 where
  converged needs_info needs_human : DecisionStatus

pub data DirectionDecision : Type 0 where
  pick_task pick_pattern needs_human : DirectionDecision

abbrev pub decision_beq : DirectionDecision → DirectionDecision → Bool
decision_beq pick_task pick_task = true
decision_beq pick_pattern pick_pattern = true
decision_beq DirectionDecision.needs_human DirectionDecision.needs_human = true
decision_beq _ _ = false

pub decision_beq_iff : (a b : DirectionDecision) → decision_beq a b ≡ true ↔ (a ≡ b)
decision_beq_iff a b = ground arith

instance abbrev pub decision_eq : PartialEq DirectionDecision
decision_eq = record { eq = decision_beq; eq_iff = decision_beq_iff }

pub record DirectionVote : Type 0 where
  pub decision : DirectionDecision
  pub value : Text
  pub reasoning : Text
  pub source : Text

pub record CandidatePool : Type 0 where
  pub candidates : List DirectionVote
  pub invalid_candidates : List DirectionVote
  pub sources : List Text

pub record Tally : Type 0 where
  pub supermajority_met : Bool
  pub majority_pick : Option Text
  pub majority_count : ℕ
  pub total_voters : ℕ
  pub votes : List DirectionVote
  pub minority : List DirectionVote
  pub needs_human_votes : ℕ
  pub needs_info : Bool
  pub invalid_votes : List DirectionVote

-- The sets of texts are lists.
pub record DecisionRunRequest (F : Type 0) : Type 0 where
  pub kind : DecisionKind
  pub auditors : List Text
  pub budget_remaining : ℕ  -- u64
  pub escalate_key : Text
  pub diverge : Bool
  pub spawned_escalate_keys : List Text
  pub valid_task_ids : Option (List Text)
  pub task_universe : List Text
  pub candidate_results : List (AgentResult F)
  pub direction_votes : List DirectionVote
  pub review_results : List (AgentResult F)

pub record DirectionPayload : Type 0 where
  pub converged : Bool
  pub pick : Option Text
  pub count : ℕ
  pub total : ℕ
  pub votes : List DirectionVote
  pub minority : List DirectionVote
  pub candidate_pool : Option CandidatePool

pub record ReviewPayload : Type 0 where
  pub findings : List Finding

pub record BothPayload : Type 0 where
  pub direction : DirectionPayload
  pub review : ReviewPayload

pub data DecisionResultPayload : Type 0 where
  direction : DirectionPayload → DecisionResultPayload
  review : ReviewPayload → DecisionResultPayload
  both : BothPayload → DecisionResultPayload

pub record DecisionDissent : Type 0 where
  pub reason : Option Text
  pub minority_votes : List DirectionVote
  pub invalid_votes : List DirectionVote
  pub invalid_candidates : List DirectionVote
  pub needs_human_votes : ℕ
  pub findings_for_host_judgment : List Finding

pub record DecisionOutcome : Type 0 where
  pub status : DecisionStatus
  pub kind : DecisionKind
  pub result : Option DecisionResultPayload
  pub dissent : DecisionDissent
  pub brief : Text
  pub dispatched_to : List Text
  pub budget_consumed_est : ℕ
  pub record_escalate_key : Option Text

unfoldable pub decision_kind_label : DecisionKind → Text
decision_kind_label DecisionKind.direction = str "direction"
decision_kind_label DecisionKind.review = str "review"
decision_kind_label DecisionKind.both = str "both"

unfoldable pub decision_status_label : DecisionStatus → Text
decision_status_label DecisionStatus.converged = str "converged"
decision_status_label DecisionStatus.needs_info = str "needs_human"
decision_status_label DecisionStatus.needs_human = str "needs_human"

unfoldable pub direction_decision_label : DirectionDecision → Text
direction_decision_label pick_task = str "pick_task"
direction_decision_label pick_pattern = str "pick_pattern"
direction_decision_label DirectionDecision.needs_human = str "needs_human"
