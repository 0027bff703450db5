-- ===== src/Decision/Brief.antt =====
-- src/decision.rs: the report for the host, in Markdown.
use long_task_orchestration.Prelude.{
  ℕ, ◌+◌, ◌-◌, ◌||◌, List, [], ◌∷◌, ◌++◌, map, Option, none, some, leb, eqb, length, if◌then◌else◌,
}
use long_task_orchestration.Prelude.Text.{Text, str, trim, show_nat}
use long_task_orchestration.Prelude.Render.{concat, join_with, replace_char, show_bool, set_of}
use long_task_orchestration.Audit.{
  Finding, ReportedConfidence, ReportedConfidenceLevel, Severity, level_str,
}
use long_task_orchestration.Decision.{
  DecisionKind, DecisionStatus, converged, DirectionVote, CandidatePool, DirectionPayload,
  ReviewPayload, DecisionResultPayload, DecisionDissent, decision_kind_label, decision_status_label,
  direction_decision_label,
}
use long_task_orchestration.Decision.Count.{vote_key}

unfoldable pub md_inline : Text → Text
unfolding replace_char trim
md_inline value = trim (replace_char 10 (str " ") value)

unfoldable pub md_cell : Text → Text
unfolding md_inline replace_char
md_cell value = replace_char b'|' (str "\\|") (md_inline value)

unfoldable pub join_or_none : List Text → Text
unfolding join_with
join_or_none [] = str "none"
join_or_none (item ∷ items) = join_with (str ", ") (item ∷ items)

abbrev unwrap_text : Text → Option Text → Text
unwrap_text default none = default
unwrap_text default (some t) = t

-- One line of a list of lines, if there is something to write.
abbrev optional_line : Text → Option Text → Text → List Text
optional_line before none after = []
optional_line before (some t) after = concat (before ∷ md_inline t ∷ after ∷ []) ∷ []

unfoldable pub budget_footer : ℕ → ℕ → ℕ → Text
unfolding show_nat join_with concat
budget_footer consumed available_before next_round_cost =
    let remaining_after = available_before - consumed in
    let enough_next_round = eqb next_round_cost 0 || leb next_round_cost remaining_after in
    join_with (str "\n") (
      []
      ∷ str "---"
      ∷ concat (
          str "**Budget note**: consumed_est="
          ∷ show_nat consumed
          ∷ str " tokens; remaining_est="
          ∷ show_nat remaining_after
          ∷ str " tokens; enough_for_next_round="
          ∷ show_bool enough_next_round
          ∷ str ". Token counts are approximate runner estimates."
          ∷ [])
      ∷ [])

unfoldable pub build_budget_brief : DecisionKind → List Text → ℕ → ℕ → Text
unfolding join_with concat join_or_none decision_kind_label show_nat budget_footer
build_budget_brief kind auditors remaining required = join_with (str "\n") (
    str "# LTO Decision Convergence Brief"
    ∷ []
    ∷ str "## Budget Exhausted"
    ∷ []
    ∷ str "- **Status**: NEEDS_HUMAN"
    ∷ concat (str "- **Kind**: " ∷ decision_kind_label kind ∷ [])
    ∷ concat (str "- **Available agents**: " ∷ join_or_none auditors ∷ [])
    ∷ concat (str "- **Budget remaining**: ~" ∷ show_nat remaining ∷ str " tokens" ∷ [])
    ∷ concat (str "- **Estimated cost for this round**: ~" ∷ show_nat required ∷ str " tokens" ∷ [])
    ∷ []
    ∷ str "Insufficient budget to spawn this deterministic decision round."
    ∷ str "Host judgment is required; no decision has been made by the tool."
    ∷ budget_footer 0 remaining required
    ∷ [])

unfoldable pub build_needs_human_brief : DecisionKind → List Text → Text → ℕ → ℕ → Text
unfolding join_with concat join_or_none decision_kind_label md_inline budget_footer
build_needs_human_brief kind auditors reason budget_remaining est_cost = join_with (str "\n") (
    str "# LTO Decision Convergence Brief"
    ∷ []
    ∷ str "## Needs Human"
    ∷ []
    ∷ str "- **Status**: NEEDS_HUMAN"
    ∷ concat (str "- **Kind**: " ∷ decision_kind_label kind ∷ [])
    ∷ concat (str "- **Reason**: " ∷ md_inline reason ∷ [])
    ∷ concat (str "- **Available agents**: " ∷ join_or_none auditors ∷ [])
    ∷ []
    ∷ str "The deterministic gate could not continue. The host must decide the next action."
    ∷ budget_footer 0 budget_remaining est_cost
    ∷ [])

abbrev vote_row : DirectionVote → Text
vote_row vote = concat (
    str "| "
    ∷ md_cell vote.source
    ∷ str " | "
    ∷ direction_decision_label vote.decision
    ∷ str " | "
    ∷ md_cell vote.value
    ∷ str " | "
    ∷ md_cell vote.reasoning
    ∷ str " |"
    ∷ [])

abbrev vote_item : DirectionVote → Text
vote_item vote = concat (
    str "- "
    ∷ md_inline vote.source
    ∷ str ": "
    ∷ direction_decision_label vote.decision
    ∷ str " -> "
    ∷ md_inline vote.value
    ∷ str " ("
    ∷ md_inline vote.reasoning
    ∷ str ")"
    ∷ [])

-- A heading and the votes under it, if there are any.
abbrev vote_section : Text → List DirectionVote → List Text
vote_section heading [] = []
vote_section heading (vote ∷ votes) = [] ∷ heading ∷ map vote_item (vote ∷ votes)

unfoldable pub direction_convergence_instruction : CandidatePool → Text
unfolding set_of vote_key join_or_none
direction_convergence_instruction pool =
    str
      "Evaluate every merged candidate, including candidates proposed by other agents. Do not favor your own proposal. Valid candidates: "
    ++ join_or_none (set_of (map vote_key pool.candidates))

unfoldable pub append_candidate_pool_brief : CandidatePool → ℕ → List Text
unfolding concat join_or_none show_nat md_inline md_cell direction_decision_label
    direction_convergence_instruction
append_candidate_pool_brief pool convergence_votes =
    let accepted = length pool.candidates in
    let rejected = length pool.invalid_candidates in
    []
    ∷ str "### Divergence Candidate Pool"
    ∷ concat (str "- **Sources**: " ∷ join_or_none pool.sources ∷ [])
    ∷ concat (str "- **Produced candidates**: " ∷ show_nat (accepted + rejected) ∷ [])
    ∷ concat (str "- **Accepted into pool**: " ∷ show_nat accepted ∷ [])
    ∷ concat (str "- **Rejected by candidate gate**: " ∷ show_nat rejected ∷ [])
    ∷ concat (str "- **Convergence votes**: " ∷ show_nat convergence_votes ∷ [])
    ∷ concat (
        str "- **Convergence instruction**: "
        ∷ md_inline (direction_convergence_instruction pool)
        ∷ [])
    ∷ []
    ∷ str "| source | proposal | value | reasoning |"
    ∷ str "|---|---|---|---|"
    ∷ (map vote_row pool.candidates
        ++ vote_section (str "#### Invalid Candidates") pool.invalid_candidates)

abbrev pool_brief : Option CandidatePool → ℕ → List Text
pool_brief none n = []
pool_brief (some pool) n = append_candidate_pool_brief pool n

unfoldable pub append_direction_brief : DirectionPayload → DecisionDissent → List Text
unfolding concat show_nat md_inline md_cell direction_decision_label append_candidate_pool_brief
append_direction_brief direction dissent =
    str "## Direction Track"
    ∷ []
    ∷ concat (str "- **Majority pick**: " ∷ unwrap_text (str "none") direction.pick ∷ [])
    ∷ concat (
        str "- **Majority count**: "
        ∷ show_nat direction.count
        ∷ str "/"
        ∷ show_nat direction.total
        ∷ [])
    ∷ concat (str "- **NEEDS_HUMAN votes**: " ∷ show_nat dissent.needs_human_votes ∷ [])
    ∷ ((if leb 2 dissent.needs_human_votes
          then str
              "- **Escalation signal**: >=2 reviewers voted NEEDS_HUMAN; this is a strong display signal, distinct from the >=1 hard veto gate."
            ∷ []
          else [])
        ++ (optional_line (str "- **Divergence note**: ") dissent.reason []
            ++ (pool_brief direction.candidate_pool (length direction.votes)
                ++ ([]
                    ∷ str "| source | decision | value | reasoning |"
                    ∷ str "|---|---|---|---|"
                    ∷ (map vote_row direction.votes
                        ++ (vote_section (str "### Invalid Votes") dissent.invalid_votes
                            ++ (vote_section (str "### Minority / Dissent") direction.minority
                                ++ ([] ∷ []))))))))

-- `{:?}` of a severity.
abbrev severity_debug : Severity → Text
severity_debug Severity.critical = str "Critical"
severity_debug Severity.high = str "High"
severity_debug Severity.medium = str "Medium"
severity_debug Severity.low = str "Low"

abbrev rationale_text : Option Text → Text
rationale_text none = []
rationale_text (some rationale) = str " — " ++ md_inline rationale

abbrev level_text : Option ReportedConfidenceLevel → Text
level_text none = str "unknown"
level_text (some level) = level_str level

abbrev confidence_line : Option ReportedConfidence → List Text
confidence_line none = []
confidence_line (some confidence) =
    concat (
      str "  - [confidence: "
      ∷ level_text confidence.level
      ∷ rationale_text confidence.rationale
      ∷ str "]"
      ∷ [])
    ∷ []

finding_lines : Finding → List Text
unfolding concat md_inline level_str
finding_lines finding =
    concat (
      str "- **"
      ∷ severity_debug finding.severity
      ∷ str "** ["
      ∷ unwrap_text (str "unknown") finding.source
      ∷ str "] "
      ∷ md_inline finding.claim
      ∷ [])
    ∷ (optional_line (str "  - File: `") finding.file (str "`")
        ++ (optional_line (str "  - Evidence: ") finding.evidence_to_check []
            ++ (confidence_line finding.reported_confidence
                ++ optional_line (str "  - 失效条件: ") finding.invalidated_when [])))

review_lines : List Finding → List Text
unfolding finding_lines
review_lines [] = []
review_lines (finding ∷ findings) = finding_lines finding ++ review_lines findings

unfoldable pub append_review_brief : ReviewPayload → List Text
unfolding concat show_nat review_lines
append_review_brief review =
    str "## Review Track"
    ∷ []
    ∷ concat (str "- **Merged findings**: " ∷ show_nat (length review.findings) ∷ [])
    ∷ (review_lines review.findings ++ ([] ∷ []))

abbrev result_lines : Option DecisionResultPayload → DecisionDissent → List Text
result_lines none dissent = []
result_lines (some (DecisionResultPayload.direction d)) dissent = append_direction_brief d dissent
result_lines (some (DecisionResultPayload.review r)) dissent = append_review_brief r
result_lines (some (DecisionResultPayload.both b)) dissent =
    append_direction_brief b.direction dissent ++ append_review_brief b.review

unfoldable pub build_decision_brief :
    DecisionKind
    → DecisionStatus
    → Option DecisionResultPayload
    → DecisionDissent
    → List Text
    → ℕ
    → ℕ
    → Text
unfolding concat join_with join_or_none show_nat decision_kind_label decision_status_label
    append_direction_brief append_review_brief budget_footer
build_decision_brief kind status result dissent auditors budget_consumed_est available =
    join_with (str "\n") (
      str "# LTO Decision Convergence Brief"
      ∷ []
      ∷ str
          "This is a deterministic fact brief. It presents votes, findings, and budget; the host owns the final judgment."
      ∷ []
      ∷ concat (str "- **Status**: " ∷ decision_status_label status ∷ [])
      ∷ concat (str "- **Kind**: " ∷ decision_kind_label kind ∷ [])
      ∷ concat (str "- **Dispatched to**: " ∷ join_or_none auditors ∷ [])
      ∷ concat
          (str "- **Budget consumed (est)**: ~" ∷ show_nat budget_consumed_est ∷ str " tokens" ∷ [])
      ∷ []
      ∷ (result_lines result dissent
          ++ (str "## Host Readout"
              ∷ []
              ∷ elim status [
                | converged ↦
                    str "The deterministic gates converged. Review the facts above before acting."
                | _ ↦
                    str
                      "The deterministic gates did not converge cleanly. Host judgment is required."
              ]
              ∷ budget_footer budget_consumed_est available budget_consumed_est
              ∷ [])))
