-- ===== src/Decision/Votes.antt =====
-- src/decision.rs: votes and candidates out of the results of agents, and which of them are valid.
-- serde's reader of one vote (`RawDirectionVote`) is a parameter, with the reader of JSON texts.
use long_task_orchestration.Prelude.{
  ℕ, suc, ◌+◌, Bool, true, false, ◌||◌, List, [], ◌∷◌, ◌++◌, Option, none, some, if◌then◌else◌,
}
use long_task_orchestration.Prelude.Eq.{◌==◌, contains}
use long_task_orchestration.Prelude.Text.{Text, str, text_eq, trim, is_empty}
use long_task_orchestration.Prelude.Json.{
  Json, array, object, Items, nil, cons, Fields, end, field, member, items_of,
}
use long_task_orchestration.AgentJob.{AgentResult, JobStatus, status_eq}
use long_task_orchestration.Audit.Findings.{Reader, and_then, or_else, find_map}
use long_task_orchestration.Decision.{DirectionVote, pick_task, pick_pattern, needs_human}

pub record ParsedDirectionVotes : Type 0 where
  pub candidates : List DirectionVote
  pub skipped_count : ℕ

abbrev pub no_votes : ParsedDirectionVotes
no_votes = record { candidates = []; skipped_count = 0 }

-- One more vote in front, or one more that was skipped.
abbrev pub push_vote : Option DirectionVote → ParsedDirectionVotes → ParsedDirectionVotes
push_vote none parsed = record parsed { skipped_count = suc parsed.skipped_count }
push_vote (some vote) parsed = record parsed { candidates = vote ∷ parsed.candidates }

abbrev pub push_votes : Option ParsedDirectionVotes → ParsedDirectionVotes → ParsedDirectionVotes
push_votes none parsed = record parsed { skipped_count = suc parsed.skipped_count }
push_votes (some votes) parsed = record {
  candidates = votes.candidates ++ parsed.candidates;
  skipped_count = votes.skipped_count + parsed.skipped_count;
}

-- `(!parsed.candidates.is_empty()).then_some(parsed)`
abbrev pub some_votes : ParsedDirectionVotes → Option ParsedDirectionVotes
some_votes parsed = elim parsed.candidates [ [] ↦ none | vote ∷ votes ↦ some parsed ]

module _ {F : Type 0} (raw_vote : Json F → Option DirectionVote) where
  unfoldable pub vote_objects : Items F → ParsedDirectionVotes
  vote_objects nil = no_votes
  vote_objects (cons item items) = push_vote (raw_vote item) (vote_objects items)

  unfoldable mutual
    unfolding vote_objects

    pub parse_direction_vote_value : Json F → Option ParsedDirectionVotes
    parse_direction_vote_value (array items) = some_votes (vote_objects items)
    parse_direction_vote_value (object fs) = elim (nested_candidates fs) [
      | some parsed ↦ parsed
      | none ↦ elim (member (str "decision") (object fs)) [
        | none ↦ none
        | some _ ↦
            and_then (raw_vote (object fs))
              (λ vote. some (record { candidates = vote ∷ []; skipped_count = 0 }))
      ]
    ]
    parse_direction_vote_value _ = none

    -- The member `candidates`, if it is an array: its votes.
    pub nested_candidates : Fields F → Option (Option ParsedDirectionVotes)
    nested_candidates end = none
    nested_candidates (field name v rest) =
        let here = candidates_array v in
        let later = nested_candidates rest in if name == str "candidates" then here else later

    pub candidates_array : Json F → Option (Option ParsedDirectionVotes)
    candidates_array (array items) = some (some_votes (vote_values items))
    candidates_array _ = none

    pub vote_values : Items F → ParsedDirectionVotes
    vote_values nil = no_votes
    vote_values (cons item items) = push_votes (parse_direction_vote_value item) (vote_values items)

  unfoldable pub parse_direction_vote_values : List (Json F) → Option ParsedDirectionVotes
  unfolding vote_values
  parse_direction_vote_values values = some_votes (vote_values (items_of values))

  unfoldable pub fill_missing_sources : List DirectionVote → Text → List DirectionVote
  fill_missing_sources [] runner = []
  fill_missing_sources (candidate ∷ candidates) runner =
      (if is_empty (trim candidate.source) then record candidate { source = runner } else candidate)
      ∷ fill_missing_sources candidates runner

  module _ (reader : Reader F) where
    unfoldable pub parse_direction_votes_json : Text → Option (List DirectionVote)
    unfolding parse_direction_vote_value
    parse_direction_votes_json text =
        and_then (reader.from_str (trim text))
          λ value. and_then (parse_direction_vote_value value) λ parsed. some parsed.candidates

    unfoldable pub parse_direction_votes_text : Text → Option (List DirectionVote)
    unfolding parse_direction_votes_json find_map
    parse_direction_votes_text text =
        or_else (parse_direction_votes_json (trim text))
          (find_map parse_direction_votes_json (reader.fence_bodies text))

    -- The candidates of one result: of its findings, or else of its reply.
    unfoldable pub candidates_of : AgentResult F → List DirectionVote
    unfolding parse_direction_vote_values fill_missing_sources parse_direction_votes_text
    candidates_of result = elim (result.status == JobStatus.ok) [
      | false ↦ []
      | true ↦ elim (parse_direction_vote_values result.findings) [
        | some parsed ↦ fill_missing_sources parsed.candidates result.runner
        | none ↦ elim (parse_direction_votes_text result.reply_text) [
          | some candidates ↦ fill_missing_sources candidates result.runner
          | none ↦ []
        ]
      ]
    ]

    unfoldable pub merge_candidates : List (AgentResult F) → List DirectionVote
    unfolding candidates_of
    merge_candidates [] = []
    merge_candidates (result ∷ results) = candidates_of result ++ merge_candidates results

unfoldable pub is_legal_pattern : Text → Bool
is_legal_pattern value =
    value == str "linear"
    || value == str "fan-out"
    || value == str "adversarial"
    || value == str "tournament"
    || value == str "loop"

-- `ids.map(|ids| ids.contains(value)).unwrap_or(default)`
abbrev pub known_id : Bool → Option (List Text) → Text → Bool
known_id default none value = default
known_id default (some ids) value = contains ids value

unfoldable pub validate_candidate : DirectionVote → Option (List Text) → Bool
unfolding is_legal_pattern contains
validate_candidate candidate task_base = elim candidate.decision [
  | pick_task ↦ known_id false task_base candidate.value
  | pick_pattern ↦ is_legal_pattern candidate.value
  | needs_human ↦ true
]

unfoldable pub is_valid_vote : DirectionVote → Option (List Text) → Bool
unfolding is_legal_pattern contains
is_valid_vote vote valid_task_ids = elim vote.decision [
  | pick_task ↦ known_id true valid_task_ids vote.value
  | pick_pattern ↦ is_legal_pattern vote.value
  | needs_human ↦ true
]
