-- ===== src/Decision/Count.antt =====
-- src/decision.rs: the count of the votes.
use long_task_orchestration.Prelude.{
  ℕ, suc, Bool, true, false, not, ◌||◌, List, [], ◌∷◌, ◌++◌, Option, none, some, filter, length,
  leb, ltb, eqb, if◌then◌else◌,
}
use long_task_orchestration.Prelude.Eq.{◌==◌, contains}
use long_task_orchestration.Prelude.BTreeMap.{get, insert, text_key}
use long_task_orchestration.Prelude.Text.{Text, str, text_eq, text_ltb}
use long_task_orchestration.Audit.{family, family_eq, RunnerFamily}
use long_task_orchestration.Decision.{
  DirectionVote, DirectionDecision, pick_task, pick_pattern, needs_human, decision_eq, Tally,
}
use long_task_orchestration.Decision.Votes.{is_valid_vote}

unfoldable pub vote_key : DirectionVote → Text
vote_key vote = elim vote.decision [
  | pick_task ↦ str "pick_task:" ++ vote.value
  | pick_pattern ↦ str "pick_pattern:" ++ vote.value
  | needs_human ↦ str "needs_human"
]

abbrev pub asks_human : DirectionVote → Bool
asks_human vote = vote.decision == DirectionDecision.needs_human

abbrev pub or_zero : Option ℕ → ℕ
or_zero none = 0
or_zero (some n) = n

-- `*counts.entry(key).or_default() += 1` for each vote that is not for a human.
unfoldable pub count_votes : List DirectionVote → List (Text × ℕ) → List (Text × ℕ)
unfolding get insert vote_key
count_votes [] counts = counts
count_votes (vote ∷ votes) counts =
    let counted = insert (vote_key vote) (suc (or_zero (get (vote_key vote) counts))) counts in
    count_votes votes (if asks_human vote then counts else counted)

-- The comparison of `max_by` says that the entry kept is greater than the next one: a larger count,
-- or the same count and the smaller key.
abbrev pub stays_ahead : Text × ℕ → Text × ℕ → Bool
unfolding text_ltb
stays_ahead (k, n) (j, m) = ltb m n || (if eqb n m then text_ltb k j else false)

unfoldable pub max_from : Text × ℕ → List (Text × ℕ) → Text × ℕ
max_from best [] = best
max_from best (entry ∷ entries) = max_from (if stays_ahead best entry then best else entry) entries

unfoldable pub max_by : List (Text × ℕ) → Option (Text × ℕ)
unfolding max_from
max_by [] = none
max_by (entry ∷ entries) = some (max_from entry entries)

abbrev pub pick_of : Option (Text × ℕ) → Option Text
pick_of none = none
pick_of (some (key, n)) = some key

abbrev pub count_of : Option (Text × ℕ) → ℕ
count_of none = 0
count_of (some (key, n)) = n

-- `Some(vote_key(vote)) != majority_pick`
abbrev pub dissents : Option Text → DirectionVote → Bool
dissents none vote = true
dissents (some pick) vote = not (vote_key vote == pick)

module _ (valid_task_ids : Option (List Text)) where
  unfoldable pub valid_of : List DirectionVote → List DirectionVote
  unfolding filter
  valid_of votes = filter (λ vote. is_valid_vote vote valid_task_ids) votes

  unfoldable pub tally_votes : List DirectionVote → Tally
  unfolding filter count_votes max_by valid_of
  tally_votes votes =
      let valid = valid_of votes in
      let most = max_by (count_votes valid []) in
      let met = leb 2 (count_of most) in
      let for_human = length (filter asks_human valid) in
      record {
        supermajority_met = met;
        majority_pick = pick_of most;
        majority_count = count_of most;
        total_voters = length valid;
        votes = valid;
        minority = filter (dissents (pick_of most)) valid;
        needs_human_votes = for_human;
        needs_info = not met || leb 1 for_human;
        invalid_votes = filter (λ vote. not (is_valid_vote vote valid_task_ids)) votes;
      }

-- `if !families.contains(&family) { families.push(family) }` for each source.
unfoldable pub push_families : List RunnerFamily → List Text → List RunnerFamily
push_families families [] = families
push_families families (source ∷ sources) =
    push_families
      (if contains families (family source) then families else families ++ (family source ∷ []))
      sources
