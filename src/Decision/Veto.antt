-- ===== src/Decision/Veto.antt =====
-- src/decision.rs: a valid vote for a human is a dissenting vote, so that it vetoes a direction.
use long_task_orchestration.Prelude.{
  ◌≤◌, ◌≡◌, ◌≢◌, ◌↔◌, inl, inr, refl, true, false, List, [], ◌∷◌, Option, some, filter, any, leb,
  arith, Option-cases, ap,
}
use long_task_orchestration.Prelude.Text.{Text, str, text_eq, text_beq, text_beq_iff}
use long_task_orchestration.Decision.{
  DecisionKind, DecisionStatus, DirectionVote, Tally, CandidatePool,
}
use long_task_orchestration.Decision.Count.{asks_human, dissents, vote_key, tally_votes, valid_of}
use long_task_orchestration.Decision.Counts.{votes_for, picks}
use long_task_orchestration.Decision.Majority.{tally_votes-Wins, no_pick-count}
use long_task_orchestration.Decision.Compose.{compose_status, direction_payload}

picks-human : (vote : DirectionVote) → picks (str "needs_human") vote ≡ false
unfolding picks vote_key text_beq
picks-human vote = ground arith

human-key : (vote : DirectionVote) → asks_human vote ≡ true → vote_key vote ≡ str "needs_human"
unfolding vote_key
human-key vote h = ground arith

-- No key of a pick is the key of a vote for a human.
human_key-none : (votes : List DirectionVote) → votes_for (str "needs_human") votes ≡ 0
unfolding votes_for filter
human_key-none [] = refl
human_key-none (vote ∷ votes) = ground (arith, picks-human vote, human_key-none votes)

-- Votes for a human among the dissenting ones are all of them.
any-dissents :
    (pick : Text) (votes : List DirectionVote)
    → pick ≢ str "needs_human"
    → any asks_human (filter (dissents (some pick)) votes) ≡ any asks_human votes
unfolding any filter
any-dissents pick [] h = refl
any-dissents pick (vote ∷ votes) h =
    ground (arith, any-dissents pick votes h, human-key vote, text_beq_iff (vote_key vote) pick)

module _ (valid_task_ids : Option (List Text)) (votes : List DirectionVote) where
  abbrev tally : Tally
  tally = tally_votes valid_task_ids votes

  -- With a supermajority, a vote for a human is a dissenting one.
  pub minority-asks_human :
      2 ≤ tally.majority_count → any asks_human tally.minority ≡ any asks_human tally.votes
  unfolding tally_votes
  minority-asks_human h = elim (Option-cases tally.majority_pick) [
    | inl none_picked ↦ absurd (ground (arith, h, no_pick-count valid_task_ids votes none_picked))
    | inr (pick, picked) ↦
        let won = (tally_votes-Wins valid_task_ids votes pick).0.0 picked in
        rw picked (
          any-dissents pick (valid_of valid_task_ids votes) (λ e. ground (
            arith,
            won.0,
            human_key-none (valid_of valid_task_ids votes),
            ap (λ k. votes_for k (valid_of valid_task_ids votes)) e,
          )))
  ]

  met : tally.supermajority_met ≡ leb 2 tally.majority_count
  unfolding tally_votes
  met = refl

  pub payload_status :
      (kind : DecisionKind) (pool : Option CandidatePool)
      → kind ≢ DecisionKind.review
      → (compose_status kind (some (direction_payload tally pool)) ≡ DecisionStatus.converged)
        ↔ ((2 ≤ tally.majority_count) × (any asks_human tally.votes ≡ false))
  unfolding compose_status direction_payload
  payload_status DecisionKind.direction pool track = ground (arith, met, minority-asks_human)
  payload_status DecisionKind.review pool track = absurd (track refl)
  payload_status DecisionKind.both pool track = ground (arith, met, minority-asks_human)
