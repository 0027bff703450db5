-- ===== src/Decision/Majority.antt =====
-- src/decision.rs: what the tally of the votes picks, against a description of it that does not count.
use mathlib.Core.List.{Memᴰ, Permᴰ}
use long_task_orchestration.Prelude.{
  ℕ, suc, ◌≤◌, ◌≡◌, ◌↔◌, ◌⊎◌, inl, inr, refl, sym, ap, ◌∙◌, subst, List, [], ◌∷◌, Option, none,
  some, filter, arith, Bool-cases, Option-cases, leb,
}
use long_task_orchestration.Prelude.BTreeMap.{get, insert, get-insert, text_key}
use long_task_orchestration.Prelude.Text.{Text}
use long_task_orchestration.Prelude.TextOrder.{text_ltb_tri}
use long_task_orchestration.Decision.{DirectionVote, Tally}
use long_task_orchestration.Decision.Count.{
  asks_human, count_votes, max_by, max_from, or_zero, pick_of, count_of, tally_votes, valid_of,
  vote_key,
}
use long_task_orchestration.Decision.Counts.{
  votes_for, get-count_votes, count_votes-Memᴰ, Memᴰ_of_get, get_of_Memᴰ, count_votes-Sorted,
}
use long_task_orchestration.Decision.Order.{Behind, max_from-Behind, max_from-Memᴰ}

max_by-cases :
    (m : List (Text × ℕ))
    → ((m ≡ []) × (max_by m ≡ none))
      ⊎ ((k : Text) × (n : ℕ) × (max_by m ≡ some (k, n))
          × Memᴰ (k, n) m
          × ((e : Text × ℕ) → Memᴰ e m → Behind e (k, n)))
unfolding max_by
max_by-cases [] = inl (refl, refl)
max_by-cases (e ∷ es) =
    let best = max_from e es in inr (best.0, best.1, refl, max_from-Memᴰ e es, max_from-Behind e es)

-- No key is counted zero times.
count_votes-positive :
    (key : Text) (votes : List DirectionVote) (m : List (Text × ℕ))
    → get key (count_votes votes m) ≡ some 0
    → get key m ≡ some 0
unfolding count_votes
count_votes-positive key [] m h = h
count_votes-positive key (vote ∷ votes) m h = elim (Bool-cases (asks_human vote)) [
  | inl human ↦ count_votes-positive key votes m (rw human at h)
  | inr picked ↦
      let counted = insert (vote_key vote) (suc (or_zero (get (vote_key vote) m))) m in
      let earlier : get key counted ≡ some 0 =
        count_votes-positive key votes counted (rw picked at h) in
      ground
        (arith, earlier, get-insert (vote_key vote) key (suc (or_zero (get (vote_key vote) m))) m)
]

-- The key wins the votes: some vote picks it, and each other key is picked less often, or as often
-- and does not come before it.
abbrev pub Wins : Text → List DirectionVote → Type 0
Wins key votes =
    (1 ≤ votes_for key votes)
    × ((other : Text) → Behind (other, votes_for other votes) (key, votes_for key votes))

Wins-unique : (j k : Text) (votes : List DirectionVote) → Wins j votes → Wins k votes → j ≡ k
Wins-unique j k votes u v = ground (arith, u.1 k, v.1 j, text_ltb_tri j k)

-- A key that is picked is in the map.
picked-Memᴰ :
    (key : Text) (votes : List DirectionVote)
    → 1 ≤ votes_for key votes
    → Memᴰ (key, votes_for key votes) (count_votes votes [])
unfolding get
picked-Memᴰ key votes h = elim (Option-cases (get key (count_votes votes []))) [
  | inl missing ↦ absurd (ground (arith, missing, get-count_votes key votes []))
  | inr (n, found) ↦ Memᴰ_of_get key _ _ (ground (arith, found, get-count_votes key votes []))
]

most-Wins :
    (votes : List DirectionVote) (k : Text) (n : ℕ)
    → Memᴰ (k, n) (count_votes votes [])
    → ((e : Text × ℕ) → Memᴰ e (count_votes votes []) → Behind e (k, n))
    → Wins k votes
unfolding get
most-Wins votes k n m behind =
    let count : n ≡ votes_for k votes = count_votes-Memᴰ k n votes m in
    let found : get k (count_votes votes []) ≡ some n =
      get_of_Memᴰ k n (count_votes votes []) (count_votes-Sorted votes [] tt) m in
    let voted : 1 ≤ votes_for k votes =
      ground (arith, count, found, count_votes-positive k votes []) in
    (
      voted,
      λ other. elim (Bool-cases (leb 1 (votes_for other votes))) [
        | inl some_vote ↦
            let beaten = behind _ (picked-Memᴰ other votes (ground (arith, some_vote))) in
            ground (arith, count, beaten)
        | inr no_vote ↦ inl (ground (arith, voted, no_vote))
      ],
    )

pub max_by-Wins :
    (votes : List DirectionVote) (key : Text)
    → pick_of (max_by (count_votes votes [])) ≡ some key ↔ Wins key votes
max_by-Wins votes key = elim (max_by-cases (count_votes votes [])) [
  | inl (empty, no_pick) ↦ (
    λ h. absurd (ground (arith, no_pick, h)),
    λ (voted, rest). absurd (
        none_in (key, votes_for key votes)
          (subst (λ m. Memᴰ (key, votes_for key votes) m) empty (picked-Memᴰ key votes voted))),
  )
  | inr (k, n, pick, m, behind) ↦
      let won = most-Wins votes k n m behind in
      (
        λ h. let same : k ≡ key = ground (arith, pick, h) in subst (λ x. Wins x votes) same won,
        λ w. rw (pick, Wins-unique key k votes w won) refl,
      )
]
  where
    none_in : (e : Text × ℕ) → Memᴰ e [] → ⊥
    none_in e m = elim m [ ]

pub max_by-count :
    (votes : List DirectionVote) (key : Text)
    → pick_of (max_by (count_votes votes [])) ≡ some key
    → count_of (max_by (count_votes votes [])) ≡ votes_for key votes
max_by-count votes key h = elim (max_by-cases (count_votes votes [])) [
  | inl (empty, no_pick) ↦ absurd (ground (arith, no_pick, h))
  | inr (k, n, pick, m, behind) ↦
      let same : k ≡ key = ground (arith, pick, h) in
      ground (arith, pick, same, count_votes-Memᴰ k n votes m)
]

max_by-none : (m : List (Text × ℕ)) → pick_of (max_by m) ≡ none → count_of (max_by m) ≡ 0
max_by-none m h = elim (max_by-cases m) [
  | inl (empty, no_pick) ↦ rw no_pick refl
  | inr (k, n, pick, m, behind) ↦ absurd (ground (arith, pick, h))
]

-- The number of valid votes for a key does not depend on their order.
votes_for-perm :
    (valid_task_ids : Option (List Text)) (key : Text) {votes others : List DirectionVote}
    → Permᴰ votes others
    → votes_for key (valid_of valid_task_ids votes) ≡ votes_for key (valid_of valid_task_ids others)
unfolding votes_for valid_of filter
votes_for-perm ids key Permᴰ.nil = refl
votes_for-perm ids key (Permᴰ.cons e p) = ground (arith, e, votes_for-perm ids key p)
votes_for-perm ids key (Permᴰ.swap e f) = ground (arith, e, f)
votes_for-perm ids key (Permᴰ.trans p q) = votes_for-perm ids key p ∙ votes_for-perm ids key q

Wins-perm :
    (key : Text) (votes others : List DirectionVote)
    → ((k : Text) → votes_for k votes ≡ votes_for k others)
    → Wins key votes
    → Wins key others
Wins-perm key votes others same won =
    (ground (arith, won.0, same key), λ other. ground (arith, same other, same key, won.1 other))

module _ (valid_task_ids : Option (List Text)) where
  abbrev tally : List DirectionVote → Tally
  tally votes = tally_votes valid_task_ids votes

  abbrev valid : List DirectionVote → List DirectionVote
  valid votes = valid_of valid_task_ids votes

  -- The tally picks a key exactly if the key wins the valid votes; its count is then the number of
  -- valid votes that pick it.
  pub tally_votes-Wins :
      (votes : List DirectionVote) (key : Text)
      → ((tally votes).majority_pick ≡ some key ↔ Wins key (valid votes))
        × ((tally votes).majority_pick ≡ some key
            → (tally votes).majority_count ≡ votes_for key (valid votes))
  unfolding tally_votes
  tally_votes-Wins votes key =
      (max_by-Wins (valid_of valid_task_ids votes) key, max_by-count (valid votes) key)

  same_pick :
      (votes others : List DirectionVote)
      → ((k : Text) → votes_for k (valid votes) ≡ votes_for k (valid others))
      → (k : Text) → (tally votes).majority_pick ≡ some k
      → ((tally others).majority_pick ≡ some k)
        × ((tally votes).majority_count ≡ (tally others).majority_count)
  same_pick votes others same k h =
      let there : (tally others).majority_pick ≡ some k =
        (tally_votes-Wins others k).0.1
          (Wins-perm k (valid votes) (valid others) same ((tally_votes-Wins votes k).0.0 h)) in
      (
        there,
        ground (arith, (tally_votes-Wins votes k).1 h, (tally_votes-Wins others k).1 there, same k),
      )

  pub no_pick-count :
      (votes : List DirectionVote)
      → (tally votes).majority_pick ≡ none
      → (tally votes).majority_count ≡ 0
  unfolding tally_votes
  no_pick-count votes h = max_by-none (count_votes (valid votes) []) h

  met_same :
      (votes others : List DirectionVote)
      → (tally votes).majority_count ≡ (tally others).majority_count
      → (tally votes).supermajority_met ≡ (tally others).supermajority_met
  unfolding tally_votes
  met_same votes others h = ap (leb 2) h

  -- The order in which the votes come in changes neither the pick nor its count nor whether there is
  -- a supermajority.
  pub tally_votes-perm :
      (votes others : List DirectionVote)
      → Permᴰ votes others
      → ((tally votes).majority_pick ≡ (tally others).majority_pick)
        × ((tally votes).majority_count ≡ (tally others).majority_count)
        × ((tally votes).supermajority_met ≡ (tally others).supermajority_met)
  tally_votes-perm votes others p = elim (Option-cases (tally votes).majority_pick) [
    | inr (k, pick) ↦
        let found = same_pick votes others (λ j. votes_for-perm valid_task_ids j p) k pick in
        (pick ∙ sym found.0, found.1, met_same votes others found.1)
    | inl no_pick ↦ elim (Option-cases (tally others).majority_pick) [
      | inr (k, pick) ↦
          let found =
            same_pick others votes (λ j. sym (votes_for-perm valid_task_ids j p)) k pick in
          (found.0 ∙ sym pick, sym found.1, met_same votes others (sym found.1))
      | inl no_other ↦
          let count = no_pick-count votes no_pick ∙ sym (no_pick-count others no_other) in
          (no_pick ∙ sym no_other, count, met_same votes others count)
    ]
  ]
