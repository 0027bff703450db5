-- ===== src/Decision/Counts.antt =====
-- src/decision.rs: the map of counts holds, for each key, the votes for it.
use mathlib.Core.List.{Memᴰ}
use long_task_orchestration.Prelude.{
  ℕ, suc, ◌+◌, ◌≡◌, inl, inr, refl, ap, subst, Bool, true, not, ◌&&◌, List, [], ◌∷◌, All, none,
  some, filter, length, All-Memᴰ, arith, Bool-cases,
}
use long_task_orchestration.Prelude.Eq.{◌==◌}
use long_task_orchestration.Prelude.BTreeMap.{get, insert, get-insert, text_key}
use long_task_orchestration.Prelude.Text.{Text, text_eq, text_beq, text_beq_iff, text_ltb}
use long_task_orchestration.Prelude.TextOrder.{text_ltb_irrefl, text_ltb_trans, text_ltb_tri}
use long_task_orchestration.Decision.{DirectionVote}
use long_task_orchestration.Decision.Count.{asks_human, vote_key, count_votes, or_zero}

-- A vote that picks the key.
unfoldable pub picks : Text → DirectionVote → Bool
picks key vote = not (asks_human vote) && vote_key vote == key

unfoldable pub votes_for : Text → List DirectionVote → ℕ
unfolding filter
votes_for key votes = length (filter (picks key) votes)

abbrev pub Below : Text → List (Text × ℕ) → Type 0
Below k m = All (λ (j, n). text_ltb k j ≡ true) m

-- The keys of the map are in order.
abbrev pub Sorted : List (Text × ℕ) → Type 0
Sorted [] = Unit
Sorted ((k, n) ∷ m) = Below k m × Sorted m

Below-trans : (j k : Text) (m : List (Text × ℕ)) → text_ltb j k ≡ true → Below k m → Below j m
Below-trans j k [] h b = tt
Below-trans j k ((i, n) ∷ m) h b = (text_ltb_trans j k i h b.0, Below-trans j k m h b.1)

insert-Below :
    (j k : Text) (n : ℕ) (m : List (Text × ℕ))
    → text_ltb j k ≡ true
    → Below j m
    → Below j (insert k n m)
unfolding insert
insert-Below j k n [] h b = (h, tt)
insert-Below j k n ((i, v) ∷ m) h b = ground (arith, b, insert-Below j k n m h b.1)

insert-Sorted : (k : Text) (n : ℕ) (m : List (Text × ℕ)) → Sorted m → Sorted (insert k n m)
unfolding insert
insert-Sorted k n [] h = (tt, tt)
insert-Sorted k n ((j, v) ∷ m) h = elim (Bool-cases (text_beq j k)) [
  | inl same ↦ rw same (subst (λ i. Below i m) ((text_beq_iff j k).0 same) h.0, h.1)
  | inr other ↦ elim (Bool-cases (text_ltb k j)) [
    | inl less ↦ rw (other, less) ((less, Below-trans k j m less h.0), (h.0, h.1))
    | inr more ↦
        rw (other, more)
          (
            insert-Below j k n m (ground (arith, text_ltb_tri j k, text_beq_iff j k)) h.0,
            insert-Sorted k n m h.1,
          )
  ]
]

pub count_votes-Sorted :
    (votes : List DirectionVote) (m : List (Text × ℕ)) → Sorted m → Sorted (count_votes votes m)
unfolding count_votes
count_votes-Sorted [] m h = h
count_votes-Sorted (vote ∷ votes) m h = elim (Bool-cases (asks_human vote)) [
  | inl human ↦ rw human (count_votes-Sorted votes m h)
  | inr picked ↦ rw picked (count_votes-Sorted votes _ (insert-Sorted (vote_key vote) _ m h))
]

-- Each key is counted as often as it is picked, on top of the count that it had.
pub get-count_votes :
    (key : Text) (votes : List DirectionVote) (m : List (Text × ℕ))
    → or_zero (get key (count_votes votes m)) ≡ votes_for key votes + or_zero (get key m)
unfolding count_votes votes_for filter picks
get-count_votes key [] m = omega arith
get-count_votes key (vote ∷ votes) m = elim (Bool-cases (asks_human vote)) [
  | inl human ↦ ground (arith, human, get-count_votes key votes m)
  | inr picked ↦ ground (
    arith,
    picked,
    get-count_votes key votes (insert (vote_key vote) (suc (or_zero (get (vote_key vote) m))) m),
    get-insert (vote_key vote) key (suc (or_zero (get (vote_key vote) m))) m,
    text_beq_iff (vote_key vote) key,
  )
]

-- In a map in order, the entries are what the keys give.
Below-get : (k : Text) (m : List (Text × ℕ)) → Below k m → get k m ≡ none
unfolding get
Below-get k [] h = refl
Below-get k ((j, n) ∷ m) h =
    ground (arith, text_beq_iff j k, h.0, text_ltb_irrefl k, Below-get k m h.1)

Below-Memᴰ :
    (j k : Text) (n : ℕ) (m : List (Text × ℕ)) → Below j m → Memᴰ (k, n) m → text_ltb j k ≡ true
Below-Memᴰ j k n m h e = All-Memᴰ (λ (i, l). text_ltb j i ≡ true) m h e

pub get_of_Memᴰ :
    (k : Text) (n : ℕ) (m : List (Text × ℕ)) → Sorted m → Memᴰ (k, n) m → get k m ≡ some n
unfolding get
get_of_Memᴰ k n [] h e = elim e [ ]
get_of_Memᴰ k n ((j, l) ∷ m) h (Memᴰ.head p) =
    ground (arith, text_beq_iff j k, ap (λ e. e.0) p, ap (λ e. e.1) p)
get_of_Memᴰ k n ((j, l) ∷ m) h (Memᴰ.tail e) =
    ground (
      arith,
      Below-Memᴰ j k n m h.0 e,
      text_beq_iff j k,
      text_ltb_irrefl k,
      get_of_Memᴰ k n m h.1 e,
    )

pub Memᴰ_of_get : (k : Text) (n : ℕ) (m : List (Text × ℕ)) → get k m ≡ some n → Memᴰ (k, n) m
unfolding get
Memᴰ_of_get k n [] h = cc
Memᴰ_of_get k n ((j, l) ∷ m) h = elim (Bool-cases (text_beq j k)) [
  | inl same ↦
      let key_eq : j ≡ k = (text_beq_iff j k).0 same in
      let count_eq : l ≡ n = ground (arith, h, same) in Memᴰ.head (rw (key_eq, count_eq) refl)
  | inr other ↦ Memᴰ.tail (Memᴰ_of_get k n m (rw other at h))
]

-- Every entry of the map of counts is there for the votes that pick its key, of which there is one.
pub count_votes-Memᴰ :
    (key : Text) (n : ℕ) (votes : List DirectionVote)
    → Memᴰ (key, n) (count_votes votes [])
    → n ≡ votes_for key votes
unfolding get
count_votes-Memᴰ key n votes e = ground (
  arith,
  get-count_votes key votes [],
  get_of_Memᴰ key n (count_votes votes []) (count_votes-Sorted votes [] tt) e,
)
