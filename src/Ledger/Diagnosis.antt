-- ===== src/Ledger/Diagnosis.antt =====
-- src/ledger.rs: what the diagnosis says of the row of blocker counts.
use Prim.Native.Nat.{Ordering}
use long_task_orchestration.Prelude.{
  ℕ, ◌+◌, ◌≤◌, ◌≡◌, ◌↔◌, refl, Bool, true, false, not, List, [], ◌∷◌, map, Option, some, none,
  arith, ◌⊎◌, inl, any, filter,
}
use long_task_orchestration.Ledger.{
  LedgerRound, blockers, LedgerDiagnostics, Direction, improving, flat, worsening, mixed, steady,
  changes, is_less, is_greater, same_change, direction_of, count_turns, oscillation_of, diagnose,
}
use long_task_orchestration.Ledger.Verdict.{NonIncreasing}

-- Each count is at least the one before it.
abbrev pub NonDecreasing : List ℕ → Type 0
NonDecreasing [] = Unit
NonDecreasing (a ∷ []) = Unit
NonDecreasing (a ∷ b ∷ rest) = (a ≤ b) × NonDecreasing (b ∷ rest)

any_less : (counts : List ℕ) → any is_less (changes counts) ≡ false ↔ NonDecreasing counts
unfolding any changes
any_less [] = (λ _. tt, λ _. refl)
any_less (a ∷ []) = (λ _. tt, λ _. refl)
any_less (a ∷ b ∷ rest) = ground (arith, any_less (b ∷ rest))

any_greater : (counts : List ℕ) → any is_greater (changes counts) ≡ false ↔ NonIncreasing counts
unfolding any changes
any_greater [] = (λ _. tt, λ _. refl)
any_greater (a ∷ []) = (λ _. tt, λ _. refl)
any_greater (a ∷ b ∷ rest) = ground (arith, any_greater (b ∷ rest))

-- What a direction says of the row.
abbrev pub Heads : Direction → List ℕ → Type 0
Heads improving counts = NonIncreasing counts × (¬ NonDecreasing counts)
Heads flat counts = NonIncreasing counts × NonDecreasing counts
Heads worsening counts = (¬ NonIncreasing counts) × NonDecreasing counts
Heads mixed counts = (¬ NonIncreasing counts) × (¬ NonDecreasing counts)

direction_of-Heads :
    (less greater : Bool) (counts : List ℕ)
    → less ≡ false ↔ NonDecreasing counts
    → greater ≡ false ↔ NonIncreasing counts
    → Heads (direction_of less greater) counts
unfolding direction_of
direction_of-Heads true true counts l g = (λ h. cc (g.1 h), λ h. cc (l.1 h))
direction_of-Heads true false counts l g = (g.0 refl, λ h. cc (l.1 h))
direction_of-Heads false true counts l g = (λ h. cc (g.1 h), l.0 refl)
direction_of-Heads false false counts l g = (g.0 refl, l.0 refl)

abbrev pub moves : List ℕ → List Ordering
moves counts = filter (λ c. not (same_change c Ordering.eq)) (changes counts)

count_turns-le :
    (previous : Option Ordering) (turns : ℕ) (row : List Ordering)
    → turns ≤ count_turns previous turns row
unfolding count_turns
count_turns-le previous turns [] = omega arith
count_turns-le none turns (c ∷ row) = ground (arith, count_turns-le (some c) turns row)
count_turns-le (some p) turns (c ∷ row) =
    ground (arith, count_turns-le (some c) turns row, count_turns-le (some c) (turns + 1) row)

-- No turn after a fall means that the rest never rises, and the other way round.
no_turn_after_fall :
    (counts : List ℕ) → count_turns (some Ordering.lt) 0 (moves counts) ≡ 0 ↔ NonIncreasing counts
unfolding count_turns filter changes
no_turn_after_fall [] = (λ _. tt, λ _. refl)
no_turn_after_fall (a ∷ []) = (λ _. tt, λ _. refl)
no_turn_after_fall (a ∷ b ∷ rest) =
    ground
      (arith, no_turn_after_fall (b ∷ rest), count_turns-le (some Ordering.gt) 1 (moves (b ∷ rest)))

no_turn_after_rise :
    (counts : List ℕ) → count_turns (some Ordering.gt) 0 (moves counts) ≡ 0 ↔ NonDecreasing counts
unfolding count_turns filter changes
no_turn_after_rise [] = (λ _. tt, λ _. refl)
no_turn_after_rise (a ∷ []) = (λ _. tt, λ _. refl)
no_turn_after_rise (a ∷ b ∷ rest) =
    ground
      (arith, no_turn_after_rise (b ∷ rest), count_turns-le (some Ordering.lt) 1 (moves (b ∷ rest)))

no_turn :
    (counts : List ℕ)
    → count_turns none 0 (moves counts) ≡ 0 ↔ (NonIncreasing counts ⊎ NonDecreasing counts)
unfolding count_turns filter changes
no_turn [] = (λ _. inl tt, λ _. refl)
no_turn (a ∷ []) = (λ _. inl tt, λ _. refl)
no_turn (a ∷ b ∷ rest) =
    ground (arith, no_turn (b ∷ rest), no_turn_after_fall (b ∷ rest), no_turn_after_rise (b ∷ rest))

module _ (rounds : List LedgerRound) (d : LedgerDiagnostics) (h : diagnose rounds ≡ some d) where
  abbrev counts : List ℕ
  counts = map blockers rounds

  -- The direction that the diagnosis gives is the one that the row of blocker counts has: it never
  -- rises and falls somewhere, stays the same, never falls and rises somewhere, or does both.
  pub diagnose-direction : Heads d.direction counts
  unfolding diagnose
  diagnose-direction =
      let less = any is_less (changes counts) in
      let greater = any is_greater (changes counts) in
      let e : d.direction ≡ direction_of less greater = ground arith in
      rw e (direction_of-Heads less greater counts (any_less counts) (any_greater counts))

  -- The diagnosis reports no oscillation exactly if the row of blocker counts never rises or never
  -- falls.
  pub diagnose-oscillation : d.oscillation ≡ steady ↔ (NonIncreasing counts ⊎ NonDecreasing counts)
  unfolding diagnose oscillation_of
  diagnose-oscillation = ground (arith, no_turn counts)
