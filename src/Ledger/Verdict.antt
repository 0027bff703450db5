-- ===== src/Ledger/Verdict.antt =====
-- src/ledger.rs: what each verdict says of the row of blocker counts.
use long_task_orchestration.Prelude.{
  ℕ, ◌≤◌, ◌<◌, ◌≡◌, ◌≢◌, ◌↔◌, refl, Bool, true, false, List, [], ◌∷◌, map, some, ltb, arith, last?,
  ◌⊎◌, inl, inr, Bool-cases,
}
use long_task_orchestration.Ledger.{
  LedgerRound, converged, converging, rebound, blockers, scan_pairs, evaluate_ledger, unwrap_or,
}

-- Each count is at most the one before it.
abbrev pub NonIncreasing : List ℕ → Type 0
NonIncreasing [] = Unit
NonIncreasing (a ∷ []) = Unit
NonIncreasing (a ∷ b ∷ rest) = (b ≤ a) × NonIncreasing (b ∷ rest)

-- Each count is below the one before it.
abbrev pub Decreasing : List ℕ → Type 0
Decreasing [] = Unit
Decreasing (a ∷ []) = Unit
Decreasing (a ∷ b ∷ rest) = (b < a) × Decreasing (b ∷ rest)

unfoldable pub final_count : List ℕ → ℕ
unfolding unwrap_or last?
final_count counts = unwrap_or 0 (last? counts)

final_count-cons : (a b : ℕ) (rest : List ℕ) → final_count (a ∷ b ∷ rest) ≡ final_count (b ∷ rest)
unfolding final_count
final_count-cons a b rest = refl

scan_pairs_lenient :
    (counts : List ℕ)
    → ((scan_pairs false counts ≡ converging) × NonIncreasing counts)
      ⊎ ((scan_pairs false counts ≡ rebound) × (¬ NonIncreasing counts))
unfolding scan_pairs
scan_pairs_lenient [] = inl (refl, tt)
scan_pairs_lenient (a ∷ []) = inl (refl, tt)
scan_pairs_lenient (a ∷ b ∷ rest) = elim (Bool-cases (ltb a b)) [
  | inl rise ↦ inr (ground arith, λ h. ground arith)
  | inr fine ↦ elim (scan_pairs_lenient (b ∷ rest)) [
    | inl (e, down) ↦ inl (ground arith, (ground arith, down))
    | inr (e, rises) ↦ inr (ground arith, λ h. rises h.1)
  ]
]

-- From zero a row that does not rise stays at zero.
NonIncreasing-final :
    (b : ℕ) (rest : List ℕ) → NonIncreasing (b ∷ rest) → final_count (b ∷ rest) ≤ b
unfolding final_count
NonIncreasing-final b [] h = omega arith
NonIncreasing-final b (c ∷ rest) h = omega (arith, NonIncreasing-final c rest h.1)

scan_pairs-NonIncreasing :
    (strict : Bool) (counts : List ℕ) → scan_pairs strict counts ≡ converging → NonIncreasing counts
unfolding scan_pairs
scan_pairs-NonIncreasing strict [] h = tt
scan_pairs-NonIncreasing strict (a ∷ []) h = tt
scan_pairs-NonIncreasing strict (a ∷ b ∷ rest) h =
    ground (arith, scan_pairs-NonIncreasing strict (b ∷ rest))

scan_pairs_strict-Decreasing :
    (counts : List ℕ)
    → 0 < final_count counts
    → scan_pairs true counts ≡ converging
    → Decreasing counts
unfolding scan_pairs
scan_pairs_strict-Decreasing [] h e = tt
scan_pairs_strict-Decreasing (a ∷ []) h e = tt
scan_pairs_strict-Decreasing (a ∷ b ∷ rest) h e =
    let live : 0 < final_count (b ∷ rest) = rw final_count-cons at h in
    ground (
      arith,
      scan_pairs_strict-Decreasing (b ∷ rest) live,
      NonIncreasing-final b rest,
      scan_pairs-NonIncreasing true (b ∷ rest),
    )

Decreasing-scan_pairs :
    (strict : Bool) (counts : List ℕ) → Decreasing counts → scan_pairs strict counts ≡ converging
unfolding scan_pairs
Decreasing-scan_pairs strict [] h = refl
Decreasing-scan_pairs strict (a ∷ []) h = refl
Decreasing-scan_pairs strict (a ∷ b ∷ rest) h =
    ground (arith, Decreasing-scan_pairs strict (b ∷ rest) h.1)

scan_pairs-ne-converged : (strict : Bool) (counts : List ℕ) → scan_pairs strict counts ≢ converged
unfolding scan_pairs
scan_pairs-ne-converged strict [] h = cc
scan_pairs-ne-converged strict (a ∷ []) h = cc
scan_pairs-ne-converged strict (a ∷ b ∷ rest) h =
    ground (arith, scan_pairs-ne-converged strict (b ∷ rest))

last?-map :
    (r : LedgerRound) (rounds : List LedgerRound)
    → (x : LedgerRound) × (last? (r ∷ rounds) ≡ some x)
      × (final_count (map blockers (r ∷ rounds)) ≡ blockers x)
unfolding final_count
last?-map r [] = (r, refl, refl)
last?-map r (q ∷ rounds) = last?-map q rounds

-- A ledger is converged exactly if it has a round and its last round has no blocker, in both modes.
pub evaluate_ledger-converged :
    (rounds : List LedgerRound) (strict : Bool)
    → evaluate_ledger rounds strict ≡ converged
      ↔ (r : LedgerRound) × (last? rounds ≡ some r) × (blockers r ≡ 0)
unfolding evaluate_ledger last?
evaluate_ledger-converged [] strict = (λ e. absurd (cc), λ (r, e, z). absurd (cc))
evaluate_ledger-converged (r ∷ rounds) strict =
    let (x, e, c) = last?-map r rounds in
    unfold final_count in
    (
      λ h. (x, e, ground (arith, c, scan_pairs-ne-converged strict (map blockers (r ∷ rounds)))),
      λ (y, e', z). ground (arith, c, e, e', z),
    )

-- With a blocker left, the lenient mode answers `converging` exactly if no round rises.
-- Otherwise it answers `rebound`.
pub evaluate_ledger-lenient :
    (rounds : List LedgerRound)
    → 0 < final_count (map blockers rounds)
    → ((evaluate_ledger rounds false ≡ converging) × NonIncreasing (map blockers rounds))
      ⊎ ((evaluate_ledger rounds false ≡ rebound) × (¬ NonIncreasing (map blockers rounds)))
unfolding evaluate_ledger final_count
evaluate_ledger-lenient [] h = absurd (omega arith)
evaluate_ledger-lenient (r ∷ rounds) h = elim (scan_pairs_lenient (map blockers (r ∷ rounds))) [
  | inl (e, down) ↦ inl (ground (arith, e, h), down)
  | inr (e, rises) ↦ inr (ground (arith, e, h), rises)
]

-- With a blocker left, the strict mode answers `converging` exactly if each round falls.
pub evaluate_ledger-strict :
    (rounds : List LedgerRound)
    → 0 < final_count (map blockers rounds)
    → evaluate_ledger rounds true ≡ converging ↔ Decreasing (map blockers rounds)
unfolding evaluate_ledger
evaluate_ledger-strict [] h = absurd (unfold final_count in omega arith)
evaluate_ledger-strict (r ∷ rounds) h =
    let counts = map blockers (r ∷ rounds) in
    let down = scan_pairs_strict-Decreasing counts h in
    let up = Decreasing-scan_pairs true counts in
    unfold final_count in (λ e. ground (arith, down, h), λ d. ground (arith, up d, h))
