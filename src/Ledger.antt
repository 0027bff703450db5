-- ===== src/Ledger.antt =====
-- src/ledger.rs: the audit ledger's rounds, the convergence verdict and the diagnosis.
-- `Parse` reads the rounds from the ledger's Markdown text.
pub mod Parse
pub mod Verdict
pub mod Diagnosis
use Prim.Native.Nat.{compare, Ordering}
use long_task_orchestration.Prelude.{
  ℕ, zero, suc, ◌+◌, ◌≡◌, Bool, true, false, not, ◌&&◌, ◌||◌, List, [], ◌∷◌, ◌++◌, map, Option,
  none, some, ltb, eqb, leb, if◌then◌else◌, length, get_elem?, all, any, filter, last?, min,
}
use long_task_orchestration.Prelude.Text.{Text, is_empty, trim}

abbrev pub u64_max : ℕ
u64_max = 18446744073709551615

-- `u64::saturating_add`
abbrev pub saturating_add : ℕ → ℕ → ℕ
saturating_add a b = min (a + b) u64_max

pub record LedgerRound : Type 0 where
  pub label : Text
  pub high : ℕ
  pub critical : ℕ
  pub auditors : Option Text
  pub coverage : Option Text

unfoldable pub blockers : LedgerRound → ℕ
blockers r = saturating_add r.high r.critical

pub data LedgerVerdict : Type 0 where
  no_observations converged converging rebound stalled : LedgerVerdict

-- The loop over `blockers.windows(2)`, and the value after it.
unfoldable pub scan_pairs : Bool → List ℕ → LedgerVerdict
scan_pairs strict [] = converging
scan_pairs strict (a ∷ []) = converging
scan_pairs strict (a ∷ b ∷ rest) =
    let later = scan_pairs strict (b ∷ rest) in
    if ltb a b then rebound else if strict && eqb b a && ltb 0 b then stalled else later

unfoldable pub unwrap_or : ℕ → Option ℕ → ℕ
unwrap_or d none = d
unwrap_or d (some n) = n

unfoldable pub evaluate_ledger : List LedgerRound → Bool → LedgerVerdict
unfolding scan_pairs last? unwrap_or
evaluate_ledger [] strict = no_observations
evaluate_ledger (r ∷ rounds) strict =
    let counts = map blockers (r ∷ rounds) in
    if eqb (unwrap_or 0 (last? counts)) 0 then converged else scan_pairs strict counts

pub data SampleSufficiency : Type 0 where
  insufficient sufficient : SampleSufficiency

pub data Terminal : Type 0 where
  at_zero nonzero : Terminal

pub data Direction : Type 0 where
  improving flat worsening mixed : Direction

pub data Oscillation : Type 0 where
  steady single_rebound alternating : Oscillation

pub data Envelope : Type 0 where
  shrinking level expanding unknown : Envelope

pub data DiagnosticConfidence : Type 0 where
  low_no_lineage advisory_lineage_recorded : DiagnosticConfidence

pub record LedgerDiagnostics : Type 0 where
  pub sample_sufficiency : SampleSufficiency
  pub terminal : Terminal
  pub direction : Direction
  pub oscillation : Oscillation
  pub envelope : Envelope
  pub confidence : DiagnosticConfidence

-- `suggests_entropy_review`, on the three fields that it reads.
abbrev entropy_rule : SampleSufficiency → Oscillation → Envelope → Bool
entropy_rule insufficient _ _ = false
entropy_rule sufficient single_rebound _ = false
entropy_rule sufficient alternating _ = true
entropy_rule sufficient steady shrinking = false
entropy_rule sufficient steady _ = true

unfoldable pub suggests_entropy_review : LedgerDiagnostics → Bool
suggests_entropy_review d = entropy_rule d.sample_sufficiency d.oscillation d.envelope

-- `windows(2)` with `pair[1].cmp(&pair[0])`
unfoldable pub changes : List ℕ → List Ordering
changes [] = []
changes (a ∷ []) = []
changes (a ∷ b ∷ rest) = compare b a ∷ changes (b ∷ rest)

abbrev pub is_less : Ordering → Bool
is_less Ordering.lt = true
is_less _ = false

abbrev pub is_greater : Ordering → Bool
is_greater Ordering.gt = true
is_greater _ = false

abbrev pub same_change : Ordering → Ordering → Bool
same_change Ordering.lt Ordering.lt = true
same_change Ordering.eq Ordering.eq = true
same_change Ordering.gt Ordering.gt = true
same_change _ _ = false

unfoldable pub direction_of : Bool → Bool → Direction
direction_of true false = improving
direction_of false true = worsening
direction_of true true = mixed
direction_of false false = flat

abbrev is_turn : Option Ordering → Ordering → Bool
is_turn none change = false
is_turn (some before) change = not (same_change before change)

-- The loop that counts the turns; equal neighbours are filtered out before it.
unfoldable pub count_turns : Option Ordering → ℕ → List Ordering → ℕ
count_turns previous turns [] = turns
count_turns previous turns (change ∷ rest) =
    count_turns (some change) (if is_turn previous change then turns + 1 else turns) rest

unfoldable pub oscillation_of : ℕ → Oscillation
oscillation_of zero = steady
oscillation_of (suc zero) = single_rebound
oscillation_of (suc (suc n)) = alternating

-- The loop that drops equal neighbours; `deduped.last()` is the first argument.
dedup_from : Option ℕ → List ℕ → List ℕ
dedup_from previous [] = []
dedup_from none (v ∷ rest) = v ∷ dedup_from (some v) rest
dedup_from (some p) (v ∷ rest) =
    let kept = dedup_from (some v) rest in if eqb p v then kept else v ∷ kept

unfoldable pub dedup : List ℕ → List ℕ
unfolding dedup_from
dedup values = dedup_from none values

-- `windows(3)`, and behind it the last value if the row ends on a rise.
unfoldable pub later_peaks : List ℕ → List ℕ
later_peaks [] = []
later_peaks (a ∷ []) = []
later_peaks (a ∷ b ∷ []) = if ltb a b then b ∷ [] else []
later_peaks (a ∷ b ∷ c ∷ rest) =
    let more = later_peaks (b ∷ c ∷ rest) in if ltb a b && ltb c b then b ∷ more else more

unfoldable pub peaks_of : List ℕ → List ℕ
unfolding later_peaks
peaks_of [] = []
peaks_of (a ∷ []) = a ∷ []
peaks_of (a ∷ b ∷ rest) = (if ltb b a then a ∷ [] else []) ++ later_peaks (a ∷ b ∷ rest)

unfoldable pub peak_values : List ℕ → List ℕ
unfolding dedup peaks_of
peak_values values = peaks_of (dedup values)

-- `peaks.windows(2).all(test)`
unfoldable pub all_pairs : (ℕ → ℕ → Bool) → List ℕ → Bool
all_pairs test [] = true
all_pairs test (a ∷ []) = true
all_pairs test (a ∷ b ∷ rest) = test a b && all_pairs test (b ∷ rest)

unfoldable pub classify_envelope : List ℕ → Envelope
unfolding all_pairs
classify_envelope peaks =
    if ltb (length peaks) 2
    then unknown
    else if all_pairs (λ a b. ltb b a) peaks
    then shrinking
    else if all_pairs (λ a b. ltb a b) peaks
    then expanding
    else if all_pairs (λ a b. eqb b a) peaks
    then level
    else unknown

-- A lineage cell that is present and not blank.
is_recorded : Option Text → Bool
is_recorded none = false
is_recorded (some cell) = not (is_empty (trim cell))

unfoldable pub has_lineage : LedgerRound → Bool
unfolding is_recorded
has_lineage r = is_recorded r.auditors && is_recorded r.coverage

unfoldable pub terminal_of : ℕ → Terminal
terminal_of zero = at_zero
terminal_of (suc n) = nonzero

diagnose_from : List LedgerRound → LedgerRound → LedgerDiagnostics
unfolding peak_values
diagnose_from rounds final =
    let counts = map blockers rounds in
    let moves = changes counts in
    record {
      sample_sufficiency = if ltb (length rounds) 3 then insufficient else sufficient;
      terminal = terminal_of (blockers final);
      direction = direction_of (any is_less moves) (any is_greater moves);
      oscillation =
          oscillation_of (count_turns none 0 (filter (λ c. not (same_change c Ordering.eq)) moves));
      envelope = classify_envelope (peak_values counts);
      confidence = if all has_lineage rounds then advisory_lineage_recorded else low_no_lineage;
    }

unfoldable pub diagnose : List LedgerRound → Option LedgerDiagnostics
unfolding diagnose_from
diagnose rounds = elim (last? rounds) [
  | none ↦ none
  | some final ↦ some (diagnose_from rounds final)
]
