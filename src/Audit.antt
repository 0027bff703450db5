-- ===== src/Audit.antt =====
-- src/audit.rs: the families of runners, the severities, and the findings that an auditor reports.
-- `Findings` reads findings out of JSON values and replies.
pub mod Findings
use long_task_orchestration.Prelude.{
  ℕ, Bool, true, false, ◌||◌, ◌≡◌, ◌↔◌, List, [], ◌∷◌, Option, none, some, if◌then◌else◌, arith,
}
use long_task_orchestration.Prelude.Eq.{PartialEq, ◌==◌}
use long_task_orchestration.Prelude.Text.{
  Text, str, text_eq, text_beq, text_beq_iff, trim, has_substring,
}
use long_task_orchestration.Prelude.Render.{to_ascii_lowercase}

pub data RunnerFamily : Type 0 where
  claude codex pi agy : RunnerFamily
  unknown : Text → RunnerFamily

abbrev pub family_beq : RunnerFamily → RunnerFamily → Bool
family_beq claude claude = true
family_beq codex codex = true
family_beq pi pi = true
family_beq agy agy = true
family_beq (unknown s) (unknown t) = text_beq s t
family_beq _ _ = false

pub family_beq_iff : (a b : RunnerFamily) → family_beq a b ≡ true ↔ (a ≡ b)
family_beq_iff (unknown s) (unknown t) = ground (arith, text_beq_iff s t)
family_beq_iff a b = ground arith

instance abbrev pub family_eq : PartialEq RunnerFamily
family_eq = record { eq = family_beq; eq_iff = family_beq_iff }

-- The keys and their families, in the order in which they are tried.
abbrev pub family_keys : List (Text × RunnerFamily)
family_keys =
    (str "claude", claude)
    ∷ (str "anthropic", claude)
    ∷ (str "codex", codex)
    ∷ (str "gpt", codex)
    ∷ (str "openai", codex)
    ∷ (str "pi", pi)
    ∷ (str "deepseek", pi)
    ∷ (str "agy", agy)
    ∷ (str "gemini", agy)
    ∷ (str "google", agy)
    ∷ []

unfoldable pub family_among : List (Text × RunnerFamily) → Text → RunnerFamily
family_among [] lower = unknown lower
family_among ((key, f) ∷ keys) lower =
    let later = family_among keys lower in if has_substring lower key then f else later

unfoldable pub family : Text → RunnerFamily
unfolding family_among
family runtime = family_among family_keys (to_ascii_lowercase runtime)

unfoldable pub same_family : Text → Text → Bool
unfolding family
same_family a b = family a == family b

pub data Severity : Type 0 where
  critical high medium low : Severity

pub data ReportedConfidenceLevel : Type 0 where
  high medium low : ReportedConfidenceLevel

unfoldable pub level_str : ReportedConfidenceLevel → Text
level_str ReportedConfidenceLevel.high = str "high"
level_str ReportedConfidenceLevel.medium = str "medium"
level_str ReportedConfidenceLevel.low = str "low"

pub record ReportedConfidence : Type 0 where
  pub level : Option ReportedConfidenceLevel
  pub rationale : Option Text

pub record Finding : Type 0 where
  pub severity : Severity
  pub claim : Text
  pub reported_confidence : Option ReportedConfidence
  pub invalidated_when : Option Text
  pub evidence_to_check : Option Text
  pub file : Option Text
  pub source : Option Text

unfoldable pub normalize_severity : Text → Option Severity
normalize_severity input =
    let text = to_ascii_lowercase (trim input) in
    if text == str "critical" || text == str "严重" || text == str "致命" || text == str "阻断"
    then some Severity.critical
    else if text == str "high" || text == str "警告" || text == str "高危"
    then some Severity.high
    else if text == str "medium" || text == str "中危"
    then some Severity.medium
    else if text == str "low" || text == str "提示" || text == str "建议"
    then some Severity.low
    else none

unfoldable pub normalize_reported_confidence_level : Text → Option ReportedConfidenceLevel
normalize_reported_confidence_level input =
    let normalized = to_ascii_lowercase (trim input) in
    if normalized == str "high"
    then some ReportedConfidenceLevel.high
    else if normalized == str "medium"
    then some ReportedConfidenceLevel.medium
    else if normalized == str "low"
    then some ReportedConfidenceLevel.low
    else none
