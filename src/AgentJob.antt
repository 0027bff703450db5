-- ===== src/AgentJob.antt =====
-- src/agent_job.rs: jobs, their permission and retry policies, and their results. The floats are a
-- type parameter `F`. `Policy` holds the validation, and `Safety` is about it.
pub mod Policy
pub mod Safety
use long_task_orchestration.Prelude.{
  ℕ, suc, Bool, true, false, List, [], ◌∷◌, ◌≡◌, ◌↔◌, refl, Option, none, some, arith, ◌&&◌,
  if◌then◌else◌,
}
use long_task_orchestration.Prelude.Eq.{PartialEq}
use long_task_orchestration.Prelude.Int.{ℤ, pos, is_code}
use long_task_orchestration.Prelude.Json.{Json}
use long_task_orchestration.Prelude.Text.{Text, str}
use long_task_orchestration.MergeReview.{MergeReview}

abbrev pub known_runners : List Text
known_runners =
    str "codex" ∷ str "pi" ∷ str "agy" ∷ str "aix" ∷ str "gemini" ∷ str "claude" ∷ str "tmux" ∷ []

pub data Sandbox : Type 0 where
  read_only workspace_write danger_full_access : Sandbox

unfoldable pub sandbox_str : Sandbox → Text
sandbox_str read_only = str "read-only"
sandbox_str workspace_write = str "workspace-write"
sandbox_str danger_full_access = str "danger-full-access"

pub data TaskSize : Type 0 where
  small medium large unknown : TaskSize

pub data JobStatus : Type 0 where
  pending running ok failed timeout rate_limited quota_exhausted skipped : JobStatus

unfoldable pub status_str : JobStatus → Text
status_str pending = str "pending"
status_str running = str "running"
status_str ok = str "ok"
status_str failed = str "failed"
status_str timeout = str "timeout"
status_str rate_limited = str "rate_limited"
status_str quota_exhausted = str "quota_exhausted"
status_str skipped = str "skipped"

abbrev pub status_beq : JobStatus → JobStatus → Bool
status_beq pending pending = true
status_beq running running = true
status_beq ok ok = true
status_beq failed failed = true
status_beq timeout timeout = true
status_beq rate_limited rate_limited = true
status_beq quota_exhausted quota_exhausted = true
status_beq skipped skipped = true
status_beq _ _ = false

pub status_beq_iff : (a b : JobStatus) → status_beq a b ≡ true ↔ (a ≡ b)
status_beq_iff a b = ground arith

instance abbrev pub status_eq : PartialEq JobStatus
status_eq = record { eq = status_beq; eq_iff = status_beq_iff }

pub data ExitState : Type 0 where
  exit_ok exit_failed : ℤ → ExitState
  signal_killed exit_timeout : ExitState

unfoldable pub from_status_code : Option ℤ → Bool → ExitState
from_status_code code true = exit_timeout
from_status_code none false = signal_killed
from_status_code (some code) false =
    if is_code 0 code
    then exit_ok (pos 0)
    else if is_code 124 code
    then exit_timeout
    else exit_failed code

pub data Pattern : Type 0 where
  linear fan_out adversarial tournament loop : Pattern

pub record PermissionPolicy : Type 0 where
  pub sandbox : Sandbox
  pub reason : Text
  pub user_approved : Bool
  pub allow_headless_write : Bool
  pub tools : List Text

unfoldable pub default_policy : PermissionPolicy
default_policy = record {
  sandbox = read_only;
  reason = [];
  user_approved = false;
  allow_headless_write = false;
  tools = [];
}

pub record Budget : Type 0 where
  pub timeout_sec : ℕ  -- u64
  pub max_tokens : Option ℕ

pub record RetryPolicy (F : Type 0) : Type 0 where
  pub max_retries : ℕ  -- u32
  pub backoff_sec : F
  pub retry_on : List JobStatus

abbrev pub default_retry_on : List JobStatus
default_retry_on = rate_limited ∷ timeout ∷ []

pub record AgentJob (F : Type 0) : Type 0 where
  pub job_id : Text
  pub prompt_ref : Text
  pub runner : Text
  pub prompt_is_inline : Bool
  pub model : Option Text
  pub env : List (Text × Text)
  pub permission_policy : PermissionPolicy
  pub isolation : Text
  pub output_schema : Option (Json F)
  pub parent_pattern : Pattern
  pub budget : Budget
  pub retry_policy : RetryPolicy F
  pub verifier_of : Option Text
  pub children : List Text
  pub task_type : Option Text
  pub size : TaskSize
  pub test_cmd : Option Text
  pub needs_worktree : Bool
  pub meta : List (Text × Json F)

pub record AgentResult (F : Type 0) : Type 0 where
  pub job_id : Text
  pub runner : Text
  pub model : Option Text
  pub status : JobStatus
  pub exit_code : Option ℤ
  pub findings : List (Json F)
  pub reply_text : Text
  pub cost : List (Text × Json F)
  pub permissions : List (Text × Json F)
  pub artifacts : List Text
  pub attempts : ℕ  -- u32
  pub error : Text
  pub task_type : Option Text
  pub size : TaskSize
  pub merge_review : Option MergeReview

pub data AgentJobError : Type 0 where
  unknown_runner : Text → AgentJobError
  missing_workspace_write_reason missing_danger_reason missing_danger_approval : AgentJobError
  headless_write_denied : Text → Sandbox → AgentJobError
  codex_sandbox_conflict : Text → Text → AgentJobError
  cannot_enforce_read_only : Text → AgentJobError
  read_only_tools_exceeded : Text → List Text → AgentJobError
  missing_prompt_ref : AgentJobError
  invalid_isolation : Text → AgentJobError
