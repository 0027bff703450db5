-- ===== src/Tests/Data.antt =====
-- Sample jobs, results and windows for src/agent_job.rs, src/scheduler.rs and src/agent_turn.rs.
use mathlib.Core.List.{Permᴰ}
use mathlib.Core.List.Permᴰ
use Prim.Native.Nat.{min}
use long_task_orchestration.Prelude.{
  ℕ, ◌+◌, ◌*◌, ◌/◌, ◌^◌, ◌≡◌, true, false, List, [], ◌∷◌, none, arith, ltb, leb, eqb, subst,
}
use long_task_orchestration.Prelude.F64.{F64}
use long_task_orchestration.Prelude.Int.{ℤ, pos, negsuc}
use long_task_orchestration.Prelude.Result.{Result, ok}
use long_task_orchestration.Prelude.Text.{Text, str}
use long_task_orchestration.AgentJob.{
  AgentJob, AgentResult, JobStatus, default_retry_on, linear, small, workspace_write,
}
use long_task_orchestration.Scheduler.{SchedulerConfig}
use long_task_orchestration.Scheduler.Health.{HealthProbe}
use long_task_orchestration.Scheduler.Plan.Run.{JoinSet}
use long_task_orchestration.AgentTurn.Window.{DispatchWindowState}

abbrev pow2 : ℤ → ℕ
pow2 (pos n) = 2 ^ n
pow2 (negsuc n) = 0

abbrev min-not_gt : (a b : ℕ) → ltb b (min a b) ≡ false
min-not_gt a b = ground arith

-- Natural numbers in the place of floats.
abbrev pub whole : F64
whole = record {
  Carrier = ℕ;
  zero = 0;
  of_nat = λ n. n;
  add = λ a b. a + b;
  mul = λ a b. a * b;
  div = λ a b. a / b;
  min = λ a b. min a b;
  pow2 = pow2;
  gt = λ a b. ltb b a;
  ge = λ a b. leb b a;
  is_zero = λ a. eqb a 0;
  infinity = 18446744073709551615;
  truncate = λ a. a;
  is_duration = λ a. true;
  min-not_gt = min-not_gt;
}

abbrev ok-injective :
    {R : Type 0} (a b : List R) → ◌≡◌ {A = Result Text (List R)} (ok a) (ok b) → a ≡ b
ok-injective a b h = cc

-- The tasks end in the order in which they were spawned.
abbrev pub in_order : {R : Type 0} → JoinSet R
in_order {R} = record {
  join = λ spawned. ok spawned;
  join-perm = λ spawned joined h.
      subst (λ l. Permᴰ l spawned) (ok-injective spawned joined h) (Permᴰ.refl spawned);
}

abbrev pub job : Text → List Text → AgentJob ℕ
job id children = record {
  job_id = id;
  prompt_ref = str "prompt.md";
  runner = str "claude";
  prompt_is_inline = false;
  model = none;
  env = [];
  permission_policy = record {
    sandbox = workspace_write;
    reason = str "edit";
    user_approved = false;
    allow_headless_write = true;
    tools = [];
  };
  isolation = str "none";
  output_schema = none;
  parent_pattern = linear;
  budget = record { timeout_sec = 60; max_tokens = none };
  retry_policy = record { max_retries = 2; backoff_sec = 1; retry_on = default_retry_on };
  verifier_of = none;
  children = children;
  task_type = none;
  size = small;
  test_cmd = none;
  needs_worktree = false;
  meta = [];
}

abbrev pub result : JobStatus → AgentJob ℕ → AgentResult ℕ
result status j = record {
  job_id = j.job_id;
  runner = j.runner;
  model = none;
  status = status;
  exit_code = none;
  findings = [];
  reply_text = str "done";
  cost = [];
  permissions = [];
  artifacts = [];
  attempts = 1;
  error = [];
  task_type = none;
  size = small;
  merge_review = none;
}

abbrev pub config : SchedulerConfig ℕ
config = record {
  max_total_agents = 8;
  max_concurrency = 2;
  max_backoff_sec = 30;
  total_retry_wall_sec = 300;
  healthcheck_retries = 1;
  stall_timeout_sec = none;
  heartbeat_interval_sec = 5;
  drain_after_exit_timeout_sec = 5;
}

abbrev pub healthy : HealthProbe
healthy = (str "claude", true) ∷ []

abbrev pub job_a : AgentJob ℕ
job_a = job (str "a") (str "b" ∷ [])

abbrev pub job_b : AgentJob ℕ
job_b = job (str "b") []

abbrev pub window : Text → Text → DispatchWindowState
window id status = record {
  window_id = id;
  target = str "lto:1";
  runner = str "codex";
  backend = str "tmux";
  tmux_bin = str "tmux";
  cleanup_on_success = true;
  status = status;
  created_at = str "t0";
  finished_at = none;
  retention_reason = none;
}
