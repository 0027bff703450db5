-- ===== src/Tests/AgentJobRuns.antt =====
-- src/agent_job.rs at concrete inputs.
use long_task_orchestration.Prelude.{
  ◌≡◌, ◌≢◌, ◌↔◌, refl, Bool, true, false, List, [], ◌∷◌, Option, none, some, All,
}
use long_task_orchestration.Prelude.BTreeMap.{text_key, get}
use long_task_orchestration.Prelude.Eq.{contains}
use long_task_orchestration.Prelude.Result.{ok}
use long_task_orchestration.Prelude.Text.{Text, str, text_eq}
use long_task_orchestration.AgentJob.{PermissionPolicy, read_only, workspace_write, known_runners}
use long_task_orchestration.AgentJob.Policy.{
  validate_for_runner, effective_readonly_tools, readonly_tool_allowlist, readonly_intent_to_policy,
}
use long_task_orchestration.AgentJob.Safety.{
  IsPermitted, validate_for_runner_iff, readonly_intent_to_policy-accepted,
}
use long_task_orchestration.Tests.Data.{job_a}

abbrev reading : PermissionPolicy
reading = record {
  sandbox = read_only;
  reason = [];
  user_approved = false;
  allow_headless_write = false;
  tools = str "Read" ∷ [];
}

validate_for_runner_iff_example :
    validate_for_runner job_a.permission_policy (str "claude") [] ≡ ok tt
    ↔ IsPermitted job_a.permission_policy (str "claude") []
validate_for_runner_iff_example = validate_for_runner_iff job_a.permission_policy (str "claude") []

reading-validate : validate_for_runner reading (str "claude") [] ≡ ok tt
unfolding validate_for_runner contains long_task_orchestration.Prelude.Text.text_beq
    long_task_orchestration.AgentJob.Policy.check_runner
    long_task_orchestration.AgentJob.Policy.check_tools
    long_task_orchestration.AgentJob.Policy.exceeding_tools
    long_task_orchestration.Prelude.Text.sort_texts long_task_orchestration.Prelude.filter
    readonly_tool_allowlist
reading-validate = refl

agy-known : contains known_runners (str "agy") ≡ true
unfolding contains long_task_orchestration.Prelude.Text.text_beq
agy-known = refl

env-unset : get (str "CODEX_SANDBOX") ((str "PATH", str "/bin") ∷ []) ≡ none
unfolding get long_task_orchestration.Prelude.Text.text_beq
env-unset = refl

readonly_intent_to_policy-accepted_example :
    validate_for_runner
        (readonly_intent_to_policy (str "agy"))
        (str "agy")
        ((str "PATH", str "/bin") ∷ [])
      ≡ ok tt
    ↔ (str "agy" ≢ str "gemini")
readonly_intent_to_policy-accepted_example =
    readonly_intent_to_policy-accepted (str "agy") ((str "PATH", str "/bin") ∷ []) agy-known
      env-unset
