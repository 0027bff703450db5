-- ===== src/AgentJob/Policy.antt =====
-- src/agent_job.rs: validation of a job and of its permission policy, and the read-only tools.
use long_task_orchestration.Prelude.{
  Bool, true, false, not, List, [], ◌∷◌, Option, none, some, ◌&&◌, ◌||◌, if◌then◌else◌, filter,
}
use long_task_orchestration.Prelude.BTreeMap.{text_key, get}
use long_task_orchestration.Prelude.Eq.{◌==◌, contains}
use long_task_orchestration.Prelude.Result.{Result, ok, err, ◌>>◌, bail_if}
use long_task_orchestration.Prelude.Text.{Text, text_eq, str, is_empty, trim, sort_texts}
use long_task_orchestration.AgentJob.{
  AgentJob, AgentJobError, unknown_runner, missing_workspace_write_reason, missing_danger_reason,
  missing_danger_approval, headless_write_denied, codex_sandbox_conflict, cannot_enforce_read_only,
  read_only_tools_exceeded, missing_prompt_ref, invalid_isolation, Sandbox, read_only,
  workspace_write, danger_full_access, sandbox_str, PermissionPolicy, default_policy, known_runners,
}

abbrev pub Checked : Type 0
Checked = Result AgentJobError (Unit {0})

unfoldable pub readonly_tool_allowlist : Text → List Text
readonly_tool_allowlist runner =
    if runner == str "claude"
    then str "Glob" ∷ str "Grep" ∷ str "Read" ∷ str "WebFetch" ∷ []
    else if runner == str "pi"
    then str "find" ∷ str "grep" ∷ str "ls" ∷ str "read" ∷ []
    else []

-- The `match self.sandbox`, with the tests that its guards make.
check_reason : Sandbox → Bool → Bool → Checked
check_reason read_only blank approved = ok tt
check_reason workspace_write blank approved = bail_if blank missing_workspace_write_reason
check_reason danger_full_access blank approved =
    bail_if blank missing_danger_reason >> bail_if (not approved) missing_danger_approval

abbrev pub is_read_only : Sandbox → Bool
is_read_only read_only = true
is_read_only _ = false

abbrev unwrap_or : Text → Option Text → Text
unwrap_or d none = d
unwrap_or d (some t) = t

unfoldable pub check_codex : PermissionPolicy → List (Text × Text) → Checked
check_codex policy env =
    let expected = sandbox_str policy.sandbox in
    let actual = unwrap_or expected (get (str "CODEX_SANDBOX") env) in
    bail_if (not (actual == expected)) (codex_sandbox_conflict actual expected)

unfoldable pub exceeding_tools : Text → List Text → List Text
exceeding_tools runner tools =
    sort_texts (filter (λ tool. not (contains (readonly_tool_allowlist runner) tool)) tools)

abbrev is_nil : List Text → Bool
is_nil [] = true
is_nil (x ∷ xs) = false

unfoldable pub check_tools : PermissionPolicy → Text → Checked
check_tools policy runner =
    let extra = exceeding_tools runner policy.tools in
    bail_if (not (is_nil extra)) (read_only_tools_exceeded runner extra)

-- The `match runner`.
unfoldable pub check_runner : PermissionPolicy → Text → List (Text × Text) → Checked
check_runner policy runner env =
    if runner == str "codex"
    then check_codex policy env
    else if (runner == str "agy" || runner == str "gemini" || runner == str "tmux")
        && is_read_only policy.sandbox
    then err (cannot_enforce_read_only runner)
    else if (runner == str "claude" || runner == str "pi")
        && is_read_only policy.sandbox
        && not (is_nil policy.tools)
    then check_tools policy runner
    else ok tt

unfoldable pub validate_for_runner : PermissionPolicy → Text → List (Text × Text) → Checked
unfolding check_reason
validate_for_runner policy runner env = do
  bail_if (not (contains known_runners runner)) (unknown_runner runner)
  check_reason policy.sandbox (is_empty (trim policy.reason)) policy.user_approved
  bail_if
      (not (is_read_only policy.sandbox)
        && not (runner == str "tmux")
        && not policy.allow_headless_write)
      (headless_write_denied runner policy.sandbox)
  check_runner policy runner env

unfoldable pub effective_readonly_tools : PermissionPolicy → Text → List Text
effective_readonly_tools policy runner =
    if not (is_read_only policy.sandbox) || not (runner == str "claude" || runner == str "pi")
    then []
    else if not (is_nil policy.tools)
    then policy.tools
    else readonly_tool_allowlist runner

tmux_reason : Text
tmux_reason =
    str
      "tmux targets an existing pane and cannot enforce read-only; workspace-write is the honest minimum permission snapshot"

agy_reason : Text
agy_reason =
    str
      "agy has no read-only sandbox; workspace-write is the minimal enforceable level to keep agy's heterogeneous review lens"

unfoldable pub readonly_intent_to_policy : Text → PermissionPolicy
unfolding default_policy tmux_reason agy_reason
readonly_intent_to_policy runner =
    if runner == str "agy" || runner == str "tmux"
    then record {
      sandbox = workspace_write;
      reason = if runner == str "tmux" then tmux_reason else agy_reason;
      user_approved = false;
      allow_headless_write = runner == str "agy";
      tools = [];
    }
    else default_policy

unfoldable pub validate : {F : Type 0} → AgentJob F → Checked
validate job = do
  bail_if (not (contains known_runners job.runner)) (unknown_runner job.runner)
  bail_if (not (job.isolation == str "none" || job.isolation == str "worktree"))
      (invalid_isolation job.isolation)
  bail_if (is_empty job.prompt_ref) missing_prompt_ref
  validate_for_runner job.permission_policy job.runner job.env
