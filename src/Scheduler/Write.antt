-- ===== src/Scheduler/Write.antt =====
-- src/scheduler.rs: the parts of a write task that `run_once` puts around its runner: whether the job
-- gets a worktree, the environment, the effective size, and `finalize_write_task`. Running git and
-- the tests is not modelled: `emitted` is what `emit_diff` returned.
use long_task_orchestration.Prelude.{
  ℕ, ◌+◌, ◌/◌, ◌≡◌, ◌↔◌, Bool, true, false, not, ◌&&◌, ◌||◌, List, [], ◌∷◌, ◌++◌, Option, none,
  some, length, min, any, if◌then◌else◌, arith,
}
use long_task_orchestration.Prelude.BTreeMap.{text_key, insert}
use long_task_orchestration.Prelude.Eq.{◌==◌}
use long_task_orchestration.Prelude.Json.{string}
use long_task_orchestration.Prelude.Result.{Result, ok, err}
use long_task_orchestration.Prelude.Text.{Text, str, text_eq, trim}
use long_task_orchestration.MergeReview.{
  DiffWithTests, TestGateAction, batchable, immediate_report, build_merge_review, test_gate_action,
}
use long_task_orchestration.AgentJob.{
  AgentJob, AgentResult, JobStatus, failed, Sandbox, workspace_write, sandbox_str, status_beq,
  unknown,
}
use long_task_orchestration.Dispatch.{from_tokens, size_beq, unwrap_or, u64_max}
use long_task_orchestration.Scheduler.Plan.{opens, is_nil, is_none}

abbrev write_task_types : List Text
write_task_types =
    str "write" ∷ str "implementation" ∷ str "feature" ∷ str "migration" ∷ str "refactor" ∷ []

abbrev is_workspace_write : Sandbox → Bool
is_workspace_write workspace_write = true
is_workspace_write _ = false

abbrev unwrap_or_zero : Option ℕ → ℕ
unwrap_or_zero none = 0
unwrap_or_zero (some n) = n

-- The tokens of a prompt whose text was read, by its number of characters.
unfoldable pub estimate_prompt_tokens : Option Text → ℕ
estimate_prompt_tokens none = 0
estimate_prompt_tokens (some text) = min (length text + 3) u64_max / 4

-- What became of the worktree of a write task.
pub data Worktree : Type 0 where
  pruned kept : Worktree

gate_text : TestGateAction → Text
gate_text batchable = str "batchable"
gate_text immediate_report = str "immediate_report"

module _ {F : Type 0} where
  unfoldable pub is_write_task_type : AgentJob F → Bool
  is_write_task_type job = elim job.task_type [
    | none ↦ false
    | some t ↦ any (λ write_type. t == write_type) write_task_types
  ]

  unfoldable pub job_needs_worktree : AgentJob F → Bool
  unfolding is_write_task_type
  job_needs_worktree job =
      job.needs_worktree
      || (job.isolation == str "worktree"
          || (is_workspace_write job.permission_policy.sandbox && is_write_task_type job))

  unfoldable pub runner_env : AgentJob F → List (Text × Text)
  runner_env job =
      let env = insert (str "CODEX_SANDBOX") (sandbox_str job.permission_policy.sandbox) job.env in
      elim job.model [ none ↦ env | some model ↦ insert (str "CODEX_MODEL") model env ]

  unfoldable pub with_effective_dimensions : AgentJob F → Option Text → AgentJob F
  unfolding estimate_prompt_tokens
  with_effective_dimensions job prompt =
      let descriptor =
        from_tokens (unwrap_or (str "unknown") job.task_type) (estimate_prompt_tokens prompt)
          (unwrap_or_zero job.budget.max_tokens) in
      if not (size_beq job.size unknown) then job else record job { size = descriptor.size }

  -- The result with the review for the host, and with the test gate applied.
  unfoldable pub reviewed : Text → DiffWithTests → AgentResult F → AgentResult F
  unfolding gate_text
  reviewed path diff result =
      let with_review = record result {
        artifacts = result.artifacts ++ ((str "worktree:" ++ path) ∷ []);
        merge_review = some (build_merge_review diff);
        cost =
            insert (str "test_gate_action") (string (gate_text (test_gate_action diff)))
              result.cost;
      } in
      elim (test_gate_action diff) [
        | batchable ↦ with_review
        | immediate_report ↦ record with_review {
          status = failed;
          error = str "test gate failed; merge review requires immediate host attention";
        }
      ]

  unfoldable pub finalize_write_task :
      Text → Result Text DiffWithTests → AgentResult F → AgentResult F × Worktree
  unfolding reviewed
  finalize_write_task path emitted result = elim (status_beq result.status JobStatus.ok) [
    | false ↦ (result, pruned)
    | true ↦ elim emitted [
      | err e ↦ (record result { status = failed; error = str "emit diff: " ++ e }, pruned)
      | ok diff ↦ elim (is_nil (trim diff.diff)) [
        | true ↦ (
          record result { status = failed; error = str "write task produced no worktree changes" },
          pruned,
        )
        | false ↦ (reviewed path diff result, kept)
      ]
    ]
  ]

  -- A write task never opens the jobs behind it, whatever its runner, its diff and its tests say: its
  -- result is no success, or it carries a review that the host has to merge first.
  pub finalize_write_task-closed :
      (path : Text) (emitted : Result Text DiffWithTests) (result : AgentResult F)
      → opens (finalize_write_task path emitted result).0 ≡ false
  unfolding finalize_write_task reviewed opens
  finalize_write_task-closed path emitted result = ground arith

  -- Of a result without a review, the worktree is kept exactly if the result gets one: no worktree is
  -- left that no review names, and none is pruned that the host still has to merge.
  finalize_write_task-kept :
      (path : Text) (emitted : Result Text DiffWithTests) (result : AgentResult F)
      → result.merge_review ≡ none
      → ((finalize_write_task path emitted result).1 ≡ kept)
        ↔ (is_none (finalize_write_task path emitted result).0.merge_review ≡ false)
  unfolding finalize_write_task reviewed
  finalize_write_task-kept path emitted result none_yet = ground (arith, none_yet)
