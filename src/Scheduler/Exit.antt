-- ===== src/Scheduler/Exit.antt =====
-- src/scheduler.rs: `classify_exit`, the marker search, and the results made from an attempt.
pub mod Laws
use Prim.Native.Nat.{ℕ}
use long_task_orchestration.Prelude.{
  suc, Bool, true, false, not, ◌&&◌, ◌||◌, List, [], ◌∷◌, ◌++◌, Option, none, some, any, ltb, leb,
  if◌then◌else◌, length, take,
}
use long_task_orchestration.Prelude.Int.{ℤ, pos, is_code, show_int}
use long_task_orchestration.Prelude.Json.{Json, string, boolean}
use long_task_orchestration.Prelude.Text.{Text, str, is_empty, trim, eq_ignore_ascii_case}
use long_task_orchestration.AgentJob.{
  AgentJob, AgentResult, JobStatus, ok, failed, timeout, rate_limited, quota_exhausted, skipped,
  PermissionPolicy, sandbox_str,
}

abbrev pub rate_limit_markers : List Text
rate_limit_markers =
    str "429"
    ∷ str "too many requests"
    ∷ str "rate limit"
    ∷ str "rate_limit"
    ∷ str "rate limited"
    ∷ []

abbrev pub quota_exhausted_markers : List Text
quota_exhausted_markers =
    str "insufficient_quota"
    ∷ str "insufficient quota"
    ∷ str "exceeded your current quota"
    ∷ str "quota exceeded"
    ∷ str "quota reached"
    ∷ str "upgrade your subscription"
    ∷ str "out of credits"
    ∷ str "credits_depleted"
    ∷ str "credit balance"
    ∷ str "billing hard limit"
    ∷ str "check your plan and billing"
    ∷ []

-- `windows(n).any(..)`: the windows of a text are the first `n` characters of its suffixes that
-- have that many. The markers are ASCII, so a window of bytes that matches is one of characters.
any_window : Text → Text → Bool
any_window [] needle = false
any_window (c ∷ s) needle =
    leb (length needle) (length (c ∷ s))
      && eq_ignore_ascii_case (take (length needle) (c ∷ s)) needle
    || any_window s needle

unfoldable pub contains_ascii_case_insensitive : Text → Text → Bool
unfolding any_window
contains_ascii_case_insensitive haystack needle =
    not (is_empty needle) && leb (length needle) (length haystack) && any_window haystack needle

unfoldable pub contains_rate_limit_marker : Text → Bool
contains_rate_limit_marker text = any (contains_ascii_case_insensitive text) rate_limit_markers

unfoldable pub contains_quota_exhausted_marker : Text → Bool
contains_quota_exhausted_marker text =
    any (contains_ascii_case_insensitive text) quota_exhausted_markers

pub record ClassifiedExit : Type 0 where
  pub exit_code : ℤ
  pub status : JobStatus
  pub error : Text

-- The first 500 characters, and dots if there are more.
tail_of : Text → Text
tail_of stderr =
    let kept = take 500 stderr in if ltb 500 (length stderr) then kept ++ str "..." else kept

pub failure_error : ℤ → Text → Text
unfolding tail_of
failure_error code stderr =
    let trimmed = trim stderr in
    let error = str "exit code " ++ show_int code in
    if is_empty trimmed then error else error ++ str ": " ++ tail_of trimmed

unfoldable pub classify_exit : Text → ℤ → Text → Text → ClassifiedExit
classify_exit runner code reply stderr =
    if is_code 0 code
    then (if is_empty reply
        then record { exit_code = code; status = failed; error = str "exit 0 but empty reply" }
        else record { exit_code = code; status = ok; error = [] })
    else if contains_quota_exhausted_marker stderr || contains_quota_exhausted_marker reply
    then record {
      exit_code = code;
      status = quota_exhausted;
      error =
          runner
          ++ (str " quota/credits exhausted (exit="
              ++ (show_int code
                  ++ str "); retrying will not help — switch runner or top up the account"));
    }
    else if contains_rate_limit_marker stderr || contains_rate_limit_marker reply
    then record {
      exit_code = code;
      status = rate_limited;
      error = str "rate limited (exit=" ++ (show_int code ++ str ")");
    }
    else if is_code 124 code
    then record { exit_code = code; status = timeout; error = str "timeout (exit 124)" }
    else record { exit_code = code; status = failed; error = failure_error code stderr }

module _ {F : Type 0} where
  -- `BTreeMap::from` of four pairs, in the order of the keys.
  unfoldable pub permission_snapshot : PermissionPolicy → List (Text × Json F)
  permission_snapshot policy =
      (str "allow_headless_write", boolean policy.allow_headless_write)
      ∷ (str "reason", string policy.reason)
      ∷ (str "sandbox", string (sandbox_str policy.sandbox))
      ∷ (str "user_approved", boolean policy.user_approved)
      ∷ []

  -- The result of a job that has no reply, no findings and no artifacts.
  blank_result : AgentJob F → JobStatus → Option ℤ → ℕ → Text → AgentResult F
  blank_result job status code attempts error = record {
    job_id = job.job_id;
    runner = job.runner;
    model = job.model;
    status = status;
    exit_code = code;
    findings = [];
    reply_text = [];
    cost = [];
    permissions = [];
    artifacts = [];
    attempts = attempts;
    error = error;
    task_type = job.task_type;
    size = job.size;
    merge_review = none;
  }

  unfoldable pub result_from_attempt : AgentJob F → ℤ → Text → Text → ℕ → AgentResult F
  unfolding blank_result
  result_from_attempt job code reply stderr attempts =
      let classified = classify_exit job.runner code reply stderr in
      let made =
        blank_result job classified.status (some classified.exit_code) attempts classified.error in
      record made { reply_text = reply }

  unfoldable pub skipped_for_unhealthy : AgentJob F → AgentResult F
  unfolding blank_result
  skipped_for_unhealthy job =
      blank_result job skipped none 0 (str "runner unhealthy: " ++ job.runner)

  unfoldable pub failure_result : AgentJob F → ℕ → Option ℤ → Text → AgentResult F
  unfolding blank_result
  failure_result job attempts code error =
      let made = blank_result job failed code attempts error in
      record made { permissions = permission_snapshot job.permission_policy }

  unfoldable pub timeout_result : AgentJob F → ℕ → Text → Text → AgentResult F
  unfolding failure_result
  timeout_result job attempts reply error =
      let made = failure_result job attempts (some (pos 124)) [] in
      record made {
        status = timeout;
        exit_code = some (pos 124);
        reply_text = reply;
        error = error;
      }

  unfoldable pub skipped_for_dependency : AgentJob F → Text → AgentResult F
  unfolding blank_result
  skipped_for_dependency job reason =
      let made = blank_result job skipped none 0 reason in
      record made { permissions = permission_snapshot job.permission_policy }
