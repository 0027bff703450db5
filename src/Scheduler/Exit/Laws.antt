-- ===== src/Scheduler/Exit/Laws.antt =====
-- src/scheduler.rs: the status that `classify_exit` gives.
use long_task_orchestration.Prelude.{◌≡◌, Bool, true, false, ◌||◌, arith, ◌↔◌}
use long_task_orchestration.Prelude.Int.{ℤ, is_code}
use long_task_orchestration.Prelude.Text.{Text, is_empty}
use long_task_orchestration.AgentJob.{JobStatus, ok, timeout, rate_limited, quota_exhausted}
use long_task_orchestration.Scheduler.Exit.{
  classify_exit, contains_rate_limit_marker, contains_quota_exhausted_marker,
}

module _ (runner : Text) (code : ℤ) (reply stderr : Text) where
  abbrev pub status : JobStatus
  status = (classify_exit runner code reply stderr).status

  abbrev pub quota_gone : Bool
  quota_gone = contains_quota_exhausted_marker stderr || contains_quota_exhausted_marker reply

  abbrev pub limited : Bool
  limited = contains_rate_limit_marker stderr || contains_rate_limit_marker reply

  -- A run is a success exactly if it exits with 0 and has a reply; it is out of quota exactly if it
  -- fails with a quota marker, whatever else it shows; it is rate limited exactly if it fails with a
  -- rate limit marker and no quota marker; and it is timed out exactly if it exits with 124 and shows
  -- no marker. The exit code is passed on.
  pub classify_exit-status :
      (status ≡ ok ↔ ((is_code 0 code ≡ true) × (is_empty reply ≡ false)))
      × (status ≡ quota_exhausted ↔ ((is_code 0 code ≡ false) × (quota_gone ≡ true)))
      × (status ≡ rate_limited
          ↔ ((is_code 0 code ≡ false) × (quota_gone ≡ false) × (limited ≡ true)))
      × (status ≡ timeout ↔ ((is_code 124 code ≡ true) × (quota_gone ≡ false) × (limited ≡ false)))
      × ((classify_exit runner code reply stderr).exit_code ≡ code)
  unfolding classify_exit
  classify_exit-status = ground arith
