-- ===== src/Tests/AgentTurnRuns.antt =====
-- src/agent_turn.rs at concrete inputs.
use long_task_orchestration.Prelude.{
  ℕ, ◌+◌, ◌≡◌, ◌≢◌, ◌⊎◌, inl, inr, refl, Bool, true, false, List, [], ◌∷◌, Option, none, some,
  length, filter, get_elem?,
}
use long_task_orchestration.Prelude.Int.{pos}
use long_task_orchestration.Prelude.Result.{ok, err}
use long_task_orchestration.Prelude.Text.{Text, str}
use long_task_orchestration.AgentTurn.{
  Completion, TurnError, recorded, is_some, is_process_exit, agent_turn_completed,
  agent_turn_completed-named, agent_turn_completed-self_report,
}
use long_task_orchestration.AgentTurn.Window.{
  DispatchWindowState, Windows, Finish, is_active, is_success, finish_dispatch_window, rposition,
}
use long_task_orchestration.AgentTurn.Cleanup.{
  finish_dispatch_window-frame, finish_dispatch_window-settles, finish_dispatch_window-closing,
}
use long_task_orchestration.AgentTurn.Route.{
  Component, root_dir, normal, RunEntry, relative, normalize_path, validate_run_id, route_run,
}
use long_task_orchestration.AgentTurn.Routed.{OpenHere, route_run-open}
use long_task_orchestration.Tests.Data.{window}

abbrev exited : Completion
exited = record {
  goal_completion_proof = none;
  dispatch_completed = true;
  event_type = str "agent.dispatch.completed";
  effective_rc = some (pos 0);
  completion_scope = str "dispatch";
}

exited-recorded :
    agent_turn_completed
      (str "codex-process-exit")
      (some (str "run"))
      (some (pos 0))
      none
      (ok (some (str "run")))
    ≡ ok (recorded (str "run") exited)
unfolding agent_turn_completed long_task_orchestration.Prelude.Text.text_beq
    long_task_orchestration.Prelude.Text.ends_with
exited-recorded = refl

agent_turn_completed-named_example :
    (is_some (some (str "run")) ≡ true)
    × ((str "codex-process-exit" ≡ str "goal-self-report")
        ⊎ (is_process_exit (str "codex-process-exit") ≡ true)
        ⊎ (◌≡◌ {A = Bool} (is_some {A = Text} none) true))
agent_turn_completed-named_example =
    agent_turn_completed-named (str "codex-process-exit") (some (str "run")) (some (pos 0)) none
      (ok (some (str "run"))) (str "run") exited exited-recorded refl

agent_turn_completed-self_report_example :
    ((e : TurnError) × (agent_turn_completed
          (str "goal-self-report")
          (some (str "run"))
          (some (pos 1))
          none
          (ok (some (str "run")))
        ≡ err e))
    ⊎ ((run : Text) × (completion : Completion) × (agent_turn_completed
            (str "goal-self-report")
            (some (str "run"))
            (some (pos 1))
            none
            (ok (some (str "run")))
          ≡ ok (recorded run completion))
        × (completion.event_type ≡ str "agent.dispatch.completed")
        × (completion.effective_rc ≡ some (pos 1)))
agent_turn_completed-self_report_example =
    agent_turn_completed-self_report (some (str "run")) (some (pos 1)) none (ok (some (str "run")))

-- One window that was cleaned before, and the active one.
abbrev two_windows : Windows
two_windows = window (str "@1") (str "cleaned") ∷ window (str "@2") (str "active") ∷ []

abbrev finished : Finish
finished =
    finish_dispatch_window (str "t1") (λ windows. ok tt) (λ bin id. ok none)
      (λ backend target. ok true) (str "codex") (some (str "@2")) (some (pos 0)) two_windows

idle_first : is_active (str "@2") (str "codex") (window (str "@1") (str "cleaned")) ≡ false
unfolding is_active long_task_orchestration.Prelude.Text.text_beq
idle_first = refl

finished-succeeds : finished.outcome ≡ ok tt
unfolding finish_dispatch_window long_task_orchestration.Prelude.Text.text_beq
    long_task_orchestration.AgentTurn.Window.backend_of_str
    long_task_orchestration.AgentTurn.Window.is_window_id long_task_orchestration.Prelude.all
finished-succeeds = refl

finished-closing : finished.closing ≡ true
unfolding finish_dispatch_window long_task_orchestration.Prelude.Text.text_beq
    long_task_orchestration.AgentTurn.Window.backend_of_str
    long_task_orchestration.AgentTurn.Window.is_window_id long_task_orchestration.Prelude.all
finished-closing = refl

second_active : rposition (is_active (str "@2") (str "codex")) two_windows ≡ some 1
unfolding rposition is_active long_task_orchestration.Prelude.Text.text_beq
second_active = refl

finish_dispatch_window-frame_example :
    get_elem? finished.windows 0 ≡ some (window (str "@1") (str "cleaned"))
finish_dispatch_window-frame_example =
    finish_dispatch_window-frame (str "t1") (λ windows. ok tt) (λ bin id. ok none)
      (λ backend target. ok true) (str "codex") (str "@2") (some (pos 0)) two_windows 0
      (window (str "@1") (str "cleaned")) refl idle_first

some_active : rposition (is_active (str "@2") (str "codex")) two_windows ≢ none
some_active h = cc second_active

finish_dispatch_window-settles_example :
    length (filter (is_active (str "@2") (str "codex")) two_windows)
    ≡ length (filter (is_active (str "@2") (str "codex")) finished.windows) + 1
finish_dispatch_window-settles_example =
    finish_dispatch_window-settles (str "t1") (λ windows. ok tt) (λ bin id. ok none)
      (λ backend target. ok true) (str "codex") (str "@2") (some (pos 0)) two_windows
      finished-succeeds some_active

finish_dispatch_window-closing_example :
    (is_success (some (pos 0)) ≡ true)
    × (i : ℕ) × (w : DispatchWindowState) × (get_elem? two_windows i ≡ some w)
    × (is_active (str "@2") (str "codex") w ≡ true)
    × (w.cleanup_on_success ≡ true)
finish_dispatch_window-closing_example =
    finish_dispatch_window-closing (str "t1") (λ windows. ok tt) (λ bin id. ok none)
      (λ backend target. ok true) (str "codex") (str "@2") (some (pos 0)) two_windows
      finished-closing

-- Two open runs of the repository and a closed one; the current run is the older of the open ones.
abbrev entry : Text → Text → Text → Option RunEntry
entry id start phase =
    some
      (record { run_id = id; started_at = start; current_phase = phase; repo_root = relative [] })

abbrev repo_path : List Component
repo_path = root_dir ∷ normal (str "repo") ∷ []

abbrev three_runs : List (Option RunEntry)
three_runs =
    entry (str "old") (str "t1") (str "build")
    ∷ entry (str "new") (str "t2") (str "build")
    ∷ entry (str "done") (str "t3") (str "closed")
    ∷ none
    ∷ []

routes_current :
    route_run repo_path (λ id. true) (some (str "old\n")) (some three_runs) none (some repo_path)
    ≡ ok (some (str "old"))
unfolding route_run long_task_orchestration.Prelude.Text.trim long_task_orchestration.Prelude.any
    long_task_orchestration.AgentTurn.Route.matches_cwd
    long_task_orchestration.Prelude.Text.text_beq
    long_task_orchestration.AgentTurn.Route.workspace_root normalize_path
routes_current = refl

routes_newest :
    route_run repo_path (λ id. true) (some (str "done")) (some three_runs) none (some repo_path)
    ≡ ok (some (str "new"))
unfolding route_run long_task_orchestration.Prelude.Text.trim long_task_orchestration.Prelude.any
    long_task_orchestration.AgentTurn.Route.matches_cwd
    long_task_orchestration.Prelude.Text.text_beq
    long_task_orchestration.AgentTurn.Route.workspace_root normalize_path
    long_task_orchestration.Prelude.Text.text_ltb
routes_newest = refl

routes_named :
    route_run repo_path (λ id. true) none none (some (str "run")) none ≡ ok (some (str "run"))
unfolding route_run validate_run_id long_task_orchestration.Prelude.Text.has_substring
routes_named = refl

route_run-open_example : OpenHere repo_path (normalize_path repo_path) three_runs (str "new")
route_run-open_example =
    route_run-open repo_path (λ id. true) (some (str "done")) three_runs repo_path (str "new")
      routes_newest
