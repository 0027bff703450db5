-- ===== src/AgentTurn.antt =====
-- src/agent_turn.rs: what a reported turn counts as. `Window` finishes the dispatch window of a turn
-- that completed its dispatch, and `Cleanup` is about that. Reading the payload, the events and the
-- notifications are not modelled.
pub mod Window
pub mod Cleanup
pub mod Route
pub mod Routed
use long_task_orchestration.Prelude.{
  ℕ, Bool, true, false, not, ◌&&◌, ◌||◌, ◌≡◌, ◌⊎◌, inl, inr, refl, List, [], ◌∷◌, ◌++◌, Option,
  none, some, if◌then◌else◌, arith,
}
use long_task_orchestration.Prelude.Eq.{◌==◌}
use long_task_orchestration.Prelude.Int.{ℤ, pos}
use long_task_orchestration.Prelude.Result.{Result, ok, err, ◌>>=◌, ◌>>◌, bail_if}
use long_task_orchestration.Prelude.Text.{Text, str, text_eq, text_beq, text_beq_iff, ends_with}

abbrev pub is_some {ℓ} : {A : Type ℓ} → Option A → Bool
is_some none = false
is_some (some a) = true

pub record Completion : Type 0 where
  pub goal_completion_proof : Option Text
  pub dispatch_completed : Bool
  pub event_type : Text
  pub effective_rc : Option ℤ
  pub completion_scope : Text

-- A turn is passed over, or recorded on a run.
pub data Turn : Type 0 where
  ignored : Turn
  recorded : (run_id : Text) (completion : Completion) → Turn

-- `payload_proof` is what `payload_goal_completion_proof` finds in the payload.
unfoldable pub proof_of : Text → Option Text → Option Text
proof_of source payload_proof =
    if source == str "goal-self-report"
    then some (str "goal-self-report")
    else if source == str "codex-stop-hook"
    then payload_proof
    else none

unfoldable pub is_process_exit : Text → Bool
is_process_exit source = ends_with source (str "-process-exit")

unfoldable pub classify_turn : Text → Option Text → Option ℤ → Option Text → Completion
unfolding proof_of is_process_exit
classify_turn source run_id rc payload_proof =
    let self_report = source == str "goal-self-report" in
    let proof = proof_of source payload_proof in
    let process_exit = is_process_exit source in
    let dispatch_completed = (is_some proof || process_exit) && is_some run_id in
    let session_end = ends_with source (str "-session-end-hook") in
    record {
      goal_completion_proof = proof;
      dispatch_completed = dispatch_completed;
      event_type =
          if dispatch_completed
          then str "agent.dispatch.completed"
          else if session_end
          then str "agent.session.ended"
          else str "agent.turn.completed";
      effective_rc =
          if self_report || process_exit then rc else if is_some proof then some (pos 0) else rc;
      completion_scope =
          if dispatch_completed
          then str "dispatch"
          else if session_end
          then str "session"
          else str "turn";
    }

pub data TurnError : Type 0 where
  requires_run_id no_such_run : TurnError
  route_failed : Text → TurnError

-- `routed` is what `route_run` returns.
routed_turn : Text → Option Text → Option ℤ → Option Text → Option Text → Result TurnError Turn
unfolding classify_turn
routed_turn source run_id rc payload_proof none =
    if source == str "goal-self-report" then err no_such_run else ok ignored
routed_turn source run_id rc payload_proof (some run) =
    ok (recorded run (classify_turn source run_id rc payload_proof))

unfoldable pub agent_turn_completed :
    Text → Option Text → Option ℤ → Option Text → Result Text (Option Text) → Result TurnError Turn
unfolding routed_turn
agent_turn_completed source run_id rc payload_proof routed =
    if (source == str "goal-self-report") && not (is_some run_id)
    then err requires_run_id
    else elim routed [
      | err e ↦ err (route_failed e)
      | ok run ↦ routed_turn source run_id rc payload_proof run
    ]

-- A turn counts as the completion of a dispatch only if the caller named the run, and its source is a
-- report of the agent or the exit of its process, or its payload proves the goal complete.
pub agent_turn_completed-named :
    (source : Text) (run_id : Option Text) (rc : Option ℤ) (payload_proof : Option Text)
    (routed : Result Text (Option Text)) (run : Text) (completion : Completion)
    → agent_turn_completed source run_id rc payload_proof routed ≡ ok (recorded run completion)
    → completion.dispatch_completed ≡ true
    → (is_some run_id ≡ true)
      × ((source ≡ str "goal-self-report")
          ⊎ (is_process_exit source ≡ true)
          ⊎ (is_some payload_proof ≡ true))
unfolding agent_turn_completed routed_turn classify_turn proof_of
agent_turn_completed-named source run_id rc payload_proof routed run completion h done =
    ground (arith, text_beq_iff source (str "goal-self-report"))

-- A report of the agent about itself is never passed over: it is an error, or it is recorded as the
-- completion of a dispatch, with the exit code that the agent gave.
pub agent_turn_completed-self_report :
    (run_id : Option Text) (rc : Option ℤ) (payload_proof : Option Text)
    (routed : Result Text (Option Text))
    → ((e : TurnError) × (agent_turn_completed
            (str "goal-self-report")
            run_id
            rc
            payload_proof
            routed
          ≡ err e))
      ⊎ ((run : Text) × (completion : Completion) × (agent_turn_completed
              (str "goal-self-report")
              run_id
              rc
              payload_proof
              routed
            ≡ ok (recorded run completion))
          × (completion.event_type ≡ str "agent.dispatch.completed")
          × (completion.effective_rc ≡ rc))
unfolding agent_turn_completed routed_turn classify_turn proof_of text_beq
agent_turn_completed-self_report none rc payload_proof routed = inl (_, refl)
agent_turn_completed-self_report (some id) rc payload_proof (err e) = inl (_, refl)
agent_turn_completed-self_report (some id) rc payload_proof (ok none) = inl (_, refl)
agent_turn_completed-self_report (some id) rc payload_proof (ok (some run)) =
    inr (run, _, refl, refl, refl)
