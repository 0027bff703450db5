-- ===== src/Merge/Save.antt =====
-- src/commands/util.rs: `merge_concurrent_state`. The text of a JSON value (serde_json) is a
-- parameter; the snapshots of the workspace and of the environment, which are never looked into, are
-- the types `W` and `E`.
use long_task_orchestration.Prelude.{
  ℕ, Bool, true, false, not, ◌&&◌, List, [], ◌∷◌, Option, none, some, if◌then◌else◌,
}
use long_task_orchestration.Prelude.Json.{
  Json, array, object, nil, Fields, end, field, lookup, member, list_of, items_of, is_null,
}
use long_task_orchestration.Prelude.Render.{concat, join_with}
use long_task_orchestration.Prelude.Text.{Text, str, text_beq, text_ltb}
use long_task_orchestration.AgentTurn.Window.{DispatchWindowState}
use long_task_orchestration.Budget.{RunBudget}
use long_task_orchestration.Merge.Stable.{merge_stable_by_key}
use long_task_orchestration.Merge.Items.{or_item}

pub record DeliveryContract (F : Type 0) : Type 0 where
  pub schema_version : ℕ  -- u64
  pub targets : List Text
  pub constraints : List Text
  pub instruments : List Text
  pub forced_entropy : List Text
  pub extra : Fields F

pub record LtoState (F W E : Type 0) : Type 0 where
  pub schema_version : ℕ  -- u64
  pub run_id : Text
  pub goal : Text
  pub why : Text
  pub done_when : Text
  pub started_at : Text
  pub host_runtime : Text
  pub workspace : W
  pub environment_snapshot : E
  pub current_phase : Text
  pub original_user_request : Text
  pub phase_transitions : Json F
  pub tasks : Json F
  pub active_task_id : Json F
  pub risk_points : Json F
  pub agent_runs : Json F
  pub decision_escalate_points : Json F
  pub gates : Json F
  pub budget : RunBudget F
  pub delivery_contract : DeliveryContract F
  pub last_failure : Json F
  pub user_decisions : Json F
  pub next_action : Json F
  pub blocked_by : Json F
  pub notify_cmd : Option Text
  pub dispatch_windows : List DispatchWindowState
  pub artifacts : Json F
  pub extra : Fields F

abbrev or_text : Option Text → Text → Text
or_text none t = t
or_text (some s) t = s

module _ {F : Type 0} where
  unfoldable pub json_collection_is_empty : Json F → Bool
  json_collection_is_empty (array nil) = true
  json_collection_is_empty (object end) = true
  json_collection_is_empty _ = false

  -- `Map::insert`: the fields are in the order of their names.
  unfoldable pub insert_field : Text → Json F → Fields F → Fields F
  unfolding text_beq text_ltb
  insert_field name v end = field name v end
  insert_field name v (field other w rest) =
      let later = insert_field name v rest in
      if text_beq other name
      then field name v rest
      else if text_ltb name other
      then field name v (field other w rest)
      else field other w later

  -- `json_array` with the merged items, or the current value if the next one is empty.
  unfoldable pub merge_json_array_by_key : (Json F → Text) → Json F → Json F → Json F
  unfolding merge_stable_by_key json_collection_is_empty
  merge_json_array_by_key key (array current) (array next) =
      array (items_of (merge_stable_by_key key (list_of current) (list_of next)))
  merge_json_array_by_key key current next =
      if json_collection_is_empty next && not (json_collection_is_empty current)
      then current
      else next

  module _ (show_json : Json F → Text) where
    -- `value.get(field).filter(|value| !value.is_null())`
    abbrev present : Text → Json F → Option (Json F)
    present name value = elim (member name value) [
      | none ↦ none
      | some v ↦ if is_null v then none else some v
    ]

    unfoldable pub json_field_key : Json F → Text → Option Text
    unfolding member concat
    json_field_key value name = elim (present name value) [
      | none ↦ none
      | some v ↦ some (concat (name ∷ str ":" ∷ show_json v ∷ []))
    ]

    unfoldable pub json_id_key : Json F → Text
    unfolding json_field_key
    json_id_key value = or_text (json_field_key value (str "id")) (show_json value)

    unfoldable pub decision_escalate_key : Json F → Text
    unfolding json_field_key
    decision_escalate_key value =
        or_text (or_item (json_field_key value (str "id")) (json_field_key value (str "key")))
          (show_json value)

    -- The texts of the named members, if all of them are there.
    unfoldable pub parts_of : List Text → Json F → Option (List Text)
    unfolding member
    parts_of [] value = some []
    parts_of (name ∷ names) value = elim (present name value) [
      | none ↦ none
      | some v ↦ elim (parts_of names value) [
        | none ↦ none
        | some parts ↦ some (show_json v ∷ parts)
      ]
    ]

    unfoldable pub phase_transition_key : Json F → Text
    unfolding parts_of join_with
    phase_transition_key value =
        elim (parts_of (str "from" ∷ str "to" ∷ str "at" ∷ str "head" ∷ []) value) [
          | some parts ↦ join_with (str "|") parts
          | none ↦ show_json value
        ]

    unfoldable pub agent_run_key : Json F → Text
    unfolding member concat
    agent_run_key value = elim (member (str "job_id") value) [
      | some (Json.string job_id) ↦ elim (member (str "attempts") value) [
        | some attempts ↦ concat (job_id ∷ str "#" ∷ show_json attempts ∷ [])
        | none ↦ show_json value
      ]
      | _ ↦ show_json value
    ]

    -- The entries of one task.
    abbrev merge_entries : Option (Json F) → Json F → Json F
    merge_entries none entries = entries
    merge_entries (some current) entries = merge_json_array_by_key agent_run_key current entries

    unfoldable pub merge_run_fields : Fields F → Fields F → Fields F
    unfolding insert_field lookup merge_json_array_by_key agent_run_key
    merge_run_fields merged end = merged
    merge_run_fields merged (field task_key entries rest) =
        merge_run_fields
          (insert_field task_key (merge_entries (lookup task_key merged) entries) merged) rest

    unfoldable pub merge_agent_runs : Json F → Json F → Json F
    unfolding merge_run_fields merge_json_array_by_key agent_run_key
    merge_agent_runs (object current) (object next) = object (merge_run_fields current next)
    merge_agent_runs current next = merge_json_array_by_key agent_run_key current next

    module _ {W E : Type 0} where
      unfoldable pub merge_concurrent_state : LtoState F W E → LtoState F W E → LtoState F W E
      unfolding merge_stable_by_key merge_json_array_by_key json_id_key phase_transition_key
          decision_escalate_key merge_agent_runs
      merge_concurrent_state current next = record next {
        dispatch_windows =
            merge_stable_by_key (λ w. w.window_id) current.dispatch_windows next.dispatch_windows;
        risk_points = merge_json_array_by_key json_id_key current.risk_points next.risk_points;
        phase_transitions =
            merge_json_array_by_key phase_transition_key current.phase_transitions
              next.phase_transitions;
        user_decisions =
            merge_json_array_by_key json_id_key current.user_decisions next.user_decisions;
        decision_escalate_points =
            merge_json_array_by_key decision_escalate_key current.decision_escalate_points
              next.decision_escalate_points;
        agent_runs = merge_agent_runs current.agent_runs next.agent_runs;
        notify_cmd = or_item next.notify_cmd current.notify_cmd;
        goal = current.goal;
        why = current.why;
        done_when = current.done_when;
        host_runtime = current.host_runtime;
        delivery_contract = current.delivery_contract;
      }
