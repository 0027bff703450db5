-- ===== src/Events.antt =====
-- src/events.rs: the event log of a run. The log is a counter file and the lines of events.jsonl. The
-- printer and the parser of JSON texts (serde_json), the redaction (regular expressions) and the clock
-- are parameters. The lock is taken or not: its files and its recovery are not modelled. `Wait` is the
-- wait for an event, `Digits` reads the counter back, and `Log`
-- and `Readings` prove what the ids of a log and its readings are.
pub mod Wait
pub mod Digits
pub mod Log
pub mod Readings
use long_task_orchestration.Prelude.{
  ℕ, suc, ◌+◌, ◌*◌, ◌-◌, Bool, true, false, not, ◌&&◌, ◌||◌, List, [], ◌∷◌, ◌++◌, map, Option, none,
  some, filter, length, leb, eqb, if◌then◌else◌,
}
use long_task_orchestration.Prelude.Eq.{contains, nat_eq}
use long_task_orchestration.Prelude.Json.{
  Json, null, boolean, pos_int, string, array, object, Fields, end, field, member, items_of,
}
use long_task_orchestration.Prelude.Render.{concat}
use long_task_orchestration.Prelude.Result.{Result, ok, err, ◌>>=◌, ◌>>◌, bail_if, map_err}
use long_task_orchestration.Prelude.Text.{Text, str, text_eq, trim, is_empty, show_nat}
use long_task_orchestration.AgentTurn.Route.{validate_run_id}
use long_task_orchestration.Dispatch.{u64_max}

abbrev pub warn_at : ℕ
warn_at = 10000

abbrev pub hard_stop_at : ℕ
hard_stop_at = 50000

abbrev pub known_event_types : List Text
known_event_types =
    str "run.started"
    ∷ str "run.closed"
    ∷ str "contract.updated"
    ∷ str "phase.changed"
    ∷ str "task.created"
    ∷ str "task.status_changed"
    ∷ str "runner.started"
    ∷ str "runner.finished"
    ∷ str "runner.retry"
    ∷ str "runner.healthcheck"
    ∷ str "agent.turn.completed"
    ∷ str "agent.session.ended"
    ∷ str "agent.dispatch.completed"
    ∷ str "runner.window.cleaned"
    ∷ str "artifact.registered"
    ∷ str "audit.dispatched"
    ∷ str "audit.finding"
    ∷ str "audit.round.recorded"
    ∷ str "audit.ledger.evaluated"
    ∷ str "gate.evaluated"
    ∷ str "gate.blocked"
    ∷ str "budget.warned"
    ∷ str "budget.exceeded"
    ∷ str "sandbox.rejected"
    ∷ str "judge.skipped"
    ∷ str "decision.voted"
    ∷ str "decision.escalated"
    ∷ str "decision.recorded"
    ∷ str "decision.reaffirmed"
    ∷ []

abbrev pub actor_kinds : List Text
actor_kinds = str "host" ∷ str "lto" ∷ str "runner" ∷ str "auditor" ∷ str "human" ∷ []

pub record EventRecord (F : Type 0) : Type 0 where
  pub event_type : Text
  pub actor_kind : Text
  pub actor_id : Option Text
  pub phase : Option Text
  pub task_id : Option Text
  pub object_id : Option Text
  pub object_type : Option Text
  pub summary : Text
  pub artifact_refs : List Text
  pub contains_raw_output : Bool
  pub fields : Json F
  pub force : Bool

-- The text of the counter file, if there is one, and the lines of the log.
pub record EventLog : Type 0 where
  pub counter : Option Text
  pub lines : List Text

pub data EmitError : Type 0 where
  invalid_run_id invalid_event_type invalid_actor_kind : Text → EmitError
  raw_output no_state lock_timeout : EmitError
  hard_stop : ℕ → EmitError

-- What an emit has from serde_json, from the redaction and from the clock.
pub record Emitter (F : Type 0) : Type 0 where
  pub show_json : Json F → Text
  pub from_str : Text → Option (Json F)
  pub clean_text : Text → Text
  pub clean_value : Json F → Json F
  pub now : Text

unfoldable pub parse_digits : ℕ → Text → Option ℕ
parse_digits n [] = some n
parse_digits n (c ∷ s) =
    let next = n * 10 + (c - 48) in
    let rest = parse_digits next s in
    if leb 48 c && leb c 57 then (if leb next u64_max then rest else none) else none

-- `str::parse::<usize>`, on 64 bits.
unfoldable pub parse_usize : Text → Option ℕ
unfolding parse_digits
parse_usize [] = none
parse_usize (c ∷ s) =
    if eqb c b'+'
    then (elim s [ [] ↦ none | d ∷ ds ↦ parse_digits 0 (d ∷ ds) ])
    else parse_digits 0 (c ∷ s)

abbrev pub not_blank : Text → Bool
not_blank line = not (is_empty (trim line))

unfoldable pub count_file_events : List Text → ℕ
unfolding filter
count_file_events lines = length (filter not_blank lines)

-- The count, and the log without a counter file that could not be read.
unfoldable pub read_event_counter : EventLog → ℕ × EventLog
unfolding count_file_events parse_usize trim
read_event_counter log = elim log.counter [
  | none ↦ (count_file_events log.lines, log)
  | some text ↦ elim (parse_usize (trim text)) [
    | some count ↦ (count, log)
    | none ↦ (count_file_events log.lines, record log { counter = none })
  ]
]

unfoldable pub write_event_counter : EventLog → ℕ → EventLog
unfolding show_nat
write_event_counter log count = record log { counter = some (show_nat count) }

abbrev is_none : {A : Type 0} → Option A → Bool
is_none none = true
is_none (some a) = false

-- `fields.is_null()`, or an object without fields.
abbrev no_fields : {F : Type 0} → Json F → Bool
no_fields null = true
no_fields (object end) = true
no_fields _ = false

abbrev is_null : {F : Type 0} → Json F → Bool
is_null null = true
is_null _ = false

-- `event.get("event_id").and_then(Value::as_u64)`
unfoldable pub event_id : {F : Type 0} → Json F → Option ℕ
unfolding member
event_id event = elim (member (str "event_id") event) [ some (pos_int id) ↦ some id | _ ↦ none ]

module _ {F : Type 0} (emitter : Emitter F) where
  abbrev redacted : Option Text → Json F
  redacted none = null
  redacted (some t) = string (emitter.clean_text t)

  abbrev with_fields : Json F → Fields F → Fields F
  with_fields fields rest = if no_fields fields then rest else field (str "fields") fields rest

  -- The event, with its members in the order of their names.
  unfoldable pub event_of : Text → EventRecord F → ℕ → Json F
  event_of run_id rec id = object (
      field (str "actor")
        (object (
          field (str "id") (redacted rec.actor_id)
            (field (str "kind") (string rec.actor_kind) end)))
        (field (str "artifact_refs")
          (array (items_of (map (λ item. string (emitter.clean_text item)) rec.artifact_refs)))
          (field (str "at") (string emitter.now) (
            field (str "event_id") (pos_int id) (
              with_fields (emitter.clean_value rec.fields) (
                field (str "object_id") (redacted rec.object_id) (
                  field (str "object_type") (redacted rec.object_type) (
                    field (str "phase") (redacted rec.phase) (
                      field (str "privacy")
                        (object (
                          field (str "contains_raw_output") (boolean false) (
                            field (str "redaction_status")
                              (string (
                                if is_empty rec.summary && is_null rec.fields
                                then str "not_required"
                                else str "passed"))
                              end)))
                        (field (str "run_id") (string run_id) (
                          field (str "schema_version") (pos_int 1) (
                            field (str "summary") (string (emitter.clean_text rec.summary)) (
                              field (str "task_id") (redacted rec.task_id)
                                (field (str "type") (string rec.event_type) end))))))))))))))

  -- What is checked before the log is touched.
  unfoldable pub emit_guard : Text → EventRecord F → Bool → Bool → Result EmitError (Unit {0})
  unfolding validate_run_id contains
  emit_guard run_id rec has_state locked = map_err invalid_run_id (validate_run_id run_id) >>= λ id.
      bail_if (not (contains known_event_types rec.event_type)) (invalid_event_type rec.event_type)
      >> bail_if (not (contains actor_kinds rec.actor_kind)) (invalid_actor_kind rec.actor_kind)
      >> bail_if rec.contains_raw_output raw_output
      >> bail_if (not has_state) no_state
      >> bail_if (not locked) lock_timeout

  -- The line at the end of a log whose counter is written.
  unfoldable pub append_event : EventLog → Json F → EventLog
  append_event log event = record log { lines = log.lines ++ (emitter.show_json event ∷ []) }

  unfoldable pub emit :
      Text → EventRecord F → Bool → Bool → EventLog → Result EmitError (Json F) × EventLog
  unfolding emit_guard read_event_counter write_event_counter append_event event_of
  emit run_id rec has_state locked log = elim (emit_guard run_id rec has_state locked) [
    | err e ↦ (err e, log)
    | ok _ ↦
        let (count, known) = read_event_counter log in
        let event = event_of run_id rec (suc count) in
        if leb hard_stop_at count && not rec.force
        then (err (hard_stop count), known)
        else (ok event, append_event (write_event_counter known (suc count)) event)
  ]

  -- The events of the lines, the first of each id.
  unfoldable pub read_lines : List ℕ → List Text → List (Json F)
  unfolding event_id contains
  read_lines seen [] = []
  read_lines seen (line ∷ lines) =
      if not_blank line
      then (elim (emitter.from_str line) [
        | none ↦ read_lines seen lines
        | some item ↦ elim (event_id item) [
          | none ↦ item ∷ read_lines seen lines
          | some id ↦ elim (contains seen id) [
            | true ↦ read_lines seen lines
            | false ↦ item ∷ read_lines (id ∷ seen) lines
          ]
        ]
      ])
      else read_lines seen lines

  unfoldable pub read : EventLog → List (Json F)
  unfolding read_lines
  read log = read_lines [] log.lines
