-- ===== src/Tests/MergeRuns.antt =====
-- src/commands/util.rs, src/process.rs and src/redact.rs at concrete inputs.
use long_task_orchestration.Prelude.{
  ℕ, ◌≡◌, ◌↔◌, ◌⊎◌, true, false, all, refl, List, [], ◌∷◌, ◌++◌, none, some,
}
use long_task_orchestration.Prelude.Json.{
  Json, null, string, array, object, Items, nil, cons, end, field,
}
use long_task_orchestration.Prelude.Text.{Text, str}
use long_task_orchestration.AgentTurn.Window.{DispatchWindowState}
use long_task_orchestration.Merge.Contract.{
  no_items, new_contract, has_sections, is_complete, instrument_has_command, is_complete_iff,
}
use long_task_orchestration.Merge.Save.{DeliveryContract, LtoState}
use long_task_orchestration.Redact.{
  Patterns, AllTexts, Redacted, redact_value, strip, redact_value-Redacted,
}
use long_task_orchestration.Shell.{
  read_word, plain, shell_single_quote, shell_single_quote-read_word,
}
use long_task_orchestration.Tests.Data.{window}

-- The text of a JSON text is the text; other values are not told apart.
abbrev show_json : Json ℕ → Text
show_json (string t) = t
show_json _ = []

abbrev point : Text → Json ℕ
point key = object (field (str "key") (string key) end)

abbrev before : Items ℕ
before = cons (point (str "a")) (cons (point (str "b")) nil)

abbrev after : Items ℕ
after = cons (point (str "c")) (cons (point (str "a")) nil)

abbrev state : Text → List DispatchWindowState → Items ℕ → LtoState ℕ Unit Unit
state goal windows points = record {
  schema_version = 1;
  run_id = str "r1";
  goal = goal;
  why = [];
  done_when = [];
  started_at = str "t0";
  host_runtime = str "claude";
  workspace = tt;
  environment_snapshot = tt;
  current_phase = str "intake";
  original_user_request = [];
  phase_transitions = array nil;
  tasks = array nil;
  active_task_id = null;
  risk_points = array nil;
  agent_runs = array nil;
  decision_escalate_points = array points;
  gates = object end;
  budget = record {
    max_turns = none;
    max_tokens = none;
    hard_deadline = none;
    turns_used = 0;
    warn_ratio = 1;
  };
  delivery_contract = record {
    schema_version = 1;
    targets = [];
    constraints = [];
    instruments = [];
    forced_entropy = [];
    extra = end;
  };
  last_failure = null;
  user_decisions = array nil;
  next_action = null;
  blocked_by = null;
  notify_cmd = none;
  dispatch_windows = windows;
  artifacts = object end;
  extra = end;
}

abbrev stored : LtoState ℕ Unit Unit
stored = state (str "new goal") (window (str "w1") (str "active") ∷ []) before

abbrev saved : LtoState ℕ Unit Unit
saved = state (str "old goal") (window (str "w2") (str "active") ∷ []) after

shell_single_quote-read_word_example :
    read_word plain (shell_single_quote (str "it's $HOME") ++ str " -v")
    ≡ some (str "it's $HOME", str " -v")
shell_single_quote-read_word_example =
    shell_single_quote-read_word (str "it's $HOME") (str " -v") refl

abbrev no_patterns : Patterns
no_patterns = record { replace_secrets = λ t. t; replace_paths = λ t. t; collapse_blanks = λ t. t }

abbrev fields : Json ℕ
fields =
    object (
      field (str "exit") (string (str "0")) (field (str "stdout_tail") (string (str "secret")) end))

redact_value-Redacted_example :
    AllTexts (Redacted no_patterns) (redact_value no_patterns fields)
    × (redact_value no_patterns fields ≡ redact_value no_patterns (strip fields))
redact_value-Redacted_example = redact_value-Redacted no_patterns fields

-- The second of the instruments has a label and no command.
abbrev half_contract : DeliveryContract ℕ
half_contract =
    new_contract (str "ship it" ∷ []) [] (str "tests :: cargo test" ∷ str "lint ::" ∷ []) []

is_complete_iff_example : is_complete half_contract ≡ true ↔ (
    has_sections half_contract ≡ false
    ⊎ (no_items half_contract.targets ≡ false
        × no_items half_contract.instruments ≡ false
        × all instrument_has_command half_contract.instruments ≡ true))
is_complete_iff_example = is_complete_iff half_contract
