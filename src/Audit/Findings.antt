-- ===== src/Audit/Findings.antt =====
-- src/audit.rs: findings out of JSON values. The parser of JSON texts (serde_json) and the bodies
-- that the regular expression of a fenced block captures are parameters. The warnings that the source
-- prints on the way are not modelled.
use long_task_orchestration.Prelude.{List, [], ◌∷◌, Option, none, some}
use long_task_orchestration.Prelude.Text.{Text, str, trim}
use long_task_orchestration.Prelude.Json.{
  Json, null, string, object, lookup, member, as_str, as_array,
}
use long_task_orchestration.Audit.{
  Finding, ReportedConfidence, Severity, normalize_severity, normalize_reported_confidence_level,
}

abbrev pub and_then : {A B : Type 0} → Option A → (A → Option B) → Option B
and_then none f = none
and_then (some a) f = f a

abbrev pub or_else : {A : Type 0} → Option A → Option A → Option A
or_else none b = b
or_else (some a) b = some a

-- The first result that is there: `find_map`.
unfoldable pub find_map : {A B : Type 0} → (A → Option B) → List A → Option B
find_map f [] = none
find_map f (a ∷ rest) = or_else (f a) (find_map f rest)

-- What the program has from serde_json and from its regular expression for fenced blocks.
pub record Reader (F : Type 0) : Type 0 where
  -- `serde_json::from_str::<Value>`
  pub from_str : Text → Option (Json F)
  -- The first group of each match, in order.
  pub fence_bodies : Text → List Text

module _ {F : Type 0} where
  unfoldable pub optional_string_value : Option (Json F) → Option Text
  optional_string_value (some (string value)) = some value
  optional_string_value _ = none

  -- `ReportedConfidence::deserialize`, which does not fail.
  unfoldable pub deserialize_confidence : Json F → ReportedConfidence
  deserialize_confidence (string level) = record {
    level = normalize_reported_confidence_level level;
    rationale = none;
  }
  deserialize_confidence (object fs) = record {
    level =
        and_then (and_then (lookup (str "level") fs) as_str) normalize_reported_confidence_level;
    rationale = and_then (lookup (str "rationale") fs) as_str;
  }
  deserialize_confidence _ = record { level = none; rationale = none }

  unfoldable pub not_null : Option (Json F) → Option (Json F)
  not_null (some null) = none
  not_null value = value

  finding_of : Json F → Severity → Text → Finding
  unfolding not_null optional_string_value deserialize_confidence
  finding_of obj severity claim = record {
    severity = severity;
    claim = claim;
    reported_confidence =
        and_then (not_null (member (str "reported_confidence") obj))
          (λ value. some (deserialize_confidence value));
    invalidated_when = optional_string_value (member (str "invalidated_when") obj);
    evidence_to_check = and_then (member (str "evidence_to_check") obj) as_str;
    file =
        or_else (and_then (member (str "file") obj) as_str)
          (and_then (and_then (member (str "location") obj) (λ v. member (str "file") v)) as_str);
    source = and_then (member (str "source") obj) as_str;
  }

  -- A value that is no object has no members, so that no finding is read from it.
  unfoldable pub parse_finding_value : Json F → Option Finding
  unfolding finding_of
  parse_finding_value item = and_then (member (str "severity") item) λ sev.
      and_then (as_str sev) λ text. and_then (normalize_severity text) λ severity.
        and_then (member (str "claim") item)
          λ claim. and_then (as_str claim) λ claim_text. some (finding_of item severity claim_text)

  -- `collect::<Option<Vec<_>>>`: one value that is no finding drops them all.
  unfoldable pub collect_findings : List (Json F) → Option (List Finding)
  unfolding parse_finding_value
  collect_findings [] = some []
  collect_findings (item ∷ items) = elim (parse_finding_value item) [
    | none ↦ none
    | some found ↦ and_then (collect_findings items) (λ rest. some (found ∷ rest))
  ]

  unfoldable pub parse_findings_values : List (Json F) → Option (List Finding)
  unfolding collect_findings
  parse_findings_values [] = none
  parse_findings_values (item ∷ items) = collect_findings (item ∷ items)

  unfoldable pub parse_valid_findings_values : List (Json F) → List Finding
  unfolding parse_finding_value
  parse_valid_findings_values [] = []
  parse_valid_findings_values (item ∷ items) = elim (parse_finding_value item) [
    | none ↦ parse_valid_findings_values items
    | some found ↦ found ∷ parse_valid_findings_values items
  ]

  module _ (reader : Reader F) where
    unfoldable pub parse_findings_json : Text → Option (List Finding)
    unfolding parse_findings_values
    parse_findings_json text = and_then (reader.from_str (trim text)) λ value.
        and_then (or_else (as_array value) (and_then (member (str "findings") value) as_array))
          parse_findings_values

    unfoldable pub parse_findings_text : Text → Option (List Finding)
    unfolding parse_findings_json find_map
    parse_findings_text text =
        or_else (parse_findings_json text) (find_map parse_findings_json (reader.fence_bodies text))
