-- ===== src/Merge/Contract.antt =====
-- src/state.rs: whether a run is ready to start, and whether its delivery contract is complete.
use long_task_orchestration.Prelude.{
  Bool, true, false, not, ◌&&◌, ◌||◌, List, [], ◌∷◌, ◌++◌, ◌≡◌, ◌↔◌, ◌⊎◌, refl, map, Option, none,
  some, any, all, filter, if◌then◌else◌, arith,
}
use long_task_orchestration.Prelude.Eq.{contains}
use long_task_orchestration.Prelude.Json.{end}
use long_task_orchestration.Prelude.Render.{join_with, split_whitespace}
use long_task_orchestration.Prelude.Text.{
  Text, str, text_eq, trim, is_empty, split_once, eq_ignore_ascii_case,
}
use long_task_orchestration.Merge.Save.{DeliveryContract}

pub record RunReadinessAssessment : Type 0 where
  pub missing : List Text
  pub advisory : List Text

pub record ContractCompletenessAssessment : Type 0 where
  pub present : Bool
  pub missing : List Text
  pub advisory : List Text

abbrev pub no_items : {A : Type 0} → List A → Bool
no_items [] = true
no_items (x ∷ xs) = false

-- `if test { list.push(name) }`
abbrev pub push_if : Bool → Text → List Text
push_if true name = name ∷ []
push_if false name = []

unfoldable pub assess_run_readiness : Text → Text → Text → Text → RunReadinessAssessment
unfolding trim eq_ignore_ascii_case
assess_run_readiness goal done_when why host = record {
  missing =
      push_if (is_empty (trim goal)) (str "--goal")
      ++ push_if (is_empty (trim done_when)) (str "--done-when");
  advisory =
      push_if (is_empty (trim why)) (str "--why")
      ++ push_if (is_empty (trim host) || eq_ignore_ascii_case (trim host) (str "unknown"))
          (str "--host");
}

-- The words of each text, with one space between them.
abbrev joined_words : Text → Text
joined_words value = join_with (str " ") (split_whitespace value)

unfoldable pub clean_list : List Text → List Text
unfolding filter join_with split_whitespace
clean_list values = filter (λ value. not (is_empty value)) (map joined_words values)

unfoldable pub clean_instruments : List Text → List Text
unfolding join_with split_whitespace
clean_instruments values = map joined_words values

unfoldable pub split_instrument : Text → Option Text × Text
unfolding trim split_once
split_instrument text =
    let instrument = trim text in
    elim (split_once (str "::") instrument) [
      | none ↦ (none, instrument)
      | some (label, command) ↦
          (if is_empty (trim label) then none else some (trim label), trim command)
    ]

unfoldable pub instrument_has_command : Text → Bool
unfolding split_instrument
instrument_has_command instrument = not (is_empty (split_instrument instrument).1)

any-not : (p : Text → Bool) (xs : List Text) → any (λ x. not (p x)) xs ≡ not (all p xs)
unfolding any all
any-not p [] = refl
any-not p (x ∷ xs) = ground (arith, any-not p xs)

-- If all of some items pass a test, one does exactly if there is one.
any-all : (p : Text → Bool) (xs : List Text) → all p xs ≡ true → any p xs ≡ not (no_items xs)
unfolding any all
any-all p [] every = refl
any-all p (x ∷ xs) every = ground arith

module _ {F : Type 0} where
  -- `DeliveryContract::new`
  unfoldable pub new_contract : List Text → List Text → List Text → List Text → DeliveryContract F
  unfolding clean_list clean_instruments
  new_contract targets constraints instruments forced_entropy = record {
    schema_version = 1;
    targets = clean_list targets;
    constraints = clean_list constraints;
    instruments = clean_instruments instruments;
    forced_entropy = clean_list forced_entropy;
    extra = end;
  }

  unfoldable pub missing_sections : DeliveryContract F → List Text
  missing_sections c =
      push_if (no_items c.targets) (str "targets")
      ++ (push_if (no_items c.constraints) (str "constraints")
          ++ (push_if (no_items c.instruments) (str "instruments")
              ++ push_if (no_items c.forced_entropy) (str "forced_entropy")))

  unfoldable pub has_valid_instrument : DeliveryContract F → Bool
  unfolding any instrument_has_command
  has_valid_instrument c = any instrument_has_command c.instruments

  unfoldable pub has_invalid_instrument : DeliveryContract F → Bool
  unfolding any instrument_has_command
  has_invalid_instrument c = any (λ i. not (instrument_has_command i)) c.instruments

  -- The fields without which a contract that is there is not complete.
  unfoldable pub missing_fields : DeliveryContract F → List Text
  unfolding has_valid_instrument has_invalid_instrument contains
  missing_fields c =
      let valid = has_valid_instrument c in
      let first =
        if no_items c.targets && not valid
        then str "--target" ∷ str "--instrument" ∷ []
        else push_if (no_items c.targets) (str "--target")
          ++ push_if (not (no_items c.targets) && not valid) (str "--instrument") in
      first
      ++ push_if (has_invalid_instrument c && not (contains first (str "--instrument")))
          (str "--instrument")

  abbrev pub has_sections : DeliveryContract F → Bool
  has_sections c =
      not (no_items c.targets)
      || (not (no_items c.constraints)
          || (not (no_items c.instruments) || not (no_items c.forced_entropy)))

  unfoldable pub completeness_missing : DeliveryContract F → ContractCompletenessAssessment
  unfolding missing_fields
  completeness_missing c =
      if not (has_sections c)
      then record { present = false; missing = []; advisory = [] }
      else record {
        present = true;
        missing = missing_fields c;
        advisory =
            push_if (no_items c.constraints) (str "--constraint")
            ++ push_if (no_items c.forced_entropy) (str "--entropy-check");
      }

  -- `DeliveryContract::is_complete`
  unfoldable pub is_complete : DeliveryContract F → Bool
  unfolding completeness_missing
  is_complete c = no_items (completeness_missing c).missing

  no_items-missing_fields :
      (c : DeliveryContract F)
      → no_items (missing_fields c) ≡ true ↔ (
          (no_items c.targets ≡ false)
          × (has_valid_instrument c ≡ true)
          × (has_invalid_instrument c ≡ false))
  unfolding missing_fields
  no_items-missing_fields c = ground arith

  is_complete-missing_fields :
      (c : DeliveryContract F)
      → is_complete c ≡ (not (has_sections c) || no_items (missing_fields c))
  unfolding is_complete completeness_missing
  is_complete-missing_fields c = ground arith

  valid_instruments :
      (c : DeliveryContract F)
      → has_valid_instrument c ≡ true × has_invalid_instrument c ≡ false
        ↔ no_items c.instruments ≡ false × all instrument_has_command c.instruments ≡ true
  unfolding has_valid_instrument has_invalid_instrument
  valid_instruments c =
      let none_invalid = any-not instrument_has_command c.instruments in
      let one_valid = any-all instrument_has_command c.instruments in ground arith

  -- A delivery contract is complete exactly if nothing of it is there, or it has a target and at least
  -- one instrument, and every instrument has a command.
  pub is_complete_iff :
      (c : DeliveryContract F)
      → is_complete c ≡ true ↔ (
          (has_sections c ≡ false)
          ⊎ ((no_items c.targets ≡ false)
              × (no_items c.instruments ≡ false)
              × (all instrument_has_command c.instruments ≡ true)))
  is_complete_iff c =
      let cases = is_complete-missing_fields c in
      let fields = no_items-missing_fields c in let valid = valid_instruments c in ground arith
