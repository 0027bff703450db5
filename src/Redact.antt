-- ===== src/Redact.antt =====
-- src/redact.rs: the redaction of texts and JSON values. The two regular expressions for secrets and
-- private paths and the one for blanks are parameters, as functions that replace every match.
use long_task_orchestration.Prelude.{
  ℕ, zero, suc, ◌≤◌, ◌≡◌, refl, ap, sym, Bool, true, false, not, ◌||◌, List, [], ◌∷◌, any, length,
  take, if◌then◌else◌, arith, Bool-cases, inl, inr,
}
use long_task_orchestration.Prelude.Eq.{contains}
use long_task_orchestration.Prelude.Json.{
  Json, null, boolean, pos_int, neg_int, float, string, array, object, Items, nil, cons, Fields,
  end, field,
}
use long_task_orchestration.Prelude.Render.{to_ascii_lowercase}
use long_task_orchestration.Prelude.Text.{
  Text, str, text_eq, text_beq, text_ltb, trim, ends_with, has_substring,
}
use long_task_orchestration.Merge.Save.{insert_field}

abbrev pub truncate_at : ℕ
truncate_at = 240

abbrev pub forbidden_key_exact : List Text
forbidden_key_exact =
    str "stdout" ∷ str "stderr" ∷ str "reply_text" ∷ str "transcript" ∷ str "output" ∷ []

abbrev pub forbidden_key_suffixes : List Text
forbidden_key_suffixes = str "_excerpt" ∷ str "_tail" ∷ []

abbrev pub forbidden_key_substrings : List Text
forbidden_key_substrings = str "output" ∷ str "stdout" ∷ str "stderr" ∷ str "transcript" ∷ []

unfoldable pub is_forbidden_key : Text → Bool
unfolding to_ascii_lowercase contains any ends_with has_substring
is_forbidden_key name =
    let key = to_ascii_lowercase name in
    contains forbidden_key_exact key
    || any (λ suffix. ends_with key suffix) forbidden_key_suffixes
    || any (λ needle. has_substring key needle) forbidden_key_substrings

-- The regular expressions of the module: each replaces all of its matches.
pub record Patterns : Type 0 where
  pub replace_secrets : Text → Text
  pub replace_paths : Text → Text
  pub collapse_blanks : Text → Text

module _ (patterns : Patterns) where
  unfoldable pub redact_secrets_and_paths : Text → Text
  redact_secrets_and_paths value = patterns.replace_paths (patterns.replace_secrets value)

  unfoldable pub redact_text : Text → Text
  unfolding redact_secrets_and_paths trim
  redact_text value =
      take truncate_at (trim (patterns.collapse_blanks (redact_secrets_and_paths value)))

module _ {F : Type 0} (patterns : Patterns) where
  unfoldable mutual
    unfolding redact_text is_forbidden_key insert_field

    pub redact_value : Json F → Json F
    redact_value (object fs) = object (redact_fields fs end)
    redact_value (array items) = array (redact_items items)
    redact_value (string text) = string (redact_text patterns text)
    redact_value (pos_int n) = pos_int n
    redact_value (neg_int n) = neg_int n
    redact_value (float x) = float x
    redact_value (boolean b) = boolean b
    redact_value null = null

    pub redact_items : Items F → Items F
    redact_items nil = nil
    redact_items (cons item items) = cons (redact_value item) (redact_items items)

    -- The loop over the fields, with those that are done.
    pub redact_fields : Fields F → Fields F → Fields F
    redact_fields end out = out
    redact_fields (field key value rest) out = redact_fields rest (
        if not (is_forbidden_key key)
        then insert_field (redact_text patterns key) (redact_value value) out
        else out)

module _ {F : Type 0} where
  -- Every text of a value, keys included, has the property.
  unfoldable mutual
    pub AllTexts : (Text → Type 0) → Json F → Type 0
    AllTexts holds (object fs) = AllFields holds fs
    AllTexts holds (array items) = AllItems holds items
    AllTexts holds (string text) = holds text
    AllTexts holds _ = Unit

    pub AllItems : (Text → Type 0) → Items F → Type 0
    AllItems holds nil = Unit
    AllItems holds (cons item items) = AllTexts holds item × AllItems holds items

    pub AllFields : (Text → Type 0) → Fields F → Type 0
    AllFields holds end = Unit
    AllFields holds (field key value rest) = holds key × AllTexts holds value × AllFields holds rest

  -- A value without the members whose keys are forbidden, at every depth.
  unfoldable mutual
    unfolding is_forbidden_key

    pub strip : Json F → Json F
    strip (object fs) = object (strip_fields fs)
    strip (array items) = array (strip_items items)
    strip value = value

    pub strip_items : Items F → Items F
    strip_items nil = nil
    strip_items (cons item items) = cons (strip item) (strip_items items)

    pub strip_fields : Fields F → Fields F
    strip_fields end = end
    strip_fields (field key value rest) =
        let others = strip_fields rest in
        let kept = strip value in if is_forbidden_key key then others else field key kept others

module _ (patterns : Patterns) where
  -- A text of the output: the redaction of some text, with at most 240 characters.
  abbrev pub Redacted : Text → Type 0
  Redacted t = (s : Text) × (t ≡ redact_text patterns s) × (length t ≤ 240)

  length-take-le : (n : ℕ) (t : Text) → length (take n t) ≤ n
  length-take-le zero t = omega arith
  length-take-le (suc n) [] = omega arith
  length-take-le (suc n) (c ∷ t) = omega (arith, length-take-le n t)

  redact_text-Redacted : (s : Text) → Redacted (redact_text patterns s)
  unfolding redact_text
  redact_text-Redacted s = (s, refl, length-take-le truncate_at _)

module _ {F : Type 0} (patterns : Patterns) where
  insert_field-AllFields :
      (key : Text) (value : Json F) (out : Fields F)
      → (Redacted patterns) key
      → AllTexts (Redacted patterns) value
      → AllFields (Redacted patterns) out
      → AllFields (Redacted patterns) (insert_field key value out)
  unfolding insert_field AllTexts
  insert_field-AllFields key value end k v o = (k, v, tt)
  insert_field-AllFields key value (field other w rest) k v o =
      elim (Bool-cases (text_beq other key)) [
        | inl same ↦ rw same (k, v, o.2)
        | inr differ ↦ elim (Bool-cases (text_ltb key other)) [
          | inl before ↦ rw (differ, before) (k, v, o)
          | inr behind ↦
              rw (differ, behind) (o.0, o.1, insert_field-AllFields key value rest k v o.2)
        ]
      ]

  kept :
      (forbidden : Bool) (key : Text) (value : Json F) (out : Fields F)
      → AllTexts (Redacted patterns) (redact_value patterns value)
      → AllFields (Redacted patterns) out
      → AllFields (Redacted patterns) (
          if not forbidden
          then insert_field (redact_text patterns key) (redact_value patterns value) out
          else out)
  kept true key value out v o = o
  kept false key value out v o =
      insert_field-AllFields (redact_text patterns key) (redact_value patterns value) out
        (redact_text-Redacted patterns key) v o

  mutual
    unfolding redact_value AllTexts

    redact_value-AllTexts :
        (value : Json F) → AllTexts (Redacted patterns) (redact_value patterns value)
    redact_value-AllTexts (object fs) = redact_fields-AllFields fs end tt
    redact_value-AllTexts (array items) = redact_items-AllItems items
    redact_value-AllTexts (string text) = redact_text-Redacted patterns text
    redact_value-AllTexts (pos_int n) = tt
    redact_value-AllTexts (neg_int n) = tt
    redact_value-AllTexts (float x) = tt
    redact_value-AllTexts (boolean b) = tt
    redact_value-AllTexts null = tt

    redact_items-AllItems :
        (items : Items F) → AllItems (Redacted patterns) (redact_items patterns items)
    redact_items-AllItems nil = tt
    redact_items-AllItems (cons item items) =
        (redact_value-AllTexts item, redact_items-AllItems items)

    redact_fields-AllFields :
        (fs out : Fields F)
        → AllFields (Redacted patterns) out
        → AllFields (Redacted patterns) (redact_fields patterns fs out)
    redact_fields-AllFields end out o = o
    redact_fields-AllFields (field key value rest) out o =
        redact_fields-AllFields rest _
          (kept (is_forbidden_key key) key value out (redact_value-AllTexts value) o)

  mutual
    unfolding redact_value strip

    redact_value-strip :
        (value : Json F) → redact_value patterns value ≡ redact_value patterns (strip value)
    redact_value-strip (object fs) = ap object (redact_fields-strip fs end)
    redact_value-strip (array items) = ap array (redact_items-strip items)
    redact_value-strip (string text) = refl
    redact_value-strip (pos_int n) = refl
    redact_value-strip (neg_int n) = refl
    redact_value-strip (float x) = refl
    redact_value-strip (boolean b) = refl
    redact_value-strip null = refl

    redact_items-strip :
        (items : Items F) → redact_items patterns items ≡ redact_items patterns (strip_items items)
    redact_items-strip nil = refl
    redact_items-strip (cons item items) =
        rw (redact_value-strip item, redact_items-strip items) refl

    redact_fields-strip :
        (fs out : Fields F)
        → redact_fields patterns fs out ≡ redact_fields patterns (strip_fields fs) out
    redact_fields-strip end out = refl
    redact_fields-strip (field key value rest) out = elim (Bool-cases (is_forbidden_key key)) [
      | inl forbidden ↦ rw forbidden (redact_fields-strip rest out)
      | inr allowed ↦
          rw (allowed, sym (redact_value-strip value), allowed)
            (redact_fields-strip rest
              (insert_field (redact_text patterns key) (redact_value patterns value) out))
    ]

  -- Every text of a redacted value, its keys included, is the redaction of a text and has at most 240
  -- characters; and the result is that of the value without its members under forbidden keys, at
  -- every depth, so that nothing that stands under one shows in it.
  pub redact_value-Redacted :
      (value : Json F)
      → AllTexts (Redacted patterns) (redact_value patterns value)
        × (redact_value patterns value ≡ redact_value patterns (strip value))
  redact_value-Redacted value = (redact_value-AllTexts value, redact_value-strip value)
