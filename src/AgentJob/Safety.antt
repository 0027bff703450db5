-- ===== src/AgentJob/Safety.antt =====
-- src/agent_job.rs: what a validated policy guarantees.
use long_task_orchestration.Prelude.{
  true, false, not, List, [], ◌∷◌, none, some, Option-cases, inl, inr, ◌≡◌, ◌≢◌, ◌↔◌, ◌⊎◌, refl,
  arith, All, filter,
}
use long_task_orchestration.Prelude.BTreeMap.{text_key, get}
use long_task_orchestration.Prelude.Eq.{contains}
use long_task_orchestration.Prelude.Result.{ok}
use long_task_orchestration.Prelude.Text.{
  Text, text_eq, text_beq, text_beq_iff, str, is_empty, trim, sort_texts, insert_text,
}
use long_task_orchestration.AgentJob.{
  read_only, danger_full_access, sandbox_str, PermissionPolicy, known_runners,
}
use long_task_orchestration.AgentJob.Policy.{
  readonly_tool_allowlist, exceeding_tools, check_codex, check_tools, check_runner,
  validate_for_runner, effective_readonly_tools, readonly_intent_to_policy,
}

-- The rules that a policy obeys to be accepted for a runner and its environment: a known runner;
-- for writing a reason that is not blank, for full access the user's approval too, and for writing
-- without a terminal the explicit flag; no contradicting sandbox in codex's environment; no
-- read-only promise of a runner that cannot keep it, nor with tools beyond the runner's list.
pub record IsPermitted (policy : PermissionPolicy) (runner : Text) (env : List (Text × Text))
    : Type 0 where
  pub known : contains known_runners runner ≡ true
  pub reasoned : policy.sandbox ≢ read_only → is_empty (trim policy.reason) ≡ false
  pub approved : policy.sandbox ≡ danger_full_access → policy.user_approved ≡ true
  pub attended :
      policy.sandbox ≢ read_only → (runner ≡ str "tmux") ⊎ (policy.allow_headless_write ≡ true)
  pub consistent :
      runner ≡ str "codex"
      → (get (str "CODEX_SANDBOX") env ≡ none)
        ⊎ (get (str "CODEX_SANDBOX") env ≡ some (sandbox_str policy.sandbox))
  pub enforceable :
      policy.sandbox ≡ read_only
      → (runner ≢ str "agy") × (runner ≢ str "gemini") × (runner ≢ str "tmux")
  pub limited :
      policy.sandbox ≡ read_only
      → (runner ≡ str "claude") ⊎ (runner ≡ str "pi")
      → All (λ tool. contains (readonly_tool_allowlist runner) tool ≡ true) policy.tools

insert_text-ne-nil : (t : Text) (us : List Text) → insert_text t us ≢ []
unfolding insert_text
insert_text-ne-nil t [] e = cc
insert_text-ne-nil t (u ∷ us) e = ground arith

exceeding_tools-nil :
    (runner : Text) (tools : List Text)
    → exceeding_tools runner tools ≡ []
      ↔ All (λ tool. contains (readonly_tool_allowlist runner) tool ≡ true) tools
unfolding exceeding_tools filter sort_texts
exceeding_tools-nil runner [] = (λ _. tt, λ _. refl)
exceeding_tools-nil runner (t ∷ ts) = ground (
  arith,
  exceeding_tools-nil runner ts,
  insert_text-ne-nil t
      (sort_texts (filter (λ tool. not (contains (readonly_tool_allowlist runner) tool)) ts)),
)

sandbox_match :
    (policy : PermissionPolicy) (env : List (Text × Text))
    → check_codex policy env ≡ ok tt ↔ (
        (get (str "CODEX_SANDBOX") env ≡ none)
        ⊎ (get (str "CODEX_SANDBOX") env ≡ some (sandbox_str policy.sandbox)))
unfolding check_codex
sandbox_match policy env = elim (Option-cases (get (str "CODEX_SANDBOX") env)) [
  | inl absent ↦ rw absent (λ _. inl refl, λ _. ground (arith, text_beq_iff expected expected))
  | inr (actual, given) ↦ rw given (
    λ h. ground (arith, text_beq_iff actual expected),
    λ h. ground (arith, text_beq_iff actual expected),
  )
]
  where
    expected : Text
    expected = sandbox_str policy.sandbox

check_tools-limited :
    (policy : PermissionPolicy) (runner : Text)
    → check_tools policy runner ≡ ok tt
      ↔ All (λ tool. contains (readonly_tool_allowlist runner) tool ≡ true) policy.tools
unfolding check_tools
check_tools-limited policy runner = ground (arith, exceeding_tools-nil runner policy.tools)

module _ (policy : PermissionPolicy) (runner : Text) (env : List (Text × Text)) where
  -- What the `match runner` asks.
  record RunnerRules : Type 0 where
    consistent :
        runner ≡ str "codex"
        → (get (str "CODEX_SANDBOX") env ≡ none)
          ⊎ (get (str "CODEX_SANDBOX") env ≡ some (sandbox_str policy.sandbox))
    enforceable :
        policy.sandbox ≡ read_only
        → (runner ≢ str "agy") × (runner ≢ str "gemini") × (runner ≢ str "tmux")
    limited :
        policy.sandbox ≡ read_only
        → (runner ≡ str "claude") ⊎ (runner ≡ str "pi")
        → All (λ tool. contains (readonly_tool_allowlist runner) tool ≡ true) policy.tools

  check_runner_iff : check_runner policy runner env ≡ ok tt ↔ RunnerRules
  unfolding check_runner
  check_runner_iff = ground (
    arith,
    text_beq_iff runner (str "tmux"),
    text_beq_iff runner (str "codex"),
    text_beq_iff runner (str "agy"),
    text_beq_iff runner (str "gemini"),
    text_beq_iff runner (str "claude"),
    text_beq_iff runner (str "pi"),
    sandbox_match policy env,
    check_tools-limited policy runner,
  )

  -- The check of a policy for a runner and its environment succeeds exactly if the policy obeys the
  -- rules.
  pub validate_for_runner_iff :
      validate_for_runner policy runner env ≡ ok tt ↔ IsPermitted policy runner env
  unfolding validate_for_runner
  validate_for_runner_iff =
      let rules = check_runner_iff in
      (
        λ h. ground (arith, rules, text_beq_iff runner (str "tmux")),
        λ h. ground (arith, rules, text_beq_iff runner (str "tmux")),
      )

allowlist_self :
    (runner : Text)
    → (runner ≡ str "claude") ⊎ (runner ≡ str "pi")
    → All
        (λ tool. contains (readonly_tool_allowlist runner) tool ≡ true)
        (readonly_tool_allowlist runner)
unfolding readonly_tool_allowlist contains text_beq
allowlist_self runner which = elim which [
  | inl e ↦ rw e (refl, (refl, (refl, (refl, tt))))
  | inr e ↦ rw e (refl, (refl, (refl, (refl, tt))))
]

known_runner_cases :
    (runner : Text)
    → contains known_runners runner ≡ true
    → (runner ≡ str "codex")
      ⊎ (runner ≡ str "pi")
      ⊎ (runner ≡ str "agy")
      ⊎ (runner ≡ str "aix")
      ⊎ (runner ≡ str "gemini")
      ⊎ (runner ≡ str "claude")
      ⊎ (runner ≡ str "tmux")
unfolding contains
known_runner_cases runner h = ground (
  arith,
  text_beq_iff (str "codex") runner,
  text_beq_iff (str "pi") runner,
  text_beq_iff (str "agy") runner,
  text_beq_iff (str "aix") runner,
  text_beq_iff (str "gemini") runner,
  text_beq_iff (str "claude") runner,
  text_beq_iff (str "tmux") runner,
)

-- The tools of an accepted read-only policy, as the runner will be given them, are on the runner's
-- list, also where the policy names none.
effective_readonly_tools-allowed :
    (policy : PermissionPolicy) (runner : Text) (env : List (Text × Text))
    → validate_for_runner policy runner env ≡ ok tt
    → All
        (λ tool. contains (readonly_tool_allowlist runner) tool ≡ true)
        (effective_readonly_tools policy runner)
unfolding effective_readonly_tools
effective_readonly_tools-allowed policy runner env h =
    let rules = (validate_for_runner_iff policy runner env).0 h in
    ground (
      arith,
      rules.limited,
      allowlist_self runner,
      text_beq_iff runner (str "claude"),
      text_beq_iff runner (str "pi"),
    )

intent_outcome :
    (runner : Text) (env : List (Text × Text))
    → contains known_runners runner ≡ true
    → get (str "CODEX_SANDBOX") env ≡ none
    → (validate_for_runner (readonly_intent_to_policy runner) runner env ≡ ok tt)
        × (runner ≢ str "gemini")
      ⊎ (validate_for_runner (readonly_intent_to_policy runner) runner env ≢ ok tt)
        × (runner ≡ str "gemini")
unfolding validate_for_runner check_runner check_codex readonly_intent_to_policy contains text_beq
    trim sandbox_str
intent_outcome runner env known unset = elim (known_runner_cases runner known) [
  | inl e ↦ inl (rw e (rw unset refl), λ g. cc)
  | inr (inl e) ↦ inl (rw e refl, λ g. cc)
  | inr (inr (inl e)) ↦ inl (rw e refl, λ g. cc)
  | inr (inr (inr (inl e))) ↦ inl (rw e refl, λ g. cc)
  | inr (inr (inr (inr (inl e)))) ↦ inr (rw e (λ h. cc), e)
  | inr (inr (inr (inr (inr (inl e))))) ↦ inl (rw e refl, λ g. cc)
  | inr (inr (inr (inr (inr (inr e))))) ↦ inl (rw e refl, λ g. cc)
]

-- The policy for a read-only intent is accepted for every known runner but gemini, if the
-- environment does not set the sandbox itself; for gemini it is refused.
pub readonly_intent_to_policy-accepted :
    (runner : Text) (env : List (Text × Text))
    → contains known_runners runner ≡ true
    → get (str "CODEX_SANDBOX") env ≡ none
    → validate_for_runner (readonly_intent_to_policy runner) runner env ≡ ok tt
      ↔ (runner ≢ str "gemini")
readonly_intent_to_policy-accepted runner env known unset =
    elim (intent_outcome runner env known unset) [
      | inl (accepted, other) ↦ (λ _. other, λ _. accepted)
      | inr (refused, same) ↦ (λ h. absurd (refused h), λ other. absurd (other same))
    ]
