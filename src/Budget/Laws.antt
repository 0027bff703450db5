-- ===== src/Budget/Laws.antt =====
-- src/budget.rs: when a budget counts as exceeded.
use long_task_orchestration.Prelude.{
  ℕ, true, false, ◌≡◌, ◌≢◌, ◌↔◌, ◌⊎◌, inl, inr, refl, [], Option, none, some, arith, if◌then◌else◌,
}
use long_task_orchestration.Prelude.F64.{F64}
use long_task_orchestration.Prelude.Result.{ok, Result-cases}
use long_task_orchestration.Prelude.Text.{Text, is_empty}
use long_task_orchestration.Budget.{
  BudgetStatus, Chrono, parse_iso_naive, or_default, as_float, default_warn_ratio, within, exceeded,
  worse, RunBudget, deadline_share, before_deadline, deadline_of, deadline_status_with_warnings,
  check_budget, dimension_status, push_warning, deadline_warning,
}

worse-exceeded : (a b : BudgetStatus) → worse a b ≡ exceeded ↔ ((a ≡ exceeded) ⊎ (b ≡ exceeded))
worse-exceeded a b = ground arith

module _ (F : F64) {Z D : Type 0} (chrono : Chrono Z D F.Carrier) (debug : Text → Text) where
  open chrono use {not_before}

  abbrev deadline_status : Option Text → Text → Text → F.Carrier → BudgetStatus
  deadline_status deadline started_at now warn_ratio =
      (deadline_status_with_warnings F chrono debug deadline started_at now warn_ratio).0.status

  before_deadline_ne :
      (deadline started_at now : Text) (dl nw : D) (warn_ratio : F.Carrier)
      → (before_deadline F chrono debug deadline started_at now dl nw warn_ratio).0.status
        ≢ exceeded
  unfolding before_deadline deadline_share
  before_deadline_ne deadline started_at now dl nw warn_ratio = ground arith

  -- A deadline counts as passed exactly if it is there, not empty, it and the current time can be
  -- read, and the current time is not before it. A deadline that cannot be read never counts.
  pub deadline_status_iff :
      (deadline : Text) (started_at now : Text) (warn_ratio : F.Carrier)
      → deadline_status (some deadline) started_at now warn_ratio ≡ exceeded ↔ (
          (is_empty deadline ≡ false)
          × (dl : D) × (nw : D) × (parse_iso_naive chrono deadline ≡ ok dl)
          × (parse_iso_naive chrono now ≡ ok nw)
          × (not_before nw dl ≡ true))
  unfolding deadline_status_with_warnings deadline_of
  deadline_status_iff deadline started_at now warn_ratio =
      elim (Result-cases (parse_iso_naive chrono deadline)) [
        | inr (e, bad) ↦ ground (arith, bad)
        | inl (dl, good) ↦ elim (Result-cases (parse_iso_naive chrono now)) [
          | inr (e, bad) ↦ ground (arith, good, bad)
          | inl (nw, fine) ↦ (
            λ h. let parts = passed dl nw good fine h in (parts.0, dl, nw, good, fine, parts.1),
            λ (full, d, n, e, f, late). ground (arith, good, fine, e, f, late, full),
          )
        ]
      ]
    where
      passed :
          (dl nw : D)
          → parse_iso_naive chrono deadline ≡ ok dl
          → parse_iso_naive chrono now ≡ ok nw
          → deadline_status (some deadline) started_at now warn_ratio ≡ exceeded
          → (is_empty deadline ≡ false) × (not_before nw dl ≡ true)
      passed dl nw good fine h =
          ground (arith, good, fine, before_deadline_ne deadline started_at now dl nw warn_ratio)

  -- There is a limit, and the ratio of the use to it is at least 1; to a limit of zero the ratio is
  -- infinite.
  abbrev pub Reached : Option ℕ → ℕ → Type 0
  Reached limit used =
      (n : ℕ) × (limit ≡ some n)
      × (F.ge (if F.is_zero (F.of_nat n) then F.infinity else F.div (F.of_nat used) (F.of_nat n))
            (F.of_nat 1)
          ≡ true)

  -- The deadline is there and not empty, it and the current time can be read, and the time has come.
  abbrev pub Passed : Option Text → Text → Type 0
  Passed deadline now =
      (text : Text) × (deadline ≡ some text)
      × (is_empty text ≡ false)
      × (dl : D) × (nw : D) × (parse_iso_naive chrono text ≡ ok dl)
      × (parse_iso_naive chrono now ≡ ok nw)
      × (not_before nw dl ≡ true)

  dimension_status-Reached :
      (limit : Option ℕ) (used : ℕ) (warn_ratio : F.Carrier)
      → (dimension_status F (as_float F limit) (F.of_nat used) warn_ratio).status ≡ exceeded
        ↔ Reached limit used
  unfolding dimension_status
  dimension_status-Reached none used warn_ratio = ground arith
  dimension_status-Reached (some n) used warn_ratio =
      (λ h. (n, refl, ground (arith, h)), λ (m, same, full). ground (arith, same, full))

  deadline_status-Passed :
      (deadline : Option Text) (started_at now : Text) (warn_ratio : F.Carrier)
      → deadline_status deadline started_at now warn_ratio ≡ exceeded ↔ Passed deadline now
  unfolding deadline_status_with_warnings
  deadline_status-Passed none started_at now warn_ratio = ground arith
  deadline_status-Passed (some deadline) started_at now warn_ratio =
      let by_text = deadline_status_iff deadline started_at now warn_ratio in
      (
        λ h.
            let (full, dl, nw, read, clock, late) = by_text.0 h in
            (deadline, refl, full, dl, nw, read, clock, late),
        λ (text, same, full, dl, nw, read, clock, late).
            by_text.1 (ground (arith, same, full), dl, nw, ground (arith, same, read), clock, late),
      )

  -- A run is over its budget exactly if its turns or its tokens have reached their limit, or its
  -- deadline has passed. A limit that is not there is never reached, and
  -- one that is there is reached from the ratio 1 on, which is infinite for a limit of zero.
  pub check_budget-exceeded :
      (given : Option (RunBudget F.Carrier)) (started_at now : Text) (token_total : ℕ)
      → let budget = or_default F given in
        (check_budget F chrono debug given started_at token_total now).overall ≡ exceeded ↔ (
          Reached budget.max_turns budget.turns_used
          ⊎ Reached budget.max_tokens token_total
          ⊎ Passed budget.hard_deadline now)
  unfolding check_budget
  check_budget-exceeded given started_at now token_total =
      let budget = or_default F given in
      let warn_ratio =
        if F.is_zero budget.warn_ratio then default_warn_ratio F else budget.warn_ratio in
      let check = check_budget F chrono debug given started_at token_total now in
      let turns = dimension_status-Reached budget.max_turns budget.turns_used warn_ratio in
      let tokens = dimension_status-Reached budget.max_tokens token_total warn_ratio in
      let deadline = deadline_status-Passed budget.hard_deadline started_at now warn_ratio in
      let outer =
        worse-exceeded check.turns.status (worse check.tokens.status check.deadline.status) in
      let inner = worse-exceeded check.tokens.status check.deadline.status in
      (
        λ h. elim (outer.0 h) [
          | inl over ↦ inl (turns.0 over)
          | inr rest ↦ elim (inner.0 rest) [
            | inl over ↦ inr (inl (tokens.0 over))
            | inr late ↦ inr (inr (deadline.0 late))
          ]
        ],
        λ over. outer.1 (elim over [
          | inl full ↦ inl (turns.1 full)
          | inr (inl full) ↦ inr (inner.1 (inl (tokens.1 full)))
          | inr (inr late) ↦ inr (inner.1 (inr (deadline.1 late)))
        ]),
      )

  -- A run without a budget is within it and has no warning, however much it used.
  check_budget-unlimited :
      (started_at now : Text) (token_total : ℕ)
      → let check = check_budget F chrono debug none started_at token_total now in
        (check.overall ≡ within) × (check.warnings ≡ [])
  unfolding check_budget dimension_status push_warning deadline_status_with_warnings
      deadline_warning
  check_budget-unlimited started_at now token_total = (refl, refl)
