-- ===== src/Budget.antt =====
-- src/budget.rs: the budget of a run in turns, in tokens and by a deadline. What chrono does with dates
-- is a parameter (`Chrono`), and so is the quoted form of a text; the JSON values of the dimensions are the
-- statuses themselves.
pub mod Laws
use long_task_orchestration.Prelude.{
  ℕ, Bool, true, false, not, ◌&&◌, List, [], ◌∷◌, ◌++◌, Option, none, some, if◌then◌else◌,
}
use long_task_orchestration.Prelude.F64.{F64}
use long_task_orchestration.Prelude.Render.{replace_char}
use long_task_orchestration.Prelude.Result.{Result, ok, err}
use long_task_orchestration.Prelude.Text.{Text, str, is_empty, show_nat}

pub data BudgetStatus : Type 0 where
  within warn exceeded : BudgetStatus

-- The derived order of the statuses.
abbrev pub worse : BudgetStatus → BudgetStatus → BudgetStatus
worse within b = b
worse warn within = warn
worse warn warn = warn
worse warn exceeded = exceeded
worse exceeded b = exceeded

pub record DimensionStatus (F : Type 0) : Type 0 where
  pub limit : Option F
  pub used : F
  pub ratio : Option F
  pub status : BudgetStatus

pub record DeadlineStatus (F : Type 0) : Type 0 where
  pub limit : Option Text
  pub used : Text
  pub ratio : Option F
  pub status : BudgetStatus

pub record RunBudget (F : Type 0) : Type 0 where
  pub max_turns : Option ℕ
  pub max_tokens : Option ℕ
  pub hard_deadline : Option Text
  pub turns_used : ℕ
  pub warn_ratio : F

pub record BudgetCheck (F : Type 0) : Type 0 where
  pub overall : BudgetStatus
  pub turns : DimensionStatus F
  pub tokens : DimensionStatus F
  pub deadline : DeadlineStatus F
  pub warnings : List Text

-- The functions of chrono: dates with an offset (`Z`), dates without one (`D`), and seconds (`T`).
pub record Chrono (Z D T : Type 0) : Type 0 where
  pub parse_from_rfc3339 : Text → Option Z
  -- The local date and time, without the offset.
  pub naive_local : Z → D
  -- A text and a format.
  pub parse_from_str : Text → Text → Result Text D
  -- `a >= b`
  pub not_before : D → D → Bool
  pub seconds_between : D → D → T

module _ {Z D T : Type 0} (chrono : Chrono Z D T) where
  open chrono use {parse_from_rfc3339, naive_local, parse_from_str}

  unfoldable pub parse_iso_naive : Text → Result Text D
  unfolding replace_char
  parse_iso_naive value = elim (parse_from_rfc3339 (replace_char b'Z' (str "+00:00") value)) [
    | some zoned ↦ ok (naive_local zoned)
    | none ↦ elim (parse_from_str value (str "%Y-%m-%dT%H:%M:%S")) [
      | ok date ↦ ok date
      | err e ↦ parse_from_str value (str "%Y-%m-%d %H:%M:%S")
    ]
  ]

abbrev pub is_over : BudgetStatus → Bool
is_over within = false
is_over _ = true

module _ (F : F64) where
  open F use {Carrier, of_nat, div, mul, ge}

  abbrev pub default_warn_ratio : Carrier
  default_warn_ratio = div (of_nat 4) (of_nat 5)

  unfoldable pub dimension_status : Option Carrier → Carrier → Carrier → DimensionStatus Carrier
  dimension_status none used warn_ratio = record {
    limit = none;
    used = used;
    ratio = none;
    status = within;
  }
  dimension_status (some limit) used warn_ratio =
      let ratio = if F.is_zero limit then F.infinity else div used limit in
      record {
        limit = some limit;
        used = used;
        ratio = some ratio;
        status =
            if ge ratio (of_nat 1) then exceeded else if ge ratio warn_ratio then warn else within;
      }

  unfoldable pub push_warning :
      Text → Option Carrier → Carrier → Option Carrier → Carrier → List Text
  push_warning name none used limit warn_ratio = []
  push_warning name (some ratio) used none warn_ratio = []
  push_warning name (some ratio) used (some limit) warn_ratio =
      if ge ratio warn_ratio
      then (str "budget: "
          ++ (name
              ++ (str " "
                  ++ (show_nat (F.truncate (mul ratio (of_nat 100)))
                      ++ (str "% ("
                          ++ (show_nat (F.truncate used)
                              ++ (str "/" ++ (show_nat (F.truncate limit) ++ str ")"))))))))
        ∷ []
      else []

  abbrev pub as_float : Option ℕ → Option Carrier
  as_float none = none
  as_float (some n) = some (of_nat n)

  abbrev pub or_default : Option (RunBudget Carrier) → RunBudget Carrier
  or_default (some budget) = budget
  or_default none = record {
    max_turns = none;
    max_tokens = none;
    hard_deadline = none;
    turns_used = 0;
    warn_ratio = default_warn_ratio;
  }

  module _ {Z D : Type 0} (chrono : Chrono Z D Carrier) (debug : Text → Text) where
    open chrono use {not_before, seconds_between}

    abbrev at_ratio : Text → Text → Option Carrier → BudgetStatus → DeadlineStatus Carrier
    at_ratio deadline now ratio status = record {
      limit = some deadline;
      used = now;
      ratio = ratio;
      status = status;
    }

    abbrev ignored_date : Text → Text → Text → List Text
    ignored_date name value reason =
        (str "budget: invalid "
          ++ (name ++ (str " " ++ (debug value ++ (str " ignored: " ++ reason)))))
        ∷ []

    -- The share of the time between the start and the deadline that has passed.
    unfoldable pub deadline_share : Text → Text → D → D → D → Carrier → DeadlineStatus Carrier
    deadline_share deadline now dl nw st warn_ratio =
        let ratio = div (seconds_between nw st) (seconds_between dl st) in
        if not_before st dl
        then at_ratio deadline now (some F.zero) within
        else at_ratio deadline now (some ratio) (if ge ratio warn_ratio then warn else within)

    -- Before the deadline: what the start of the run adds.
    unfoldable pub before_deadline :
        Text → Text → Text → D → D → Carrier → DeadlineStatus Carrier × List Text
    unfolding deadline_share parse_iso_naive
    before_deadline deadline started_at now dl nw warn_ratio =
        if is_empty started_at
        then (at_ratio deadline now (some F.zero) within, [])
        else (elim (parse_iso_naive chrono started_at) [
          | err e ↦ (
            at_ratio deadline now (some F.zero) within,
            ignored_date (str "started_at") started_at e,
          )
          | ok st ↦ (deadline_share deadline now dl nw st warn_ratio, [])
        ])

    unfoldable pub deadline_of : Text → Text → Text → Carrier → DeadlineStatus Carrier × List Text
    unfolding before_deadline parse_iso_naive
    deadline_of deadline started_at now warn_ratio = elim (parse_iso_naive chrono deadline) [
      | err e ↦ (at_ratio deadline now none within, ignored_date (str "hard_deadline") deadline e)
      | ok dl ↦ elim (parse_iso_naive chrono now) [
        | err e ↦ (at_ratio deadline now none within, ignored_date (str "now") now e)
        | ok nw ↦
            if not_before nw dl
            then (at_ratio deadline now (some (of_nat 1)) exceeded, [])
            else before_deadline deadline started_at now dl nw warn_ratio
      ]
    ]

    abbrev no_deadline : Text → DeadlineStatus Carrier × List Text
    no_deadline now = (record { limit = none; used = now; ratio = none; status = within }, [])

    unfoldable pub deadline_status_with_warnings :
        Option Text → Text → Text → Carrier → DeadlineStatus Carrier × List Text
    unfolding deadline_of
    deadline_status_with_warnings none started_at now warn_ratio = no_deadline now
    deadline_status_with_warnings (some deadline) started_at now warn_ratio =
        if is_empty deadline
        then no_deadline now
        else deadline_of deadline started_at now warn_ratio

    abbrev unwrap_or_empty : Option Text → Text
    unwrap_or_empty none = []
    unwrap_or_empty (some t) = t

    unfoldable pub deadline_warning : DeadlineStatus Carrier → List Text
    deadline_warning d = elim d.ratio [
      | none ↦ []
      | some ratio ↦
          if is_over d.status
          then (str "budget: deadline "
              ++ (show_nat (F.truncate (mul ratio (of_nat 100)))
                  ++ (str "% (" ++ (d.used ++ (str "/" ++ (unwrap_or_empty d.limit ++ str ")"))))))
            ∷ []
          else []
    ]

    unfoldable pub check_budget : Option (RunBudget Carrier) → Text → ℕ → Text → BudgetCheck Carrier
    unfolding dimension_status push_warning deadline_status_with_warnings deadline_warning
    check_budget given started_at token_total now =
        let budget = or_default given in
        let warn_ratio =
          if F.is_zero budget.warn_ratio then default_warn_ratio else budget.warn_ratio in
        let turns =
          dimension_status (as_float budget.max_turns) (of_nat budget.turns_used) warn_ratio in
        let tokens =
          dimension_status (as_float budget.max_tokens) (of_nat token_total) warn_ratio in
        let (deadline, dates) =
          deadline_status_with_warnings budget.hard_deadline started_at now warn_ratio in
        record {
          overall = worse turns.status (worse tokens.status deadline.status);
          turns = turns;
          tokens = tokens;
          deadline = deadline;
          warnings =
              dates
              ++ (push_warning (str "turns") turns.ratio turns.used turns.limit warn_ratio
                  ++ (push_warning (str "tokens") tokens.ratio tokens.used tokens.limit warn_ratio
                      ++ deadline_warning deadline));
        }
