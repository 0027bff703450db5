-- ===== src/Tests/BudgetRuns.antt =====
-- src/budget.rs at concrete inputs, with dates read by the number of their characters.
use long_task_orchestration.Prelude.{
  ℕ, ◌-◌, ◌≡◌, ◌↔◌, ◌⊎◌, if◌then◌else◌, true, false, none, some, leb, length,
}
use long_task_orchestration.Prelude.Result.{Result, ok, err}
use long_task_orchestration.Prelude.Text.{Text, str, is_empty}
use long_task_orchestration.Budget.{
  Chrono, parse_iso_naive, exceeded, RunBudget, deadline_status_with_warnings, check_budget,
}
use long_task_orchestration.Budget.Laws.{
  Reached, Passed, deadline_status_iff, check_budget-exceeded,
}
use long_task_orchestration.Tests.Data.{whole}

-- No date has an offset; a date is as late as it is long.
abbrev read_date : Text → Text → Result Text ℕ
read_date t format = if is_empty t then err (str "empty") else ok (length t)

abbrev clock : Chrono Unit ℕ ℕ
clock = record {
  parse_from_rfc3339 = λ t. none;
  naive_local = λ z. 0;
  parse_from_str = read_date;
  not_before = λ a b. leb b a;
  seconds_between = λ a b. a - b;
}

abbrev quoted : Text → Text
quoted t = t

abbrev ten_turns : RunBudget ℕ
ten_turns = record {
  max_turns = some 10;
  max_tokens = none;
  hard_deadline = some (str "20:00");
  turns_used = 11;
  warn_ratio = 1;
}

deadline_status_iff_example :
    (deadline_status_with_warnings whole clock quoted
        (some (str "20:00"))
        (str "9")
        (str "21:00:00")
        1).0.status
      ≡ exceeded
    ↔ ((is_empty (str "20:00") ≡ false)
        × (dl : ℕ) × (nw : ℕ) × (parse_iso_naive clock (str "20:00") ≡ ok dl)
        × (parse_iso_naive clock (str "21:00:00") ≡ ok nw)
        × (leb dl nw ≡ true))
deadline_status_iff_example =
    deadline_status_iff whole clock quoted (str "20:00") (str "9") (str "21:00:00") 1

check_budget-exceeded_example :
    (check_budget whole clock quoted (some ten_turns) (str "9") 5 (str "10")).overall ≡ exceeded ↔ (
      Reached whole clock quoted (some 10) 11
      ⊎ Reached whole clock quoted none 5
      ⊎ Passed whole clock quoted (some (str "20:00")) (str "10"))
check_budget-exceeded_example =
    check_budget-exceeded whole clock quoted (some ten_turns) (str "9") (str "10") 5
