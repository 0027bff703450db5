-- ===== src/Dispatch.antt =====
-- src/dispatch.rs: the size of a task by its tokens, and the rule that escalates a cell of runner,
-- task type and size after two failures. The scores of the cells are not modelled.
use mathlib.Core.List.{reverse, reverse_aux}
use long_task_orchestration.Prelude.{
  ℕ, ◌+◌, ◌≤◌, ◌≡◌, ◌↔◌, refl, Bool, true, false, not, ◌&&◌, List, [], ◌∷◌, Option, none, some,
  filter, take, length, leb, min, if◌then◌else◌, arith,
}
use long_task_orchestration.Prelude.Eq.{◌==◌}
use long_task_orchestration.Prelude.Text.{Text, text_eq, str}
use long_task_orchestration.AgentJob.{
  AgentResult, JobStatus, TaskSize, small, medium, large, unknown, status_beq,
}

abbrev pub u64_max : ℕ
u64_max = 18446744073709551615

pub record TaskDescriptor : Type 0 where
  pub task_type : Text
  pub size : TaskSize
  pub prompt_tokens : ℕ
  pub expected_output_tokens : ℕ

-- `prompt_tokens.saturating_add(expected_output_tokens)`
unfoldable pub from_tokens : Text → ℕ → ℕ → TaskDescriptor
from_tokens task_type prompt_tokens expected_output_tokens =
    let total = min (prompt_tokens + expected_output_tokens) u64_max in
    record {
      task_type = task_type;
      size = if leb total 8000 then small else if leb total 40000 then medium else large;
      prompt_tokens = prompt_tokens;
      expected_output_tokens = expected_output_tokens;
    }

unfoldable pub size_beq : TaskSize → TaskSize → Bool
size_beq small small = true
size_beq medium medium = true
size_beq large large = true
size_beq unknown unknown = true
size_beq _ _ = false

abbrev pub unwrap_or : Text → Option Text → Text
unwrap_or d none = d
unwrap_or d (some t) = t

length-take_two {ℓ} : {A : Type ℓ} (xs : List A) → leb 2 (length (take 2 xs)) ≡ leb 2 (length xs)
length-take_two [] = refl
length-take_two (x ∷ []) = refl
length-take_two (x ∷ y ∷ xs) = ground arith

module _ {F : Type 0} (runner task_type : Text) (size : TaskSize) where
  -- A result of the cell that is no success.
  unfoldable pub fails_cell : AgentResult F → Bool
  unfolding size_beq
  fails_cell r =
      r.runner == runner
      && (unwrap_or (str "unknown") r.task_type == task_type
          && (size_beq r.size size && not (status_beq r.status JobStatus.ok)))

  unfoldable pub should_escalate_same_cell : List (AgentResult F) → Bool
  unfolding fails_cell
  should_escalate_same_cell failures =
      leb 2 (length (take 2 (filter fails_cell (reverse failures))))

  abbrev pub count : List (AgentResult F) → ℕ
  count rs = length (filter fails_cell rs)

  count-reverse_aux :
      (xs ys : List (AgentResult F)) → count (reverse_aux xs ys) ≡ count xs + count ys
  unfolding filter
  count-reverse_aux [] ys = omega arith
  count-reverse_aux (x ∷ xs) ys = ground (arith, count-reverse_aux xs (x ∷ ys))

  count-reverse : (xs : List (AgentResult F)) → count (reverse xs) ≡ count xs
  unfolding filter
  count-reverse xs = omega (arith, count-reverse_aux xs [])

  -- A cell escalates exactly if at least two results of the history are failures of it, wherever they
  -- stand: the order of the history does not matter.
  pub should_escalate_same_cell_iff :
      (failures : List (AgentResult F))
      → should_escalate_same_cell failures ≡ true ↔ 2 ≤ count failures
  unfolding should_escalate_same_cell
  should_escalate_same_cell_iff failures =
      ground (arith, length-take_two (filter fails_cell (reverse failures)), count-reverse failures)

abbrev pub rank : TaskSize → ℕ
rank small = 0
rank medium = 1
rank large = 2
rank unknown = 3

-- More tokens never make a smaller task, also where the sum saturates, and a task with its tokens
-- known has a known size.
from_tokens-monotone :
    (task_type : Text) (p q e f : ℕ)
    → p ≤ q
    → e ≤ f
    → (rank (from_tokens task_type p e).size ≤ rank (from_tokens task_type q f).size)
      × (rank (from_tokens task_type q f).size ≤ 2)
unfolding from_tokens
from_tokens-monotone task_type p q e f h k = ground arith
