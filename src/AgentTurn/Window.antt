-- ===== src/AgentTurn/Window.antt =====
-- src/agent_turn.rs, src/dispatch_goal.rs and src/state.rs: the dispatch windows of a run, and
-- `finish_dispatch_window`. Saving the state, scheduling the tmux command and closing the pane of
-- another backend are parameters; what the function does is in its outcome.
use long_task_orchestration.Prelude.{
  ℕ, suc, Bool, true, false, not, ◌&&◌, ◌||◌, List, [], ◌∷◌, ◌++◌, Option, none, some,
  if◌then◌else◌, all, leb, set, get_elem?,
}
use long_task_orchestration.Prelude.Eq.{◌==◌}
use long_task_orchestration.Prelude.Int.{ℤ, is_code, show_int}
use long_task_orchestration.Prelude.Result.{Result, ok, err}
use long_task_orchestration.Prelude.Text.{Text, str, text_eq}

pub data DispatchBackend : Type 0 where
  tmux herdr orca paseo : DispatchBackend

unfoldable pub backend_str : DispatchBackend → Text
backend_str tmux = str "tmux"
backend_str herdr = str "herdr"
backend_str orca = str "orca"
backend_str paseo = str "paseo"

unfoldable pub backend_of_str : Text → Result Text DispatchBackend
backend_of_str value =
    if value == str "tmux"
    then ok tmux
    else if value == str "herdr"
    then ok herdr
    else if value == str "orca"
    then ok orca
    else if value == str "paseo"
    then ok paseo
    else err (str "unknown dispatch backend: " ++ value)

pub record DispatchWindowState : Type 0 where
  pub window_id : Text
  pub target : Text
  pub runner : Text
  pub backend : Text
  pub tmux_bin : Text
  pub cleanup_on_success : Bool
  pub status : Text
  pub created_at : Text
  pub finished_at : Option Text
  pub retention_reason : Option Text

pub data CleanupError : Type 0 where
  invalid_backend invalid_window_id tmux_not_started tmux_failed save_failed : Text → CleanupError
  close_failed : DispatchBackend → Text → CleanupError

-- `Iterator::rposition`
unfoldable pub rposition {ℓ} : {A : Type ℓ} → (A → Bool) → List A → Option ℕ
rposition p [] = none
rposition p (x ∷ xs) = elim (rposition p xs) [
  | some i ↦ some (suc i)
  | none ↦ if p x then some 0 else none
]

is_digit : ℕ → Bool
is_digit ch = leb 48 ch && leb ch 57

unfoldable pub is_window_id : Text → Bool
unfolding is_digit
is_window_id [] = false
is_window_id (at ∷ []) = false
is_window_id (at ∷ d ∷ ds) = ((at ∷ []) == str "@") && all is_digit (d ∷ ds)

unfoldable pub is_active : Text → Text → DispatchWindowState → Bool
is_active window_id runner w =
    w.window_id == window_id && (w.runner == runner && w.status == str "active")

unfoldable pub retained : Text → Text → DispatchWindowState → DispatchWindowState
retained now reason w = record w {
  status = str "retained";
  finished_at = some now;
  retention_reason = some reason;
}

unfoldable pub cleaned : Text → DispatchWindowState → DispatchWindowState
cleaned now w = record w { status = str "cleaned"; finished_at = some now; retention_reason = none }

abbrev pub is_success : Option ℤ → Bool
is_success none = false
is_success (some code) = is_code 0 code

unfoldable pub keep_reason : Option ℤ → Text
keep_reason none = str "runner completion rc missing"
keep_reason (some code) =
    if is_code 0 code
    then str "--keep-window requested"
    else str "runner completion rc=" ++ show_int code

abbrev pub is_tmux : DispatchBackend → Bool
is_tmux tmux = true
is_tmux _ = false

-- What the function returns, the windows that it leaves, whether it asked for the window to be closed
-- and whether it emitted `runner.window.cleaned`.
pub record Finish : Type 0 where
  pub outcome : Result CleanupError (Unit {0})
  pub windows : List DispatchWindowState
  pub closing : Bool
  pub emitted : Bool

abbrev pub Windows : Type 0
Windows = List DispatchWindowState

module _ (now : Text) (save : Windows → Result Text (Unit {0})) where
  abbrev saved : Windows → Result CleanupError (Unit {0}) → Result CleanupError (Unit {0})
  saved windows after = elim (save windows) [ err e ↦ err (save_failed e) | ok _ ↦ after ]

  -- The window is kept with its reason; then the function returns `after`.
  unfoldable pub retain :
      Bool → ℕ → DispatchWindowState → Text → Result CleanupError (Unit {0}) → Windows → Finish
  unfolding retained
  retain closing i w reason after windows =
      let next = set windows i (retained now reason w) in
      record { outcome = saved next after; windows = next; closing = closing; emitted = false }

  abbrev is_ok : Result CleanupError (Unit {0}) → Bool
  is_ok (ok _) = true
  is_ok (err e) = false

  unfoldable pub mark_cleaned : ℕ → DispatchWindowState → Windows → Finish
  unfolding cleaned
  mark_cleaned i w windows =
      let next = set windows i (cleaned now w) in
      let outcome = saved next (ok tt) in
      record { outcome = outcome; windows = next; closing = true; emitted = is_ok outcome }

  -- `schedule` runs the tmux command that kills the window: it may fail to start, or end with
  -- the given error text; `close` closes the pane of another backend, or finds it absent.
  module _ (schedule : Text → Text → Result Text (Option Text))
      (close : DispatchBackend → Text → Result Text Bool) where
    -- `record_gui_cleanup`, and what follows it.
    unfoldable pub finish_gui : DispatchBackend → ℕ → DispatchWindowState → Windows → Finish
    unfolding retain mark_cleaned
    finish_gui backend i w windows = elim (close backend w.target) [
      | ok closed ↦ mark_cleaned i w windows
      | err e ↦
          retain true i w (backend_str backend ++ (str " cleanup failed: " ++ e))
            (err (close_failed backend e)) windows
    ]

    unfoldable pub finish_tmux : Text → ℕ → DispatchWindowState → Windows → Finish
    unfolding retain mark_cleaned
    finish_tmux window_id i w windows = elim (schedule w.tmux_bin window_id) [
      | err e ↦ record {
        outcome = err (tmux_not_started e);
        windows = windows;
        closing = true;
        emitted = false;
      }
      | ok (some stderr) ↦
          retain true i w (str "tmux cleanup scheduling failed: " ++ stderr)
            (err (tmux_failed stderr)) windows
      | ok none ↦ mark_cleaned i w windows
    ]

    unfoldable pub close_window :
        DispatchBackend → Text → ℕ → DispatchWindowState → Windows → Finish
    unfolding finish_gui finish_tmux
    close_window tmux window_id i w windows = finish_tmux window_id i w windows
    close_window herdr window_id i w windows = finish_gui herdr i w windows
    close_window orca window_id i w windows = finish_gui orca i w windows
    close_window paseo window_id i w windows = finish_gui paseo i w windows

    abbrev fail : CleanupError → Windows → Finish
    fail e windows = record { outcome = err e; windows = windows; closing = false; emitted = false }

    -- With the backend known: a bad id is refused, a failed or kept window is retained, and any other
    -- is closed.
    unfoldable pub finish_backend :
        DispatchBackend → Text → Option ℤ → ℕ → DispatchWindowState → Windows → Finish
    unfolding retain close_window
    finish_backend backend window_id rc i w windows =
        if is_tmux backend && not (is_window_id window_id)
        then fail (invalid_window_id window_id) windows
        else if not (is_success rc) || not w.cleanup_on_success
        then retain false i w (keep_reason rc) (ok tt) windows
        else close_window backend window_id i w windows

    unfoldable pub finish_active : Text → Option ℤ → ℕ → DispatchWindowState → Windows → Finish
    unfolding finish_backend
    finish_active window_id rc i w windows = elim (backend_of_str w.backend) [
      | err e ↦ fail (invalid_backend e) windows
      | ok backend ↦ finish_backend backend window_id rc i w windows
    ]

    abbrev nothing_done : Windows → Finish
    nothing_done windows = record {
      outcome = ok tt;
      windows = windows;
      closing = false;
      emitted = false;
    }

    -- The last active window of the id and the runner is finished; `get_elem?` finds it.
    unfoldable pub finish_dispatch_window : Text → Option Text → Option ℤ → Windows → Finish
    unfolding finish_active rposition is_active
    finish_dispatch_window runner none rc windows = nothing_done windows
    finish_dispatch_window runner (some window_id) rc windows =
        elim (rposition (is_active window_id runner) windows) [
          | none ↦ nothing_done windows
          | some i ↦ elim (get_elem? windows i) [
            | none ↦ nothing_done windows
            | some w ↦ finish_active window_id rc i w windows
          ]
        ]
