-- ===== src/AgentTurn/Cleanup.antt =====
-- src/agent_turn.rs: what finishing a window does, and what it leaves alone.
use long_task_orchestration.Prelude.{
  ℕ, zero, suc, ◌+◌, ◌≡◌, ◌≢◌, ◌⊎◌, inl, inr, refl, sym, ap, ◌∙◌, Bool, true, false, not, ◌&&◌,
  ◌||◌, List, [], ◌∷◌, Option, none, some, arith, length, filter, set, get_elem?, Bool-cases,
  Option-cases, get_elem?-set_ne,
}
use long_task_orchestration.Prelude.Int.{ℤ}
use long_task_orchestration.Prelude.Result.{Result, ok, Result-cases}
use long_task_orchestration.Prelude.Text.{Text, text_beq}
use long_task_orchestration.AgentTurn.Window.{
  DispatchBackend, tmux, herdr, orca, paseo, DispatchWindowState, Windows, CleanupError, Finish,
  rposition, is_active, is_window_id, is_success, backend_of_str, retained, cleaned, retain,
  mark_cleaned, finish_gui, finish_tmux, close_window, finish_backend, is_tmux, finish_active,
  finish_dispatch_window,
}

-- `rposition` finds an element that passes the test.
rposition-found :
    {A : Type 0} (p : A → Bool) (xs : List A) (i : ℕ)
    → rposition p xs ≡ some i
    → (x : A) × (get_elem? xs i ≡ some x) × (p x ≡ true)
unfolding rposition
rposition-found p [] i h = absurd (cc)
rposition-found p (x ∷ xs) i h = elim (Option-cases (rposition p xs)) [
  | inr (j, later) ↦
      let (y, here, passes) = rposition-found p xs j later in
      (y, ground (arith, later, here), passes)
  | inl none_later ↦ (x, ground (arith, none_later), ground (arith, none_later))
]

count-set :
    {A : Type 0} (p : A → Bool) (xs : List A) (i : ℕ) (x y : A)
    → get_elem? xs i ≡ some x
    → p x ≡ true
    → p y ≡ false
    → length (filter p xs) ≡ length (filter p (set xs i y)) + 1
unfolding filter
count-set p [] i x y here passes fails = absurd (cc)
count-set p (z ∷ xs) zero x y here passes fails = ground (arith, here, passes, fails)
count-set p (z ∷ xs) (suc i) x y here passes fails =
    ground (arith, count-set p xs i x y here passes fails)

retained-inactive :
    (window_id runner now reason : Text) (w : DispatchWindowState)
    → is_active window_id runner (retained now reason w) ≡ false
unfolding is_active retained text_beq
retained-inactive window_id runner now reason w = ground arith

cleaned-inactive :
    (window_id runner now : Text) (w : DispatchWindowState)
    → is_active window_id runner (cleaned now w) ≡ false
unfolding is_active cleaned text_beq
cleaned-inactive window_id runner now w = ground arith

module _ (now : Text) (save : Windows → Result Text (Unit {0}))
    (schedule : Text → Text → Result Text (Option Text))
    (close : DispatchBackend → Text → Result Text Bool) where
  abbrev pub finish : Text → Option Text → Option ℤ → Windows → Finish
  finish = finish_dispatch_window now save schedule close

  -- The windows after finishing the active one at an index: as before, or with that one retained or
  -- cleaned, and changed in one of the two ways whenever the outcome is a success.
  record IsStep (i : ℕ) (w : DispatchWindowState) (windows : Windows) (f : Finish) : Type 0 where
    either :
        (f.windows ≡ windows)
        ⊎ ((reason : Text) × (f.windows ≡ set windows i (retained now reason w)))
        ⊎ (f.windows ≡ set windows i (cleaned now w))
    settles :
        f.outcome ≡ ok tt
        → ((reason : Text) × (f.windows ≡ set windows i (retained now reason w)))
          ⊎ (f.windows ≡ set windows i (cleaned now w))

  retain-IsStep :
      (closing : Bool) (i : ℕ) (w : DispatchWindowState) (reason : Text)
      (after : Result CleanupError (Unit {0})) (windows : Windows)
      → IsStep i w windows (retain now save closing i w reason after windows)
  unfolding retain
  retain-IsStep closing i w reason after windows = record {
    either = inr (inl (reason, refl));
    settles = λ _. inl (reason, refl);
  }

  mark_cleaned-IsStep :
      (i : ℕ) (w : DispatchWindowState) (windows : Windows)
      → IsStep i w windows (mark_cleaned now save i w windows)
  unfolding mark_cleaned
  mark_cleaned-IsStep i w windows = record { either = inr (inr refl); settles = λ _. inr refl }

  finish_gui-IsStep :
      (backend : DispatchBackend) (i : ℕ) (w : DispatchWindowState) (windows : Windows)
      → IsStep i w windows (finish_gui now save schedule close backend i w windows)
  unfolding finish_gui
  finish_gui-IsStep backend i w windows = elim (Result-cases (close backend w.target)) [
    | inl (closed, e) ↦ rw (e, finish_gui) (mark_cleaned-IsStep i w windows)
    | inr (x, e) ↦ rw (e, finish_gui) (retain-IsStep true i w _ _ windows)
  ]

  finish_tmux-IsStep :
      (window_id : Text) (i : ℕ) (w : DispatchWindowState) (windows : Windows)
      → IsStep i w windows (finish_tmux now save schedule close window_id i w windows)
  unfolding finish_tmux
  finish_tmux-IsStep window_id i w windows = elim (Result-cases (schedule w.tmux_bin window_id)) [
    | inr (x, e) ↦ rw (e, finish_tmux) (record { either = inl refl; settles = λ h. absurd (cc) })
    | inl (none, e) ↦ rw (e, finish_tmux) (mark_cleaned-IsStep i w windows)
    | inl (some stderr, e) ↦ rw (e, finish_tmux) (retain-IsStep true i w _ _ windows)
  ]

  close_window-IsStep :
      (backend : DispatchBackend) (window_id : Text) (i : ℕ) (w : DispatchWindowState)
      (windows : Windows)
      → IsStep i w windows (close_window now save schedule close backend window_id i w windows)
  unfolding close_window
  close_window-IsStep tmux window_id i w windows = finish_tmux-IsStep window_id i w windows
  close_window-IsStep herdr window_id i w windows = finish_gui-IsStep herdr i w windows
  close_window-IsStep orca window_id i w windows = finish_gui-IsStep orca i w windows
  close_window-IsStep paseo window_id i w windows = finish_gui-IsStep paseo i w windows

  finish_backend-IsStep :
      (backend : DispatchBackend) (window_id : Text) (rc : Option ℤ) (i : ℕ)
      (w : DispatchWindowState) (windows : Windows)
      → IsStep i w windows (finish_backend now save schedule close backend window_id rc i w windows)
  unfolding finish_backend
  finish_backend-IsStep backend window_id rc i w windows =
      elim (Bool-cases (is_tmux backend && not (is_window_id window_id))) [
        | inl bad ↦
            rw (bad, finish_backend) (record { either = inl refl; settles = λ h. absurd (cc) })
        | inr good ↦ elim (Bool-cases (not (is_success rc) || not w.cleanup_on_success)) [
          | inl keep ↦ rw (good, finish_backend) (rw keep (retain-IsStep false i w _ _ windows))
          | inr go ↦
              rw (good, finish_backend) (rw go (close_window-IsStep backend window_id i w windows))
        ]
      ]

  finish_active-IsStep :
      (window_id : Text) (rc : Option ℤ) (i : ℕ) (w : DispatchWindowState) (windows : Windows)
      → IsStep i w windows (finish_active now save schedule close window_id rc i w windows)
  unfolding finish_active
  finish_active-IsStep window_id rc i w windows = elim (Result-cases (backend_of_str w.backend)) [
    | inr (x, e) ↦ rw (e, finish_active) (record { either = inl refl; settles = λ h. absurd (cc) })
    | inl (backend, e) ↦
        rw (e, finish_active) (finish_backend-IsStep backend window_id rc i w windows)
  ]

  -- What finishing does to a window that is not the active one of the id and the runner: nothing.
  IsStep-frame :
      (window_id runner : Text) (i j : ℕ) (w v : DispatchWindowState) (windows : Windows)
      (f : Finish)
      → IsStep i w windows f
      → get_elem? windows i ≡ some w
      → is_active window_id runner w ≡ true
      → get_elem? windows j ≡ some v
      → is_active window_id runner v ≡ false
      → get_elem? f.windows j ≡ some v
  IsStep-frame window_id runner i j w v windows f step here active there idle = elim step.either [
    | inl e ↦ ap (λ l. get_elem? l j) e ∙ there
    | inr (inl (reason, e)) ↦
        ap (λ l. get_elem? l j) e
        ∙ get_elem?-set_ne windows i j (retained now reason w) apart
        ∙ there
    | inr (inr e) ↦
        ap (λ l. get_elem? l j) e ∙ get_elem?-set_ne windows i j (cleaned now w) apart ∙ there
  ]
    where
      apart : i ≢ j
      apart same = let e : some w ≡ some v = sym here ∙ ap (get_elem? windows) same ∙ there in cc

  -- Finishing leaves every window alone that is not active for the id and the runner.
  pub finish_dispatch_window-frame :
      (runner window_id : Text) (rc : Option ℤ) (windows : Windows) (j : ℕ)
      (v : DispatchWindowState)
      → get_elem? windows j ≡ some v
      → is_active window_id runner v ≡ false
      → get_elem? (finish runner (some window_id) rc windows).windows j ≡ some v
  unfolding finish_dispatch_window
  finish_dispatch_window-frame runner window_id rc windows j v there idle =
      elim (Option-cases (rposition (is_active window_id runner) windows)) [
        | inl none_active ↦ rw (none_active, finish_dispatch_window) there
        | inr (i, found) ↦
            let (w, here, active) = rposition-found (is_active window_id runner) windows i found in
            rw (found, finish_dispatch_window)
              (rw (here, finish_dispatch_window)
                (IsStep-frame window_id runner i j w v windows _
                  (finish_active-IsStep window_id rc i w windows) here active there idle))
      ]

  abbrev actives : Text → Text → Windows → ℕ
  actives window_id runner windows = length (filter (is_active window_id runner) windows)

  -- A finish that succeeds settles exactly one active window, if there is one: one less is active.
  pub finish_dispatch_window-settles :
      (runner window_id : Text) (rc : Option ℤ) (windows : Windows)
      → (finish runner (some window_id) rc windows).outcome ≡ ok tt
      → rposition (is_active window_id runner) windows ≢ none
      → actives window_id runner windows
        ≡ actives window_id runner (finish runner (some window_id) rc windows).windows + 1
  unfolding finish_dispatch_window
  finish_dispatch_window-settles runner window_id rc windows done some_active =
      elim (Option-cases (rposition (is_active window_id runner) windows)) [
        | inl none_active ↦ absurd (some_active none_active)
        | inr (i, found) ↦
            let (w, here, active) = rposition-found (is_active window_id runner) windows i found in
            let f = finish_active now save schedule close window_id rc i w windows in
            let is_f : finish runner (some window_id) rc windows ≡ f =
              rw (found, finish_dispatch_window) (rw (here, finish_dispatch_window) refl) in
            let step = finish_active-IsStep window_id rc i w windows in
            elim (step.settles (ap (λ g. g.outcome) (sym is_f) ∙ done)) [
              | inl (reason, e) ↦
                  count-set (is_active window_id runner) windows i w (retained now reason w) here
                    active (retained-inactive window_id runner now reason w)
                  ∙ ap (λ l. actives window_id runner l + 1)
                      (sym e ∙ ap (λ g. g.windows) (sym is_f))
              | inr e ↦
                  count-set (is_active window_id runner) windows i w (cleaned now w) here active
                    (cleaned-inactive window_id runner now w)
                  ∙ ap (λ l. actives window_id runner l + 1)
                      (sym e ∙ ap (λ g. g.windows) (sym is_f))
            ]
      ]

  -- A window is asked to be closed only after a completion with exit code 0, and only if it is an
  -- active window of the runner that is to be cleaned up on success.
  pub finish_dispatch_window-closing :
      (runner window_id : Text) (rc : Option ℤ) (windows : Windows)
      → (finish runner (some window_id) rc windows).closing ≡ true
      → (is_success rc ≡ true)
        × (i : ℕ) × (w : DispatchWindowState) × (get_elem? windows i ≡ some w)
        × (is_active window_id runner w ≡ true)
        × (w.cleanup_on_success ≡ true)
  unfolding finish_dispatch_window
  finish_dispatch_window-closing runner window_id rc windows closing =
      elim (Option-cases (rposition (is_active window_id runner) windows)) [
        | inl none_active ↦ absurd (ground (arith, none_active))
        | inr (i, found) ↦
            let (w, here, active) = rposition-found (is_active window_id runner) windows i found in
            let (success, cleans) = finish_active_closing w i (ground (arith, found, here)) in
            (success, i, w, here, active, cleans)
      ]
    where
      finish_active_closing :
          (w : DispatchWindowState) (i : ℕ)
          → (finish_active now save schedule close window_id rc i w windows).closing ≡ true
          → (is_success rc ≡ true) × (w.cleanup_on_success ≡ true)
      finish_active_closing w i h = unfold finish_active finish_backend retain in ground arith
