-- ===== src/Scheduler/Health.antt =====
-- src/scheduler.rs: the health of the runners after a probe and its retries.
pub mod Laws
use long_task_orchestration.Prelude.{
  ℕ, zero, suc, Bool, true, false, not, List, [], ◌∷◌, Option, none, some, filter, take, drop,
  if◌then◌else◌,
}
use long_task_orchestration.Prelude.BTreeMap.{text_key, get, insert}
use long_task_orchestration.Prelude.Result.{Result, ok, err, ◌>>=◌}
use long_task_orchestration.Prelude.Text.{Text}

abbrev pub HealthProbe : Type 0
HealthProbe = List (Text × Bool)

abbrev pub unwrap_or_false : Option Bool → Bool
unwrap_or_false none = false
unwrap_or_false (some b) = b

-- `probe.get(runner).copied().unwrap_or(false)`
unfoldable pub is_healthy : HealthProbe → Text → Bool
is_healthy probe runner = unwrap_or_false (get runner probe)

abbrev is_nil : List Text → Bool
is_nil [] = true
is_nil (x ∷ xs) = false

unfoldable pub still_bad : HealthProbe → List Text → List Text
still_bad healthy runners = filter (λ runner. not (is_healthy healthy runner)) runners

-- `for runner in still_bad { if probe says true { healthy.insert(runner, true) } }`
unfoldable pub mark_healthy : HealthProbe → List Text → HealthProbe → HealthProbe
mark_healthy probe [] healthy = healthy
mark_healthy probe (runner ∷ rest) healthy =
    mark_healthy probe rest
      (if is_healthy probe runner then insert runner true healthy else healthy)

-- `runners.iter().map(..).collect::<BTreeMap<_, _>>()`
unfoldable pub collect : (Text → Bool) → List Text → HealthProbe → HealthProbe
collect value [] healthy = healthy
collect value (runner ∷ rest) healthy = collect value rest (insert runner (value runner) healthy)

unfoldable pub empty_health_probe : List Text → HealthProbe
unfolding collect
empty_health_probe runners = collect (λ _. false) runners []

-- The retry loop over the later probes, at most as many as there are retries.
unfoldable pub retry_probes : List Text → List HealthProbe → HealthProbe → HealthProbe
retry_probes runners [] healthy = healthy
retry_probes runners (probe ∷ rest) healthy =
    let bad = still_bad healthy runners in
    let next = retry_probes runners rest (mark_healthy probe bad healthy) in
    if is_nil bad then healthy else next

abbrev first_probe : List HealthProbe → HealthProbe
first_probe [] = []
first_probe (probe ∷ rest) = probe

unfoldable pub healthcheck_with_retries : List Text → List HealthProbe → ℕ → HealthProbe
unfolding collect retry_probes
healthcheck_with_retries runners probes retries =
    retry_probes runners (take retries (drop 1 probes))
      (collect (is_healthy (first_probe probes)) runners [])

-- `healthcheck_checked`, over the probe: call number `call` for the given runners. Each retry asks
-- for the runners that are still bad, and the first error ends it.
module _ {E : Type 0} (probe : ℕ → List Text → Result E HealthProbe) where
  unfoldable pub healthcheck_loop : ℕ → ℕ → List Text → HealthProbe → Result E HealthProbe
  healthcheck_loop zero call runners healthy = ok healthy
  healthcheck_loop (suc left) call runners healthy =
      let bad = still_bad healthy runners in
      elim (is_nil bad) [
        | true ↦ ok healthy
        | false ↦ do
          retry ← probe call bad
          healthcheck_loop left (suc call) runners (mark_healthy retry bad healthy)
      ]

  unfoldable pub healthcheck_checked : List Text → ℕ → Result E HealthProbe
  unfolding healthcheck_loop
  healthcheck_checked runners retries = do
    healthy ← probe 0 runners
    healthcheck_loop retries 1 runners healthy

  abbrev or_empty : List Text → Result E HealthProbe → HealthProbe
  or_empty runners (ok health) = health
  or_empty runners (err e) = empty_health_probe runners

  -- `healthcheck`: a failing retry counts as a probe in which nothing is healthy.
  unfoldable pub healthcheck_rest : ℕ → ℕ → List Text → HealthProbe → HealthProbe
  healthcheck_rest zero call runners healthy = healthy
  healthcheck_rest (suc left) call runners healthy =
      let bad = still_bad healthy runners in
      let next =
        healthcheck_rest left (suc call) runners
          (mark_healthy (or_empty bad (probe call bad)) bad healthy) in
      if is_nil bad then healthy else next

  unfoldable pub healthcheck : List Text → ℕ → HealthProbe
  unfolding healthcheck_rest empty_health_probe
  healthcheck runners retries = elim (probe 0 runners) [
    | ok healthy ↦ healthcheck_rest retries 1 runners healthy
    | err e ↦ empty_health_probe runners
  ]
