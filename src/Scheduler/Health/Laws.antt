-- ===== src/Scheduler/Health/Laws.antt =====
-- src/scheduler.rs: a runner is healthy exactly if one of the probes says so.
use long_task_orchestration.Prelude.{
  ℕ, zero, suc, ◌≡◌, refl, Bool, true, false, not, ◌&&◌, ◌||◌, List, [], ◌∷◌, any, filter, take,
  arith, if◌then◌else◌,
}
use long_task_orchestration.Prelude.BTreeMap.{text_key, get, insert, get-insert}
use long_task_orchestration.Prelude.Eq.{contains}
use long_task_orchestration.Prelude.Text.{Text, text_eq, text_beq, text_beq_iff}
use long_task_orchestration.Scheduler.Health.{
  HealthProbe, is_healthy, still_bad, mark_healthy, collect, retry_probes, healthcheck_with_retries,
  is_nil,
}

is_healthy-insert :
    (k j : Text) (b : Bool) (healthy : HealthProbe)
    → is_healthy (insert k b healthy) j ≡ (if text_beq k j then b else is_healthy healthy j)
unfolding is_healthy
is_healthy-insert k j b healthy = ground (arith, get-insert k j b healthy)

is_healthy-collect :
    (value : Text → Bool) (runners : List Text) (healthy : HealthProbe) (r : Text)
    → is_healthy (collect value runners healthy) r
      ≡ (if contains runners r then value r else is_healthy healthy r)
unfolding collect contains
is_healthy-collect value [] healthy r = refl
is_healthy-collect value (k ∷ rest) healthy r = ground (
  arith,
  is_healthy-collect value rest (insert k (value k) healthy) r,
  is_healthy-insert k r (value k) healthy,
  text_beq_iff k r,
)

is_healthy-mark :
    (probe : HealthProbe) (bad : List Text) (healthy : HealthProbe) (r : Text)
    → is_healthy (mark_healthy probe bad healthy) r
      ≡ (is_healthy healthy r || contains bad r && is_healthy probe r)
unfolding mark_healthy contains
is_healthy-mark probe [] healthy r = ground arith
is_healthy-mark probe (k ∷ rest) healthy r = ground (
  arith,
  is_healthy-mark probe rest (insert k true healthy) r,
  is_healthy-mark probe rest healthy r,
  is_healthy-insert k r true healthy,
  text_beq_iff k r,
)

contains-still_bad :
    (healthy : HealthProbe) (runners : List Text) (r : Text)
    → contains (still_bad healthy runners) r ≡ (contains runners r && not (is_healthy healthy r))
unfolding still_bad filter contains
contains-still_bad healthy [] r = refl
contains-still_bad healthy (k ∷ rest) r =
    ground (arith, contains-still_bad healthy rest r, text_beq_iff k r)

is_nil-contains : (bad : List Text) (r : Text) → is_nil bad ≡ true → contains bad r ≡ false
unfolding contains
is_nil-contains [] r h = refl
is_nil-contains (k ∷ rest) r h = cc

abbrev pub says : Text → HealthProbe → Bool
says r probe = is_healthy probe r

is_healthy-retry_probes :
    (runners : List Text) (probes : List HealthProbe) (healthy : HealthProbe) (r : Text)
    → is_healthy (retry_probes runners probes healthy) r
      ≡ (is_healthy healthy r || contains runners r && any (says r) probes)
unfolding retry_probes any
is_healthy-retry_probes runners [] healthy r = ground arith
is_healthy-retry_probes runners (probe ∷ rest) healthy r =
    let bad = still_bad healthy runners in
    ground (
      arith,
      is_nil-contains bad r,
      contains-still_bad healthy runners r,
      is_healthy-retry_probes runners rest (mark_healthy probe bad healthy) r,
      is_healthy-mark probe bad healthy r,
    )

is_healthy-nil : (r : Text) → is_healthy [] r ≡ false
unfolding is_healthy get
is_healthy-nil r = refl

any-take-nil : (n : ℕ) (r : Text) → any (says r) (take n []) ≡ false
unfolding any
any-take-nil zero r = refl
any-take-nil (suc n) r = refl

-- After the probe and its retries a runner is healthy exactly if it was asked for and one of the
-- first `retries + 1` probes said so: stopping early and asking only for those still bad loses
-- nothing.
pub healthcheck_with_retries-any :
    (runners : List Text) (probes : List HealthProbe) (retries : ℕ) (r : Text)
    → is_healthy (healthcheck_with_retries runners probes retries) r
      ≡ (contains runners r && any (says r) (take (suc retries) probes))
unfolding healthcheck_with_retries any
healthcheck_with_retries-any runners [] retries r = ground (
  arith,
  is_healthy-retry_probes runners (take retries []) (collect (is_healthy []) runners []) r,
  is_healthy-collect (is_healthy []) runners [] r,
  any-take-nil retries r,
  is_healthy-nil r,
)
healthcheck_with_retries-any runners (probe ∷ rest) retries r = ground (
  arith,
  is_healthy-retry_probes runners (take retries rest) (collect (is_healthy probe) runners []) r,
  is_healthy-collect (is_healthy probe) runners [] r,
  is_healthy-nil r,
)
