-- ===== src/Lib.antt =====
-- The orchestration core of lto, the long task orchestrator: the scheduler that runs a batch of
-- agent jobs, the policies that say what a job may do, the audit ledger that says whether a run
-- converges, the decisions on which reviewers have to agree, the log of events, the saving of the
-- state of a run, and the bookkeeping of turns and windows.
--
-- Paths are those of the repository; each file here says which functions it is about.
--
-- Prelude: Boolean tests, lists and texts over the native numbers, ordered maps, the result type,
-- JSON values, and the operations of `f64` as a record with the one law that is used and the test
-- of `Duration::from_secs_f64`. A text is the list of its code points.
-- AgentJob (src/agent_job.rs): jobs, results, policies. Policy has `validate_for_runner`,
-- `effective_readonly_tools`, `readonly_intent_to_policy` and `validate`; Safety is about them.
-- MergeReview (src/merge_review.rs): the review of a write task and its test gate.
-- Dispatch (src/dispatch.rs): `TaskDescriptor::from_tokens` and `should_escalate_same_cell`.
-- Scheduler (src/scheduler.rs). `submit` (Submit) validates the batch (Batch), probes the runners
-- (Health), makes the plan from the children that the jobs name (Plan), and runs the waves
-- (Plan/Run): each round skips the jobs behind a parent that does not open them, and runs the ready
-- ones, each by the loop of its attempts (Retry), whose exits Exit classifies. Write has what a
-- write task adds. Plan/Record, Wave and Round carry the proofs: what recording results does, what
-- a wave returns, and the cases of one round. Submit/Laws puts them together.
-- Ledger (src/ledger.rs): rounds, `evaluate_ledger` (Verdict), `diagnose` (Diagnosis) and
-- `parse_ledger` (Parse).
-- Budget (src/budget.rs): the budget of a run; Laws says when it is exceeded.
-- AgentTurn (src/agent_turn.rs): what a reported turn counts as; Window has the dispatch windows,
-- with the backends of src/dispatch_goal.rs and the record of src/state.rs, and Cleanup is about
-- them. Route has `route_run` with `validate_run_id` of src/state.rs, and Routed is about it.
-- Audit (src/audit.rs): the families of runners and the findings of auditors. Findings reads them
-- out of JSON values.
-- Decision (src/decision.rs): `run_decision` (Run) takes the votes and candidates that Votes reads
-- and validates, counts them (Count), asks for reviewers of two families, and writes a report
-- (Brief). Compose has the parts of an outcome. Order and Counts are about `max_by` and the map of
-- counts, Majority about the tally, Families about the families, Veto about votes for a human, and
-- Tracks, Gate and Outcome about the decision.
-- Events (src/events.rs): `emit`, `read` and the counter of a log, and Wait the wait for an event.
-- Digits and Log are about the counter and the ids, Readings about `read`. The steps of a log are
-- emits and crashes between the two writes of an emit.
-- Merge (src/commands/util.rs, with the state of src/state.rs): Save has `merge_concurrent_state`,
-- on the merge of two lists by keys in Stable; Items, View and Kept are about them. Contract has
-- the checks of a delivery contract and of a run that is to start.
-- Shell (src/process.rs): `shell_single_quote`, with a reader of words after the rules of POSIX.
-- Redact (src/redact.rs): the redaction of texts and JSON values.
-- AuditLedger (src/audit_ledger.rs): `append` on the text of an audit ledger; Placed is about the
-- place of the new row, and Laws about the rest. The number of a label wraps at 64 bits, as in a
-- release build.
-- Tests: concrete runs.
--
-- A struct is a record with the source's fields, an enum a data type, a `BTreeMap` a list in the
-- order of its keys, and a `BTreeSet` of indices a list. Unsigned integers are natural numbers,
-- with saturation written out.
--
-- What is outside the program is a parameter: the run of one attempt (`run_once`), the health
-- probe, the joining of the spawned tasks (`JoinSet`, which returns each result once, in any
-- order), saving the state, closing a window, the files of the runs, the functions of chrono on
-- dates (`Chrono`), reading and printing JSON texts (serde_json), the regular expressions, and the
-- clock. The loop of attempts of a job is the parameter `run` of the waves, which take a job from
-- the remaining ones once it has a result; a panic of the loop is an error of `JoinSet` there. The
-- number of tasks that run at a time is not modelled.
--
-- The loop over the waves takes fuel, one more than there are jobs: each wave that does not end the
-- loop records at least one job. An outcome of `none` would be a loop out of fuel, or a panic of
-- the `expect` in `submit`.
--
-- Not modelled: starting and watching processes, git and the worktrees, the files and their locks,
-- the command line, the telemetry, the plugins, and the scores of `dispatch_candidates`.
pub mod Prelude
pub mod Ledger
pub mod MergeReview
pub mod AgentJob
pub mod Dispatch
pub mod Scheduler
pub mod Budget
pub mod AgentTurn
pub mod Audit
pub mod Decision
pub mod Merge
pub mod Shell
pub mod Events
pub mod Redact
pub mod AuditLedger
pub mod Tests
