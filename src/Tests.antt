-- ===== src/Tests.antt =====
-- Runs of the model at concrete inputs, by component.
mod Data
mod LedgerRuns
mod AgentJobRuns
mod SchedulerRuns
mod PlanRuns
mod AgentTurnRuns
mod BudgetRuns
mod DecisionRuns
mod MergeRuns
mod EventsRuns
mod AuditLedgerRuns
