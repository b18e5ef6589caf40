-- ===== src/Tests/Transitions.antt =====
-- The rules of app/ops_agent/domain.py at work.
use k8s_ops_agent.Base.{refl, ◌≤◌, arith}
use mathlib.Core.List.{Memᴰ}
use k8s_ops_agent.Domain.{
  IncidentStatus, PlanStatus, ExecutionStatus, AgentRunStatus, Status, validate_transition,
}
use k8s_ops_agent.Domain.Paths.{
  here, next, visited, steps, IncidentPath, PlanPath, ExecutionPath, AgentRunPath,
}
use k8s_ops_agent.Domain.Gates.{
  incident_stages, plan_stages, transitions_bounded, incident_can_close,
}

abbrev an_incident : IncidentPath IncidentStatus.open_ IncidentStatus.diagnosed
unfolding validate_transition
an_incident = next IncidentStatus.diagnosing _ (next IncidentStatus.open_ _ here refl) refl

incident_stages_example : Memᴰ IncidentStatus.diagnosing (visited Status.incident an_incident)
incident_stages_example =
    incident_stages an_incident IncidentStatus.diagnosing (omega arith) (omega arith)

abbrev a_plan : PlanPath PlanStatus.draft PlanStatus.awaiting_approval
unfolding validate_transition
a_plan = next PlanStatus.dry_run_ready _ (next PlanStatus.draft _ here refl) refl

plan_stages_example : Memᴰ PlanStatus.dry_run_ready (visited Status.plan a_plan)
plan_stages_example = plan_stages a_plan PlanStatus.dry_run_ready (omega arith) (omega arith)

abbrev an_execution : ExecutionPath ExecutionStatus.prepared ExecutionStatus.failed
unfolding validate_transition
an_execution = next ExecutionStatus.running _ (next ExecutionStatus.prepared _ here refl) refl

abbrev a_run : AgentRunPath AgentRunStatus.queued AgentRunStatus.running
unfolding validate_transition
a_run = next AgentRunStatus.queued _ here refl

transitions_bounded_example :
    (steps Status.plan a_plan ≤ 5)
    × (steps Status.execution an_execution ≤ 4)
    × (steps Status.agent_run a_run ≤ 4)
transitions_bounded_example = transitions_bounded a_plan an_execution a_run

incident_can_close_example : IncidentPath IncidentStatus.awaiting_approval IncidentStatus.closed
incident_can_close_example = incident_can_close IncidentStatus.awaiting_approval
