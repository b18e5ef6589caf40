-- ===== src/Domain/Transitions.antt =====
-- TRANSITIONS and `validate_transition`.
use Prim.Native.String.{String, ◌++◌}
use mathlib.Core.Bool.{Bool, true, false}
use mathlib.Core.Logic.{ite}
use mathlib.Core.List.{List, [], ◌∷◌}
use k8s_ops_agent.Base.{if◌then◌else◌}
use k8s_ops_agent.Domain.Enums.{
  IncidentStatus, TaskStatus, PlanStatus, ExecutionStatus, AgentRunStatus, AgentStepStatus,
  ToolInvocationStatus, OutboxStatus, IncidentStatus-discrete, TaskStatus-discrete,
  PlanStatus-discrete, ExecutionStatus-discrete, AgentRunStatus-discrete,
}

-- TRANSITIONS[IncidentStatus]
unfoldable pub incident_transitions : IncidentStatus → List IncidentStatus
incident_transitions IncidentStatus.open_ =
    IncidentStatus.diagnosing ∷ IncidentStatus.verifying ∷ IncidentStatus.closed ∷ []
incident_transitions IncidentStatus.diagnosing =
    IncidentStatus.diagnosed ∷ IncidentStatus.failed ∷ IncidentStatus.verifying
    ∷ IncidentStatus.closed ∷ []
incident_transitions IncidentStatus.diagnosed =
    IncidentStatus.plan_ready ∷ IncidentStatus.diagnosing ∷ IncidentStatus.verifying
    ∷ IncidentStatus.closed ∷ []
incident_transitions IncidentStatus.plan_ready =
    IncidentStatus.awaiting_approval ∷ IncidentStatus.diagnosed ∷ IncidentStatus.verifying
    ∷ IncidentStatus.closed ∷ []
incident_transitions IncidentStatus.awaiting_approval =
    IncidentStatus.remediating ∷ IncidentStatus.diagnosed ∷ IncidentStatus.verifying
    ∷ IncidentStatus.closed ∷ []
incident_transitions IncidentStatus.remediating =
    IncidentStatus.verifying ∷ IncidentStatus.failed ∷ []
incident_transitions IncidentStatus.verifying = IncidentStatus.resolved ∷ IncidentStatus.failed ∷ []
incident_transitions IncidentStatus.resolved = IncidentStatus.closed ∷ []
incident_transitions IncidentStatus.failed =
    IncidentStatus.diagnosing ∷ IncidentStatus.verifying ∷ IncidentStatus.closed ∷ []
incident_transitions IncidentStatus.closed = []

-- TRANSITIONS[TaskStatus]
unfoldable pub task_transitions : TaskStatus → List TaskStatus
task_transitions TaskStatus.todo =
    TaskStatus.in_progress ∷ TaskStatus.blocked ∷ TaskStatus.cancelled ∷ []
task_transitions TaskStatus.in_progress =
    TaskStatus.done ∷ TaskStatus.blocked ∷ TaskStatus.cancelled ∷ []
task_transitions TaskStatus.blocked = TaskStatus.in_progress ∷ TaskStatus.cancelled ∷ []
task_transitions TaskStatus.done = []
task_transitions TaskStatus.cancelled = []

-- TRANSITIONS[PlanStatus]
unfoldable pub plan_transitions : PlanStatus → List PlanStatus
plan_transitions PlanStatus.draft = PlanStatus.dry_run_ready ∷ PlanStatus.cancelled ∷ []
plan_transitions PlanStatus.dry_run_ready = PlanStatus.awaiting_approval ∷ PlanStatus.cancelled ∷ []
plan_transitions PlanStatus.awaiting_approval =
    PlanStatus.approved ∷ PlanStatus.rejected ∷ PlanStatus.cancelled ∷ []
plan_transitions PlanStatus.approved = PlanStatus.executable ∷ PlanStatus.cancelled ∷ []
plan_transitions PlanStatus.executable = PlanStatus.executed ∷ []
plan_transitions PlanStatus.executed = []
plan_transitions PlanStatus.rejected = []
plan_transitions PlanStatus.cancelled = []

-- TRANSITIONS[ExecutionStatus]
unfoldable pub execution_transitions : ExecutionStatus → List ExecutionStatus
execution_transitions ExecutionStatus.prepared =
    ExecutionStatus.running ∷ ExecutionStatus.failed ∷ []
execution_transitions ExecutionStatus.running =
    ExecutionStatus.succeeded ∷ ExecutionStatus.failed ∷ []
execution_transitions ExecutionStatus.succeeded = ExecutionStatus.verification_failed ∷ []
execution_transitions ExecutionStatus.failed = ExecutionStatus.rolled_back ∷ []
execution_transitions ExecutionStatus.verification_failed = ExecutionStatus.rolled_back ∷ []
execution_transitions ExecutionStatus.rolled_back = []

-- TRANSITIONS[AgentRunStatus]
unfoldable pub agent_run_transitions : AgentRunStatus → List AgentRunStatus
agent_run_transitions AgentRunStatus.queued =
    AgentRunStatus.running ∷ AgentRunStatus.collecting ∷ AgentRunStatus.failed
    ∷ AgentRunStatus.cancelled ∷ []
agent_run_transitions AgentRunStatus.running =
    AgentRunStatus.completed ∷ AgentRunStatus.awaiting_human ∷ AgentRunStatus.stopped
    ∷ AgentRunStatus.failed ∷ AgentRunStatus.cancelled ∷ []
agent_run_transitions AgentRunStatus.collecting =
    AgentRunStatus.diagnosing ∷ AgentRunStatus.failed ∷ []
agent_run_transitions AgentRunStatus.diagnosing =
    AgentRunStatus.completed ∷ AgentRunStatus.failed ∷ []
agent_run_transitions AgentRunStatus.completed = []
agent_run_transitions AgentRunStatus.awaiting_human = AgentRunStatus.cancelled ∷ []
agent_run_transitions AgentRunStatus.stopped = []
agent_run_transitions AgentRunStatus.failed = []
agent_run_transitions AgentRunStatus.cancelled = []

abbrev pub incident_value : IncidentStatus → String
incident_value IncidentStatus.open_ = "OPEN"
incident_value IncidentStatus.diagnosing = "DIAGNOSING"
incident_value IncidentStatus.diagnosed = "DIAGNOSED"
incident_value IncidentStatus.plan_ready = "PLAN_READY"
incident_value IncidentStatus.awaiting_approval = "AWAITING_APPROVAL"
incident_value IncidentStatus.remediating = "REMEDIATING"
incident_value IncidentStatus.verifying = "VERIFYING"
incident_value IncidentStatus.resolved = "RESOLVED"
incident_value IncidentStatus.closed = "CLOSED"
incident_value IncidentStatus.failed = "FAILED"

abbrev pub task_value : TaskStatus → String
task_value TaskStatus.todo = "TODO"
task_value TaskStatus.in_progress = "IN_PROGRESS"
task_value TaskStatus.blocked = "BLOCKED"
task_value TaskStatus.done = "DONE"
task_value TaskStatus.cancelled = "CANCELLED"

abbrev pub plan_value : PlanStatus → String
plan_value PlanStatus.draft = "DRAFT"
plan_value PlanStatus.dry_run_ready = "DRY_RUN_READY"
plan_value PlanStatus.awaiting_approval = "AWAITING_APPROVAL"
plan_value PlanStatus.approved = "APPROVED"
plan_value PlanStatus.executable = "EXECUTABLE"
plan_value PlanStatus.executed = "EXECUTED"
plan_value PlanStatus.rejected = "REJECTED"
plan_value PlanStatus.cancelled = "CANCELLED"

abbrev pub execution_value : ExecutionStatus → String
execution_value ExecutionStatus.prepared = "PREPARED"
execution_value ExecutionStatus.running = "RUNNING"
execution_value ExecutionStatus.succeeded = "SUCCEEDED"
execution_value ExecutionStatus.failed = "FAILED"
execution_value ExecutionStatus.verification_failed = "VERIFICATION_FAILED"
execution_value ExecutionStatus.rolled_back = "ROLLED_BACK"

abbrev pub agent_run_value : AgentRunStatus → String
agent_run_value AgentRunStatus.queued = "QUEUED"
agent_run_value AgentRunStatus.running = "RUNNING"
agent_run_value AgentRunStatus.collecting = "COLLECTING"
agent_run_value AgentRunStatus.diagnosing = "DIAGNOSING"
agent_run_value AgentRunStatus.completed = "COMPLETED"
agent_run_value AgentRunStatus.awaiting_human = "AWAITING_HUMAN"
agent_run_value AgentRunStatus.stopped = "STOPPED"
agent_run_value AgentRunStatus.failed = "FAILED"
agent_run_value AgentRunStatus.cancelled = "CANCELLED"

abbrev pub agent_step_value : AgentStepStatus → String
agent_step_value AgentStepStatus.running = "RUNNING"
agent_step_value AgentStepStatus.succeeded = "SUCCEEDED"
agent_step_value AgentStepStatus.failed = "FAILED"
agent_step_value AgentStepStatus.denied = "DENIED"

abbrev pub tool_invocation_value : ToolInvocationStatus → String
tool_invocation_value ToolInvocationStatus.pending = "PENDING"
tool_invocation_value ToolInvocationStatus.running = "RUNNING"
tool_invocation_value ToolInvocationStatus.succeeded = "SUCCEEDED"
tool_invocation_value ToolInvocationStatus.failed = "FAILED"
tool_invocation_value ToolInvocationStatus.timed_out = "TIMED_OUT"
tool_invocation_value ToolInvocationStatus.denied = "DENIED"

abbrev pub outbox_value : OutboxStatus → String
outbox_value OutboxStatus.pending = "PENDING"
outbox_value OutboxStatus.published = "PUBLISHED"
outbox_value OutboxStatus.failed = "FAILED"

pub data Status : Type 0 where
  incident : IncidentStatus → Status
  task : TaskStatus → Status
  plan : PlanStatus → Status
  execution : ExecutionStatus → Status
  agent_run : AgentRunStatus → Status
  agent_step : AgentStepStatus → Status
  tool_invocation : ToolInvocationStatus → Status
  outbox : OutboxStatus → Status

-- `type(s).__name__`
abbrev pub type_name : Status → String
type_name (Status.incident _) = "IncidentStatus"
type_name (Status.task _) = "TaskStatus"
type_name (Status.plan _) = "PlanStatus"
type_name (Status.execution _) = "ExecutionStatus"
type_name (Status.agent_run _) = "AgentRunStatus"
type_name (Status.agent_step _) = "AgentStepStatus"
type_name (Status.tool_invocation _) = "ToolInvocationStatus"
type_name (Status.outbox _) = "OutboxStatus"

-- What a `StrEnum` value prints as.
abbrev pub value : Status → String
value (Status.incident s) = incident_value s
value (Status.task s) = task_value s
value (Status.plan s) = plan_value s
value (Status.execution s) = execution_value s
value (Status.agent_run s) = agent_run_value s
value (Status.agent_step s) = agent_step_value s
value (Status.tool_invocation s) = tool_invocation_value s
value (Status.outbox s) = outbox_value s

-- `target in allowed`
abbrev pub contains : {A : Type 0} → Discrete A → A → List A → Bool
contains same a [] = false
contains same a (x ∷ xs) = let rest = contains same a xs in ite (same a x) true rest

-- How `validate_transition` ends: it returns, or it raises with this message.
pub data Verdict : Type 0 where
  valid : Verdict
  invalid : String → Verdict

invalid_transition : Status → Status → Verdict
invalid_transition current target =
    Verdict.invalid ("invalid transition: " ++ value current ++ " -> " ++ value target)

-- `target not in allowed`, where `type(current)` is `type(target)`.
check_allowed : Bool → Status → Status → Verdict
unfolding invalid_transition
check_allowed allowed current target =
    if allowed then Verdict.valid else invalid_transition current target

unfoldable pub validate_transition : Status → Status → Verdict
unfolding check_allowed incident_transitions task_transitions plan_transitions execution_transitions
    agent_run_transitions IncidentStatus-discrete TaskStatus-discrete PlanStatus-discrete
    ExecutionStatus-discrete AgentRunStatus-discrete
validate_transition (Status.incident s) (Status.incident t) =
    check_allowed (contains IncidentStatus-discrete t (incident_transitions s)) (Status.incident s)
      (Status.incident t)
validate_transition (Status.task s) (Status.task t) =
    check_allowed (contains TaskStatus-discrete t (task_transitions s)) (Status.task s)
      (Status.task t)
validate_transition (Status.plan s) (Status.plan t) =
    check_allowed (contains PlanStatus-discrete t (plan_transitions s)) (Status.plan s)
      (Status.plan t)
validate_transition (Status.execution s) (Status.execution t) =
    check_allowed (contains ExecutionStatus-discrete t (execution_transitions s))
      (Status.execution s) (Status.execution t)
validate_transition (Status.agent_run s) (Status.agent_run t) =
    check_allowed (contains AgentRunStatus-discrete t (agent_run_transitions s))
      (Status.agent_run s) (Status.agent_run t)
validate_transition (Status.agent_step s) (Status.agent_step t) =
    invalid_transition (Status.agent_step s) (Status.agent_step t)
validate_transition (Status.tool_invocation s) (Status.tool_invocation t) =
    invalid_transition (Status.tool_invocation s) (Status.tool_invocation t)
validate_transition (Status.outbox s) (Status.outbox t) =
    invalid_transition (Status.outbox s) (Status.outbox t)
validate_transition s t =
    Verdict.invalid ("state machine mismatch: " ++ type_name s ++ " -> " ++ type_name t)
