-- ===== src/Domain/Enums.antt =====
-- The enums of app/ops_agent/domain.py, with the texts that are their values.

pub data IncidentSeverity : Type 0 where
  low medium high critical : IncidentSeverity

pub data IncidentStatus : Type 0 where
  open_ diagnosing diagnosed plan_ready awaiting_approval remediating verifying resolved closed
        failed :
      IncidentStatus

pub data TaskStatus : Type 0 where
  todo in_progress blocked done cancelled : TaskStatus

pub data TaskType : Type 0 where
  manual_check approval remediation verification follow_up : TaskType

pub data Priority : Type 0 where
  low medium high critical : Priority

pub data PlanStatus : Type 0 where
  draft dry_run_ready awaiting_approval approved executable executed rejected cancelled : PlanStatus

pub data RiskLevel : Type 0 where
  low medium high : RiskLevel

pub data ExecutionStatus : Type 0 where
  prepared running succeeded failed verification_failed rolled_back : ExecutionStatus

pub data AgentRunStatus : Type 0 where
  queued running collecting diagnosing completed awaiting_human stopped failed cancelled :
      AgentRunStatus

pub data AgentRunMode : Type 0 where
  diagnose_only : AgentRunMode

pub data AgentStepType : Type 0 where
  call_tool complete ask_human stop : AgentStepType

pub data PolicyDecision : Type 0 where
  allow deny ask_human : PolicyDecision

pub data EvidenceType : Type 0 where
  alert_payload pod_status current_logs previous_logs k8s_events workload_status resource_limits
        prometheus_metrics redis_status collection_error :
      EvidenceType

pub data AgentStepStatus : Type 0 where
  running succeeded failed denied : AgentStepStatus

pub data ToolInvocationStatus : Type 0 where
  pending running succeeded failed timed_out denied : ToolInvocationStatus

pub data OutboxStatus : Type 0 where
  pending published failed : OutboxStatus

unfoldable pub IncidentStatus-discrete : Discrete IncidentStatus
IncidentStatus-discrete = hlevel

unfoldable pub TaskStatus-discrete : Discrete TaskStatus
TaskStatus-discrete = hlevel

unfoldable pub PlanStatus-discrete : Discrete PlanStatus
PlanStatus-discrete = hlevel

unfoldable pub ExecutionStatus-discrete : Discrete ExecutionStatus
ExecutionStatus-discrete = hlevel

unfoldable pub AgentRunStatus-discrete : Discrete AgentRunStatus
AgentRunStatus-discrete = hlevel

unfoldable pub TaskType-discrete : Discrete TaskType
TaskType-discrete = hlevel

unfoldable pub EvidenceType-discrete : Discrete EvidenceType
EvidenceType-discrete = hlevel
