-- ===== src/Models.antt =====
-- The rows of app/ops_agent/models.py, and the database that holds them.
-- A primary key is the text of a UUID that is only compared: a number stands for it, and it is the
-- key of the row's table. A time is a number of seconds. `created_at` is the order of the rows in
-- their table, `updated_at` is read by nothing, and the relationships are the foreign keys.
use k8s_ops_agent.Base.{ℕ, String, Bool, Option, List, Table}
use k8s_ops_agent.Domain.{
  IncidentSeverity, IncidentStatus, TaskStatus, TaskType, Priority, PlanStatus, RiskLevel,
  ExecutionStatus, AgentRunMode, AgentRunStatus, AgentStepType, AgentStepStatus,
  ToolInvocationStatus, EvidenceType, OutboxStatus,
}
use k8s_ops_agent.Json.{Number, Json, Fields}

pub record Incident : Type 0 where
  pub title : String
  pub severity : IncidentSeverity
  pub status : IncidentStatus
  pub fingerprint : String
  pub cluster : String
  pub namespace : String
  pub resource_kind : String
  pub resource_name : String
  pub source : String
  pub summary : Option String
  pub resource_uid : Option String  -- the entry of `source_context` that the services read
  pub source_context : Fields  -- its other entries
  pub last_seen_at : ℕ
  pub resolved_at : Option ℕ
  pub occurrence_count : ℕ
  pub version : ℕ

pub record Task : Type 0 where
  pub incident_id : ℕ
  pub title : String
  pub description : Option String
  pub task_type : TaskType
  pub priority : Priority
  pub status : TaskStatus
  pub assignee : Option String
  pub created_by : String
  pub approval_required : Bool
  pub related_entity_type : Option String
  pub related_entity_id : Option ℕ

-- What `inspect_pod` of app/ops_agent/kubernetes_adapter.py reports of a Pod that it finds.
pub record PodReport : Type 0 where
  pub uid : String
  pub workload_kind : Option String
  pub workload_name : Option String
  pub phase : String
  pub ready : Bool
  pub is_abnormal : Bool
  pub reason : Option String

-- The dict of an inspection: `{}`, `{"exists": False}`, or a report with `"exists": True`.
pub data Inspection : Type 0 where
  not_inspected : Inspection
  absent : Inspection
  present : PodReport → Inspection

-- The dict in `Plan.target`.
pub record Target : Type 0 where
  pub namespace : String
  pub pod_name : String
  pub pod_uid : String
  pub workload_kind : Option String
  pub workload_name : Option String

pub record DryRun : Type 0 where
  pub allowed : Bool
  pub reason : String
  pub inspection : Inspection

-- The dict of a verification. Its truth value under "healthy", and what else it says.
pub record Verification : Type 0 where
  pub healthy : Bool
  pub reason : Option String
  pub error : Option String
  pub error_type : Option String

-- What `delete_pod` returns: `{"deleted": True, "uid": …}`.
pub record Deletion : Type 0 where
  pub uid : String

pub record Plan : Type 0 where
  pub incident_id : ℕ
  pub action_type : String
  pub target : Target
  pub risk_level : RiskLevel
  pub status : PlanStatus
  pub dry_run_result : Option DryRun

pub record Execution : Type 0 where
  pub plan_id : ℕ
  pub status : ExecutionStatus
  pub idempotency_key : String
  pub requested_by : String
  pub approved_by : Option String
  pub approved_at : Option ℕ
  pub started_at : Option ℕ
  pub finished_at : Option ℕ
  pub result : Option Deletion
  pub error : Option String
  pub verification_result : Option Verification

-- The six limits of a run, in the order of `budget_spec`.
pub record Budget : Type 0 where
  pub max_steps : ℕ
  pub max_tool_calls : ℕ
  pub run_timeout_seconds : ℕ
  pub per_tool_timeout_seconds : ℕ
  pub max_model_calls : ℕ
  pub max_total_tokens : ℕ

-- `target_snapshot`
pub record TargetSnapshot : Type 0 where
  pub cluster : String
  pub namespace : String
  pub resource_kind : String
  pub resource_name : String
  pub resource_uid : Option String

-- The dict of a diagnosis: the evidence that it cites, who made it, and its other entries.
pub record Diagnosis : Type 0 where
  pub evidence_ids : List ℕ
  pub provider : Option String
  pub findings : Fields

pub record AgentRun : Type 0 where
  pub incident_id : ℕ
  pub mode : AgentRunMode
  pub status : AgentRunStatus
  pub idempotency_key : Option String
  pub diagnosis : Option Diagnosis
  pub goal : String
  pub autonomy_level : String
  pub target_snapshot : TargetSnapshot
  pub current_step : ℕ
  pub tool_calls_used : ℕ
  pub budget : Budget
  pub model_calls_used : ℕ
  pub input_tokens_used : ℕ
  pub output_tokens_used : ℕ
  pub deadline_at : Option ℕ
  pub stop_reason : Option String
  pub model_name : Option String
  pub prompt_version : String
  pub cancel_requested_at : Option ℕ
  pub lease_owner : Option String
  pub lease_expires_at : Option ℕ
  pub heartbeat_at : Option ℕ
  pub error : Option String
  pub started_at : Option ℕ
  pub finished_at : Option ℕ

-- The step's context and its hash are kept for readers only, so their version stands for them.
pub record AgentStep : Type 0 where
  pub agent_run_id : ℕ
  pub sequence : ℕ
  pub step_type : Option AgentStepType
  pub status : AgentStepStatus
  pub decision_provider : Option String
  pub decision_summary : Option String
  pub confidence : Option Number
  pub evidence_ids : List ℕ
  pub context_version : String
  pub error_code : Option String
  pub finished_at : Option ℕ

pub record ToolInvocation : Type 0 where
  pub agent_step_id : ℕ
  pub tool_name : String
  pub tool_version : String
  pub sanitized_arguments : Fields
  pub status : ToolInvocationStatus
  pub evidence_id : Option ℕ
  pub attempt_count : ℕ
  pub duration_ms : Option ℕ
  pub error_code : Option String
  pub started_at : Option ℕ
  pub finished_at : Option ℕ

pub record Evidence : Type 0 where
  pub incident_id : ℕ
  pub agent_run_id : ℕ
  pub evidence_type : EvidenceType
  pub source : String
  pub content : Fields
  pub content_hash : String
  pub redacted : Bool
  pub collected_at : ℕ

-- One entry of an audit event's payload.
pub data Value : Type 0 where
  text : String → Value
  ref : ℕ → Value
  number : ℕ → Value
  dry_run : DryRun → Value
  verification : Verification → Value
  deletion : Deletion → Value
  budget : Budget → Value
  json : Json → Value

pub record AuditEvent : Type 0 where
  pub entity_type : String
  pub entity_id : ℕ
  pub event_type : String
  pub actor_type : String
  pub actor_id : String
  pub payload : List (String × Value)

-- The payloads of the two topics are `{"run_id": …}` and `{"execution_id": …}`, the id of the
-- aggregate.
pub record OutboxEvent : Type 0 where
  pub topic : String
  pub aggregate_type : String
  pub aggregate_id : ℕ
  pub status : OutboxStatus
  pub attempts : ℕ
  pub available_at : ℕ
  pub published_at : Option ℕ
  pub last_error : Option String

pub record Db : Type 0 where
  pub incidents : Table Incident
  pub tasks : Table Task
  pub plans : Table Plan
  pub executions : Table Execution
  pub agent_runs : Table AgentRun
  pub agent_steps : Table AgentStep
  pub tool_invocations : Table ToolInvocation
  pub evidence : Table Evidence
  pub audits : List AuditEvent
  pub outbox : Table OutboxEvent
