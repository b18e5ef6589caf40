-- ===== src/Tests/Data.antt =====
-- An incident with its plan, its approval task and its execution, as the tests use them.
use k8s_ops_agent.Base.{ℕ, true, false, none, some, List, [], ◌∷◌}
use k8s_ops_agent.Domain.{
  IncidentSeverity, IncidentStatus, TaskStatus, TaskType, Priority, PlanStatus, RiskLevel,
  ExecutionStatus, AgentRunMode, AgentRunStatus, OutboxStatus,
}
use k8s_ops_agent.Json.{Fields}
use k8s_ops_agent.Models.{
  Incident, Task, PodReport, Inspection, Target, Verification, Deletion, Plan, Execution, AgentRun,
  OutboxEvent, Db,
}
use k8s_ops_agent.Adapters.{returned, raised, Inspect}
use k8s_ops_agent.Executions.Processing.{Cluster}
use k8s_ops_agent.Executions.Creation.{NewExecution}
use k8s_ops_agent.Outbox.Dispatch.{Dispatcher}
use k8s_ops_agent.Outbox.Queue.{Outage}

abbrev pub pod : Target
pod = record {
  namespace = "demo";
  pod_name = "web-0";
  pod_uid = "uid-1";
  workload_kind = none;
  workload_name = none;
}

abbrev pub crashing : PodReport
crashing = record {
  uid = "uid-1";
  workload_kind = some "Deployment";
  workload_name = some "web";
  phase = "Running";
  ready = false;
  is_abnormal = true;
  reason = some "CrashLoopBackOff";
}

abbrev pub inspect_pod : Inspect
inspect_pod namespace pod_name = returned (Inspection.present crashing)

abbrev pub no_pod : Inspect
no_pod namespace pod_name = returned Inspection.absent

abbrev pub incident_in : IncidentStatus → Incident
incident_in status = record {
  title = "Pod keeps crashing";
  severity = IncidentSeverity.critical;
  status = status;
  fingerprint = "web-0";
  cluster = "local";
  namespace = "demo";
  resource_kind = "Pod";
  resource_name = "web-0";
  source = "USER";
  summary = none;
  resource_uid = some "uid-1";
  source_context = Fields.end;
  last_seen_at = 100;
  resolved_at = none;
  occurrence_count = 1;
  version = 1;
}

abbrev pub plan_in : PlanStatus → Plan
plan_in status = record {
  incident_id = 1;
  action_type = "RESTART_CONTROLLER_MANAGED_POD";
  target = pod;
  risk_level = RiskLevel.low;
  status = status;
  dry_run_result = none;
}

abbrev pub approval_in : TaskStatus → Task
approval_in status = record {
  incident_id = 1;
  title = "approve";
  description = none;
  task_type = TaskType.approval;
  priority = Priority.high;
  status = status;
  assignee = none;
  created_by = "policy-engine";
  approval_required = true;
  related_entity_type = some "Plan";
  related_entity_id = some 2;
}

abbrev pub execution_in : ExecutionStatus → Execution
execution_in status = record {
  plan_id = 2;
  status = status;
  idempotency_key = "key";
  requested_by = "alice";
  approved_by = some "alice";
  approved_at = some 100;
  started_at = none;
  finished_at = none;
  result = none;
  error = none;
  verification_result = none;
}

abbrev pub db_in : IncidentStatus → PlanStatus → List (ℕ × Execution) → Db
db_in incident plan executions = record {
  incidents = (1, incident_in incident) ∷ [];
  tasks = (3, approval_in TaskStatus.todo) ∷ [];
  plans = (2, plan_in plan) ∷ [];
  executions = executions;
  agent_runs = [];
  agent_steps = [];
  tool_invocations = [];
  evidence = [];
  audits = [];
  outbox = [];
}

abbrev pub drafted : Db
drafted = db_in IncidentStatus.plan_ready PlanStatus.draft []

abbrev pub waiting_for_approval : Db
waiting_for_approval = db_in IncidentStatus.awaiting_approval PlanStatus.awaiting_approval []

abbrev pub approved : Db
approved = db_in IncidentStatus.awaiting_approval PlanStatus.executable []

abbrev pub prepared : Db
prepared =
    db_in IncidentStatus.awaiting_approval PlanStatus.executable
      ((4, execution_in ExecutionStatus.prepared) ∷ [])

abbrev pub running : Db
running =
    db_in IncidentStatus.remediating PlanStatus.executable
      ((4, execution_in ExecutionStatus.running) ∷ [])

abbrev pub repaired : Db
repaired =
    db_in IncidentStatus.resolved PlanStatus.executed
      ((4, execution_in ExecutionStatus.succeeded) ∷ [])

abbrev pub deletion : Deletion
deletion = record { uid = "uid-1" }

abbrev pub recovered : Verification
recovered = record { healthy = true; reason = none; error = none; error_type = none }

-- A cluster whose API server does not answer.
abbrev pub unreachable : Cluster
unreachable = record {
  delete_pod = λ t d. (raised "ApiException" "timeout", d);
  verify_recovery = λ t d. (raised "ApiException" "timeout", d);
  safe_error_message = λ s. s;
  started = 200;
  finished = 201;
  resolved = 202;
  task_id = 9;
}

abbrev pub healthy_cluster : Cluster
healthy_cluster = record unreachable {
  delete_pod = λ t d. (returned deletion, d);
  verify_recovery = λ t d. (returned recovered, d);
}

abbrev pub new_execution : ℕ → NewExecution
new_execution k = record { execution_id = k; event_id = k; now = 150 }

abbrev pub event : OutboxEvent
event = record {
  topic = "execution.requested";
  aggregate_type = "Execution";
  aggregate_id = 4;
  status = OutboxStatus.pending;
  attempts = 0;
  available_at = 100;
  published_at = none;
  last_error = none;
}

abbrev pub dispatcher : ℕ → Outage → Dispatcher
dispatcher now outage = record {
  now = now;
  batch_size = 100;
  locked = λ k. false;
  outage = λ k. outage;
  clean = λ s. s;
}

-- A run of the agent core.
abbrev pub a_run : AgentRun
a_run = record {
  incident_id = 1;
  mode = AgentRunMode.diagnose_only;
  status = AgentRunStatus.running;
  idempotency_key = none;
  diagnosis = none;
  autonomy_level = "L2";
  current_step = 0;
  tool_calls_used = 0;
  model_calls_used = 0;
  input_tokens_used = 0;
  output_tokens_used = 0;
  deadline_at = none;
  prompt_version = "agent-context-v1";
  heartbeat_at = none;
  goal = "find the cause";
  target_snapshot = record {
    cluster = "local";
    namespace = "demo";
    resource_kind = "Pod";
    resource_name = "web-0";
    resource_uid = none;
  };
  budget = record {
    max_steps = 8;
    max_tool_calls = 6;
    run_timeout_seconds = 120;
    per_tool_timeout_seconds = 15;
    max_model_calls = 4;
    max_total_tokens = 20000;
  };
  stop_reason = none;
  model_name = none;
  cancel_requested_at = none;
  lease_owner = some "worker";
  lease_expires_at = none;
  error = none;
  started_at = some 200;
  finished_at = none;
}
