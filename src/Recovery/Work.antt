-- ===== src/Recovery/Work.antt =====
-- `recover_stuck_work_once` of app/ops_agent/recovery.py. It is one transaction, which selects the
-- work that has run for too long and ends it, without `validate_transition`.
use k8s_ops_agent.Base.{
  ℕ, ◌+◌, String, Bool, false, not, ◌&&◌, Option, none, some, List, [], ◌∷◌, leb, Table, update,
  if◌then◌else◌,
}
use k8s_ops_agent.Domain.{
  TaskStatus, TaskType, Priority, IncidentStatus, ExecutionStatus, AgentRunStatus,
  AgentRunStatus-discrete, ExecutionStatus-discrete, contains,
}
use k8s_ops_agent.Models.{Task, Execution, AgentRun, Value, Db}
use k8s_ops_agent.Session.{
  Error, ok, Tx, Action, pure, ◌>>=◌, ◌>>◌, begin, audit, add_task, get_incident, get_agent_run,
  get_execution, fail_incident_in,
}
use k8s_ops_agent.Executions.Failure.{incident_of, fail_incident}

-- The arguments of a call, the rows that another transaction has locked (they are skipped), and the
-- ids of the tasks that may be added.
pub record Recovery : Type 0 where
  pub now : ℕ
  pub agent_timeout_seconds : ℕ
  pub execution_timeout_seconds : ℕ
  pub locked_run : ℕ → Bool
  pub locked_execution : ℕ → Bool
  pub run_task_id : ℕ → ℕ
  pub execution_task_id : ℕ → ℕ

-- `started_at is not None and started_at <= now - timeout`
abbrev pub is_overdue : ℕ → ℕ → Option ℕ → Bool
is_overdue now timeout none = false
is_overdue now timeout (some started) = leb (started + timeout) now

abbrev pub working_states : List AgentRunStatus
working_states = AgentRunStatus.running ∷ AgentRunStatus.collecting ∷ AgentRunStatus.diagnosing ∷ []

-- The two queries.
unfoldable pub is_stuck_run : Recovery → ℕ → AgentRun → Bool
unfolding AgentRunStatus-discrete
is_stuck_run c k run =
    contains AgentRunStatus-discrete run.status working_states
    && is_overdue c.now c.agent_timeout_seconds run.started_at
    && not (c.locked_run k)

unfoldable pub is_stuck_execution : Recovery → ℕ → Execution → Bool
unfolding ExecutionStatus-discrete
is_stuck_execution c k execution =
    contains ExecutionStatus-discrete execution.status (ExecutionStatus.running ∷ [])
    && is_overdue c.now c.execution_timeout_seconds execution.started_at
    && not (c.locked_execution k)

-- The keys of the rows that a query selects.
unfoldable pub keys_where : {R : Type 0} → (ℕ → R → Bool) → Table R → List ℕ
keys_where p [] = []
keys_where p ((k, row) ∷ t) = let rest = keys_where p t in if p k row then k ∷ rest else rest

unfoldable pub is_agent_core : AgentRun → Bool
unfolding AgentRunStatus-discrete
is_agent_core run = contains AgentRunStatus-discrete run.status (AgentRunStatus.running ∷ [])

unfoldable pub expired_run : Recovery → AgentRun → AgentRun
expired_run c run = record run {
  status = if is_agent_core run then AgentRunStatus.stopped else AgentRunStatus.failed;
  stop_reason = some (if is_agent_core run then "WORKER_INTERRUPTED" else "RUN_TIMEOUT");
  error = some "agent worker lease or configured timeout expired";
  finished_at = some c.now;
  lease_owner = none;
  lease_expires_at = none;
}

unfoldable pub expired_execution : Recovery → Execution → Execution
expired_execution c execution = record execution {
  status = ExecutionStatus.failed;
  error = some "execution exceeded configured timeout";
  finished_at = some c.now;
}

-- An assignment to a row that is not checked.
unfoldable pub set_agent_run : ℕ → AgentRun → Tx (Unit {0})
set_agent_run k run d = ok (tt, record d { agent_runs = update k run d.agent_runs })

unfoldable pub set_execution : ℕ → Execution → Tx (Unit {0})
set_execution k execution d = ok (tt, record d { executions = update k execution d.executions })

abbrev recovery_task : ℕ → ℕ → String → String → String → TaskType → Priority → Task
recovery_task incident_id entity_id entity title description type priority = record {
  incident_id = incident_id;
  title = title;
  description = some description;
  task_type = type;
  priority = priority;
  status = TaskStatus.todo;
  assignee = none;
  created_by = "timeout-recovery";
  approval_required = false;
  related_entity_type = some entity;
  related_entity_id = some entity_id;
}

-- The task for a human, which needs the incident (`incident.id`).
abbrev pub ask_after_run : Recovery → ℕ → ℕ → Tx (Unit {0})
ask_after_run c k incident_id = do
  get_incident incident_id Error.attribute_error
  add_task (c.run_task_id k) (
      recovery_task incident_id k "AgentRun" "Agent 中断后需要人工确认" "只读调查 Worker 中断，系统未自动重放不确定步骤。"
        TaskType.manual_check Priority.high)
  pure tt

abbrev pub ask_after_execution : Recovery → ℕ → Option ℕ → Tx (Unit {0})
ask_after_execution c k none = pure tt
ask_after_execution c k (some incident_id) = do
  add_task (c.execution_task_id k) (
      recovery_task incident_id k "Execution" "人工确认超时执行结果" "执行已超时，系统不会自动重试。请确认集群实际状态。"
        TaskType.verification Priority.critical)
  pure tt

-- What an ended run leaves for the humans.
unfoldable pub report_run : Recovery → ℕ → AgentRun → Tx (Unit {0})
report_run c k run = do
  audit "AgentRun" k "agent_run.timed_out" "SYSTEM" "timeout-recovery"
      (("timeout_seconds", Value.number c.agent_timeout_seconds) ∷ [])
  if is_agent_core run then ask_after_run c k run.incident_id else pure tt

-- The bodies of the two loops.
unfoldable pub expire_run : Recovery → ℕ → Tx (Unit {0})
expire_run c k = do
  run ← get_agent_run k Error.attribute_error
  set_agent_run k (expired_run c run)
  fail_incident_in (IncidentStatus.diagnosing ∷ []) run.incident_id
  report_run c k run

unfoldable pub expire_execution : Recovery → ℕ → Tx (Unit {0})
expire_execution c k = do
  execution ← get_execution k Error.attribute_error
  set_execution k (expired_execution c execution)
  incident ← incident_of execution.plan_id
  fail_incident incident
  ask_after_execution c k incident
  audit "Execution" k "execution.timed_out" "SYSTEM" "timeout-recovery"
      (("timeout_seconds", Value.number c.execution_timeout_seconds) ∷ [])

-- A `for` loop, which counts its rounds.
unfoldable pub for_each : (ℕ → Tx (Unit {0})) → List ℕ → Tx ℕ
for_each step [] = pure 0
for_each step (k ∷ ks) = do step k; n ← for_each step ks; pure (n + 1)

abbrev pub query : {A : Type 0} → (Db → A) → Tx A
query f d = ok (f d, d)

-- The numbers of runs and of executions that have been ended.
unfoldable pub recover_tx : Recovery → Tx (ℕ × ℕ)
recover_tx c = do
  runs ← query (λ d. keys_where (is_stuck_run c) d.agent_runs)
  agent_runs_failed ← for_each (expire_run c) runs
  executions ← query (λ d. keys_where (is_stuck_execution c) d.executions)
  executions_failed ← for_each (expire_execution c) executions
  pure (agent_runs_failed, executions_failed)

unfoldable pub recover_stuck_work_once : Recovery → Action (ℕ × ℕ)
unfolding recover_tx
recover_stuck_work_once c = begin (recover_tx c)
