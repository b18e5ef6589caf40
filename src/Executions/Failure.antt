-- ===== src/Executions/Failure.antt =====
-- `fail_execution` of app/ops_agent/services.py, with which a worker records its own failure.
use k8s_ops_agent.Base.{ℕ, String, Option, none, some, List, [], ◌∷◌, find, if◌then◌else◌}
use k8s_ops_agent.Domain.{
  TaskStatus, TaskType, ExecutionStatus, IncidentStatus, ExecutionStatus-discrete, contains,
}
use k8s_ops_agent.Models.{Task, Execution, Value}
use k8s_ops_agent.Session.{
  Error, ok, Tx, pure, ◌>>=◌, ◌>>◌, audit, add_task, get_execution, assign_execution,
  advance_execution,
}
use k8s_ops_agent.Session.{fail_incident_in}
use k8s_ops_agent.Executions.Processing.{execution_task}
use k8s_ops_agent.Tasks.{find_task, related_task}

-- The states in which the status is left as it is.
abbrev settled_states : List ExecutionStatus
settled_states =
    ExecutionStatus.failed ∷ ExecutionStatus.verification_failed ∷ ExecutionStatus.rolled_back ∷ []

-- The status that `fail_execution` gives to an execution, none where it leaves the old one.
abbrev pub failed_status : ExecutionStatus → Option ExecutionStatus
unfolding ExecutionStatus-discrete
failed_status s =
    if contains ExecutionStatus-discrete s (ExecutionStatus.succeeded ∷ [])
    then some ExecutionStatus.verification_failed
    else if contains ExecutionStatus-discrete s settled_states
    then none
    else some ExecutionStatus.failed

abbrev pub fail_status : ℕ → Option ExecutionStatus → (Execution → Execution) → Tx Execution
fail_status execution_id none f = assign_execution execution_id f
fail_status execution_id (some target) f = advance_execution execution_id target f

-- `plan = session.get(…)`, and the incident of the plan if there is one.
unfoldable pub incident_of : ℕ → Tx (Option ℕ)
incident_of plan_id d = elim (find plan_id d.plans) [
  | none ↦ ok (none, d)
  | some plan ↦ elim (find plan.incident_id d.incidents) [
    | none ↦ ok (none, d)
    | some incident ↦ ok (some plan.incident_id, d)
  ]
]

abbrev pub fail_incident : Option ℕ → Tx (Unit {0})
fail_incident none = pure tt
fail_incident (some k) =
    fail_incident_in (IncidentStatus.remediating ∷ IncidentStatus.verifying ∷ []) k

abbrev pub add_review : ℕ → ℕ → Option ℕ → Option (ℕ × Task) → Tx (Unit {0})
add_review task_id execution_id none open_task = pure tt
add_review task_id execution_id (some incident_id) (some open_task) = pure tt
add_review task_id execution_id (some incident_id) none = do
  add_task task_id (
      execution_task incident_id execution_id "人工确认异常执行结果" (some "Worker 异常退出，系统不会自动重试集群变更。")
        TaskType.verification "execution-worker")
  pure tt

-- The arguments are the id of a new task, the time, the execution and `safe_error_message(error)`.
unfoldable pub fail_execution : ℕ → ℕ → ℕ → String → Tx Execution
fail_execution task_id now execution_id error = do
  execution ← get_execution execution_id (Error.not_found_error "execution not found")
  failed ←
      fail_status execution_id (failed_status execution.status)
        (λ x. record x { error = some error; finished_at = some now })
  incident ← incident_of execution.plan_id
  fail_incident incident
  open_task ← find_task (
      related_task "Execution" execution_id
        (TaskStatus.todo ∷ TaskStatus.in_progress ∷ TaskStatus.blocked ∷ []))
  add_review task_id execution_id incident open_task
  audit "Execution" execution_id "execution.worker_failed" "AGENT" "execution-worker"
      (("error", Value.text error) ∷ [])
  pure failed
