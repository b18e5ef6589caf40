-- ===== src/Executions/Processing.antt =====
-- `process_execution` of app/ops_agent/services.py: three transactions with the calls of the cluster
-- between them. A call takes time, so it returns the database as other workers have left it.
use k8s_ops_agent.Base.{ℕ, String, false, Option, none, some, [], ◌∷◌, if◌then◌else◌}
use k8s_ops_agent.Domain.{
  TaskStatus, TaskType, Priority, PlanStatus, ExecutionStatus, IncidentStatus,
}
use k8s_ops_agent.Models.{Task, Target, Plan, Execution, Deletion, Verification, Value, Db}
use k8s_ops_agent.Session.{
  Error, Tx, Action, pure, ◌>>=◌, ◌>>◌, begin, then_do, audit, advance_incident, add_task, get_plan,
  advance_plan, get_execution, assign_execution, advance_execution, same,
}
use k8s_ops_agent.Adapters.{Call, returned, raised}

-- The cluster as `process_execution` meets it, the clock, the ids of the tasks that it may add, and
-- `safe_error_message`.
pub record Cluster : Type 0 where
  pub delete_pod : Target → Db → Call Deletion × Db
  pub verify_recovery : Target → Db → Call Verification × Db
  pub safe_error_message : String → String
  pub started : ℕ
  pub finished : ℕ
  pub resolved : ℕ
  pub task_id : ℕ

-- `plan = session.get(Plan, execution.plan_id)`
abbrev plan_of : Execution → Tx Plan
plan_of execution = get_plan execution.plan_id Error.attribute_error

-- The first transaction: nothing is asked of the cluster before it has committed.
unfoldable pub start_tx : ℕ → ℕ → Tx Target
start_tx now execution_id = do
  execution ← get_execution execution_id (Error.not_found_error "execution not found")
  plan ← plan_of execution
  advance_execution execution_id ExecutionStatus.running (λ x. record x { started_at = some now })
  advance_incident plan.incident_id IncidentStatus.remediating same
  audit "Execution" execution_id "execution.started" "AGENT" "execution-worker" []
  pure plan.target

abbrev pub execution_task : ℕ → ℕ → String → Option String → TaskType → String → Task
execution_task incident_id execution_id title description type creator = record {
  incident_id = incident_id;
  title = title;
  description = description;
  task_type = type;
  priority = Priority.critical;
  status = TaskStatus.todo;
  assignee = none;
  created_by = creator;
  approval_required = false;
  related_entity_type = some "Execution";
  related_entity_id = some execution_id;
}

-- The transaction after `delete_pod` has raised.
unfoldable pub failed_tx : Cluster → ℕ → String → Tx Execution
failed_tx cluster execution_id error = do
  execution ← get_execution execution_id Error.attribute_error
  plan ← plan_of execution
  execution ←
      advance_execution execution_id ExecutionStatus.failed
        (λ x. record x { error = some error; finished_at = some cluster.finished })
  advance_incident plan.incident_id IncidentStatus.failed same
  add_task cluster.task_id (
      execution_task plan.incident_id execution_id "修复执行失败，需要人工处理" (some error) TaskType.follow_up
        "execution-worker")
  audit "Execution" execution_id "execution.failed" "AGENT" "execution-worker"
      (("error", Value.text error) ∷ [])
  pure execution

-- The transaction after `delete_pod` has returned.
unfoldable pub succeeded_tx : Cluster → ℕ → Deletion → Tx Execution
succeeded_tx cluster execution_id deleted = do
  execution ← get_execution execution_id Error.attribute_error
  plan ← plan_of execution
  done ←
      advance_execution execution_id ExecutionStatus.succeeded
        (λ x. record x { result = some deleted; finished_at = some cluster.finished })
  advance_plan execution.plan_id PlanStatus.executed same
  advance_incident plan.incident_id IncidentStatus.verifying same
  audit "Execution" execution_id "execution.succeeded" "AGENT" "execution-worker"
      (("result", Value.deletion deleted) ∷ [])
  pure done

-- An exception of `verify_recovery` counts as an unhealthy result.
abbrev pub verdict_of : Cluster → Call Verification → Verification
verdict_of cluster (returned verification) = verification
verdict_of cluster (raised kind message) = record {
  healthy = false;
  reason = some "verification raised an exception";
  error = some (cluster.safe_error_message message);
  error_type = some kind;
}

-- The last transaction, where the workload is healthy.
unfoldable pub verified_tx : Cluster → ℕ → Verification → Tx Execution
verified_tx cluster execution_id verification = do
  execution ← get_execution execution_id Error.attribute_error
  plan ← plan_of execution
  execution ←
      assign_execution execution_id (λ x. record x { verification_result = some verification })
  advance_incident plan.incident_id IncidentStatus.resolved
      (λ i. record i { resolved_at = some cluster.resolved })
  audit "Execution" execution_id "execution.verified" "AGENT" "verification-worker"
      (("verification", Value.verification verification) ∷ [])
  pure execution

-- The last transaction, where it is not.
unfoldable pub unverified_tx : Cluster → ℕ → Verification → Tx Execution
unverified_tx cluster execution_id verification = do
  execution ← get_execution execution_id Error.attribute_error
  plan ← plan_of execution
  execution ←
      advance_execution execution_id ExecutionStatus.verification_failed
        (λ x. record x { verification_result = some verification })
  advance_incident plan.incident_id IncidentStatus.failed same
  add_task cluster.task_id (
      execution_task plan.incident_id execution_id "自动修复后验证失败，需要人工复核" none TaskType.verification
        "verification-worker")
  audit "Execution" execution_id "execution.verification_failed" "AGENT" "verification-worker"
      (("verification", Value.verification verification) ∷ [])
  pure execution

unfoldable pub finish_tx : Cluster → ℕ → Verification → Tx Execution
finish_tx cluster execution_id verification =
    if verification.healthy
    then verified_tx cluster execution_id verification
    else unverified_tx cluster execution_id verification

unfoldable pub verify : Cluster → ℕ → Target → Action Execution
verify cluster execution_id target d =
    let (answer, d') = cluster.verify_recovery target d in
    begin (finish_tx cluster execution_id (verdict_of cluster answer)) d'

unfoldable pub after_delete : Cluster → ℕ → Target → Call Deletion → Action Execution
unfolding verify
after_delete cluster execution_id target (raised kind message) =
    begin (failed_tx cluster execution_id (cluster.safe_error_message message))
after_delete cluster execution_id target (returned deleted) =
    then_do (begin (succeeded_tx cluster execution_id deleted))
      (λ _. verify cluster execution_id target)

unfoldable pub act : Cluster → ℕ → Target → Action Execution
unfolding after_delete
act cluster execution_id target d =
    let (answer, d') = cluster.delete_pod target d in
    after_delete cluster execution_id target answer d'

unfoldable pub process_execution : Cluster → ℕ → Action Execution
unfolding act
process_execution cluster execution_id =
    then_do (begin (start_tx cluster.started execution_id)) (act cluster execution_id)
