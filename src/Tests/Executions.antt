-- ===== src/Tests/Executions.antt =====
-- The execution of `Data`, where the cluster answers and where it does not.
use k8s_ops_agent.Base.{◌≡◌, refl, inl, true, false, some, none, find, select, arith}
use k8s_ops_agent.Domain.{IncidentStatus, PlanStatus, ExecutionStatus}
use k8s_ops_agent.Models.{Execution, Db}
use k8s_ops_agent.Adapters.{returned}
use k8s_ops_agent.Session.{
  Error, Result, ok, err, is_err, get_plan, add_execution, add_audit, add_outbox,
}
use k8s_ops_agent.Session.Evolution.{Evolves, Evolves-refl}
use k8s_ops_agent.Session.Retention.{Retains, Retains-refl}
use k8s_ops_agent.Executions.Retention.{IsRetaining}
use k8s_ops_agent.Executions.Creation.{
  Created, create_execution, existing_execution, insert_execution, create_tx,
}
use k8s_ops_agent.Executions.Processing.{process_execution}
use k8s_ops_agent.Executions.Job.{process_execution_job}
use k8s_ops_agent.Executions.Idempotency.{create_execution_once}
use k8s_ops_agent.Executions.Evolution.{IsOrderly, process_execution_job-Evolves}
use k8s_ops_agent.Executions.Safety.{Untouched, delete_needs_approval}
use k8s_ops_agent.Executions.Repair.{quiet, in_states}
use k8s_ops_agent.Executions.Outcomes.{Ended, process_execution_outcome}
use k8s_ops_agent.Executions.Settling.{Settled}
use k8s_ops_agent.Executions.Outcome.{process_execution_job_settles}
use k8s_ops_agent.Executions.Redelivery.{redelivered_job}
use k8s_ops_agent.Tests.Data.{
  incident_in, plan_in, execution_in, approved, prepared, running, repaired, deletion, recovered,
  unreachable, healthy_cluster, new_execution,
}

abbrev first_call : Result Created × Db
first_call = create_execution (λ d. d) (new_execution 4) 2 "key" "alice" true approved

create_execution_once_example :
    (create_execution (λ d. d) (new_execution 5) 2 "key" "bob" false first_call.1 ≡ (
      ok ((4, record (execution_in ExecutionStatus.prepared) { approved_at = some 150 }), false),
      first_call.1,
    ))
    × (create_execution (λ d. d) (new_execution 5) 7 "key" "bob" false first_call.1
        ≡ (err (Error.validation_error "Idempotency-Key belongs to another plan"), first_call.1))
unfolding find select create_execution existing_execution insert_execution create_tx get_plan
    add_execution add_audit add_outbox
create_execution_once_example =
    create_execution_once 2 "key" (λ d. d) (λ d. d) (new_execution 4) (new_execution 5) "alice"
      "bob" true false approved first_call.1
      (4, record (execution_in ExecutionStatus.prepared) { approved_at = some 150 }) true 7 refl
      (omega arith)

delete_needs_approval_example : Untouched healthy_cluster unreachable 4 running
unfolding find
delete_needs_approval_example =
    delete_needs_approval healthy_cluster unreachable 4 running
      (execution_in ExecutionStatus.running) (plan_in PlanStatus.executable)
      (incident_in IncidentStatus.remediating) refl refl refl (inl (ground arith))

unreachable-IsOrderly : IsOrderly unreachable
unreachable-IsOrderly = record {
  while_deleting = λ t d. Evolves-refl d;
  while_verifying = λ t d. Evolves-refl d;
}

unreachable-IsRetaining : IsRetaining unreachable
unreachable-IsRetaining = record {
  while_deleting = λ t d. Retains-refl d;
  while_verifying = λ t d. Retains-refl d;
}

process_execution_job-Evolves_example :
    Evolves prepared (process_execution_job unreachable 4 prepared).1
    × Retains prepared (process_execution_job unreachable 4 prepared).1
process_execution_job-Evolves_example =
    process_execution_job-Evolves unreachable unreachable-IsOrderly 4 prepared
      unreachable-IsRetaining

process_execution_job_settles_example : Settled 4 (process_execution_job unreachable 4 prepared).1
unfolding find
process_execution_job_settles_example =
    process_execution_job_settles unreachable 4 unreachable-IsOrderly prepared
      (execution_in ExecutionStatus.prepared) refl

process_execution_outcome_example :
    Ended 4 2 1
      (in_states ExecutionStatus.succeeded PlanStatus.executed IncidentStatus.resolved)
      (process_execution (quiet unreachable (returned deletion) (returned recovered)) 4 prepared)
unfolding find
process_execution_outcome_example =
    process_execution_outcome 4 2 1 unreachable (returned deletion) (returned recovered) prepared
      (record {
        x = execution_in ExecutionStatus.prepared;
        p = plan_in PlanStatus.executable;
        i = incident_in IncidentStatus.awaiting_approval;
        has_x = refl;
        has_p = refl;
        has_i = refl;
        x_plan = refl;
        p_incident = refl;
        x_is = refl;
        p_is = refl;
        i_is = refl;
      })

redelivered_job_example :
    let (r, e) = process_execution_job healthy_cluster 4 repaired in
    (row : Execution) × (is_err r ≡ true)
    × (find 4 e.executions ≡ some row)
    × (row.status ≡ ExecutionStatus.verification_failed)
    × (row.verification_result ≡ none)
unfolding find
redelivered_job_example =
    redelivered_job healthy_cluster 4 repaired (execution_in ExecutionStatus.succeeded)
      (plan_in PlanStatus.executed) (incident_in IncidentStatus.resolved) refl refl refl
      (ground arith)
