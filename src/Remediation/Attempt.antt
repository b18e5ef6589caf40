-- ===== src/Remediation/Attempt.antt =====
-- `attempt_auto_remediation` of app/ops_agent/auto_remediation.py: an incident that is diagnosed is
-- taken through a plan, its dry run, its approval and its execution without a human.
use Prim.Native.String.{◌++◌}
use k8s_ops_agent.Base.{
  ℕ, String, Bool, true, false, not, ◌&&◌, Option, none, some, List, [], ◌∷◌, is_in, ◌is◌, Field,
  if◌then◌else◌,
}
use k8s_ops_agent.Domain.{IncidentStatus, IncidentStatus-discrete, contains}
use k8s_ops_agent.Models.{Incident, PodReport, Inspection, Plan, Execution, Db}
use k8s_ops_agent.Adapters.{Call, returned, raised, Inspect}
use k8s_ops_agent.Session.{Error, ok, err, Action, begin, then_do, get_incident}
use k8s_ops_agent.Plans.Requests.{PlanRequest, restart_pod, create_plan}
use k8s_ops_agent.Plans.DryRun.{is_controller, dry_run_plan}
use k8s_ops_agent.Plans.Review.{approve_plan}
use k8s_ops_agent.Executions.Creation.{NewExecution, Created, create_execution}
use k8s_ops_agent.Executions.Processing.{Cluster, process_execution}

-- The ids that the call draws, what it and its dry run see of the cluster, the settings, the text of
-- an id, and what the parts of `create_execution` and `process_execution` are given.
pub record Remediation : Type 0 where
  pub plan_id : ℕ
  pub approval_task_id : ℕ
  pub new : NewExecution
  pub first_sight : Inspect
  pub second_sight : Inspect
  pub allowed_namespaces : List String
  pub is_inline : Bool
  pub id_text : ℕ → String
  pub others : Db → Db
  pub cluster : Cluster

abbrev pub Remedy : Type 0
Remedy = Option (ℕ × Execution)

-- The first `if`, and the second: neither writes anything.
unfoldable pub is_candidate : Remediation → Incident → Bool
unfolding IncidentStatus-discrete
is_candidate c incident =
    contains IncidentStatus-discrete incident.status (IncidentStatus.diagnosed ∷ [])
    && incident.resource_kind is "Pod"
    && is_in incident.namespace c.allowed_namespaces

abbrev pub can_be_restarted : Inspection → Option PodReport
can_be_restarted (Inspection.present report) =
    if report.is_abnormal && is_controller report.workload_kind then some report else none
can_be_restarted _ = none

abbrev pub plan_request : Incident → PodReport → PlanRequest
plan_request incident report = record {
  action_type = Field.given restart_pod;
  target = some (record {
    namespace = some incident.namespace;
    pod_name = some incident.resource_name;
    pod_uid = some report.uid;
  });
}

abbrev pub remediation_key : Remediation → ℕ → PodReport → String
remediation_key c incident_id report = "auto:" ++ c.id_text incident_id ++ ":" ++ report.uid

-- An execution that is new is processed here, if the mode is inline.
unfoldable pub run_created : Remediation → Created → Action Remedy
run_created c (execution, false) d = (ok (some execution), d)
run_created c ((execution_id, execution), true) d =
    if c.is_inline
    then then_do (process_execution c.cluster execution_id)
        (λ done e. (ok (some (execution_id, done)), e)) d
    else (ok (some (execution_id, execution)), d)

-- The calls after the plan has been let through.
unfoldable pub approve_and_execute : Remediation → String → Plan → Action Remedy
approve_and_execute c key plan =
    then_do (begin (approve_plan c.plan_id "policy-engine" (some "低风险自动修复策略批准"))) (λ _.
      then_do (create_execution c.others c.new c.plan_id key "policy-engine" (not c.is_inline))
        (run_created c))

unfoldable pub try_plan : Remediation → String → Plan → Action Remedy
try_plan c key plan =
    then_do (dry_run_plan c.approval_task_id c.plan_id c.second_sight c.allowed_namespaces)
      (approve_and_execute c key)

unfoldable pub remediate : Remediation → ℕ → Incident → PodReport → Action Remedy
remediate c incident_id incident report =
    then_do (begin (create_plan c.plan_id incident_id (plan_request incident report)))
      (try_plan c (remediation_key c incident_id report))

unfoldable pub after_sight : Remediation → ℕ → Incident → Call Inspection → Action Remedy
after_sight c incident_id incident (raised kind message) d = (err (Error.external kind message), d)
after_sight c incident_id incident (returned inspection) d = elim (can_be_restarted inspection) [
  | none ↦ (ok none, d)
  | some report ↦ remediate c incident_id incident report d
]

unfoldable pub consider : Remediation → ℕ → Incident → Action Remedy
consider c incident_id incident d =
    if is_candidate c incident
    then after_sight c incident_id incident
        (c.first_sight incident.namespace incident.resource_name) d
    else (ok none, d)

unfoldable pub attempt_auto_remediation : Remediation → ℕ → Action Remedy
attempt_auto_remediation c incident_id =
    then_do (begin (get_incident incident_id (Error.not_found_error "incident not found")))
      (consider c incident_id)
