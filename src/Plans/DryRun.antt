-- ===== src/Plans/DryRun.antt =====
-- `dry_run_plan` of app/ops_agent/services.py: the policy that a Pod restart must pass. The sight of
-- the cluster (`kubernetes_adapter.inspect_pod`) and the allowed namespaces are arguments.
use Prim.Native.String.{◌++◌}
use k8s_ops_agent.Base.{
  ℕ, String, Bool, true, false, not, ◌||◌, Option, none, some, List, [], ◌∷◌, ◌is◌, is_in,
  if◌then◌else◌,
}
use k8s_ops_agent.Domain.{
  TaskStatus, TaskType, Priority, PlanStatus, IncidentStatus, PlanStatus-discrete, contains,
}
use k8s_ops_agent.Models.{Inspection, Target, DryRun, Plan, Value}
use k8s_ops_agent.Session.{
  Error, ok, err, Tx, Action, pure, ◌>>=◌, ◌>>◌, begin, then_do, raise_if, audit, advance_incident,
  add_task, get_plan, assign_plan, advance_plan, same,
}
use k8s_ops_agent.Adapters.{lift, Inspect}

abbrev pub system_namespaces : List String
system_namespaces = "kube-system" ∷ "kube-public" ∷ "kube-node-lease" ∷ []

abbrev pub namespace_denied : List String → String → Bool
namespace_denied allowed namespace =
    not (is_in namespace allowed) || is_in namespace system_namespaces

-- `inspection.get("workload_kind") in {"Deployment", "StatefulSet"}`
abbrev pub is_controller : Option String → Bool
is_controller none = false
is_controller (some kind) = is_in kind ("Deployment" ∷ "StatefulSet" ∷ [])

-- The reason why a Pod may not be restarted, if there is one.
unfoldable pub denial : Inspection → Target → Option String
denial Inspection.not_inspected target = some "target Pod does not exist"
denial Inspection.absent target = some "target Pod does not exist"
denial (Inspection.present report) target =
    if not (report.uid is target.pod_uid)
    then some "target Pod UID changed"
    else if not (is_controller report.workload_kind)
    then some "Pod is not managed by an allowed controller"
    else if not report.is_abnormal
    then some "healthy Pod cannot be restarted"
    else none

unfoldable pub judge : List String → Inspect → Target → Tx (Option String × Inspection)
unfolding denial
judge allowed inspect target =
    if namespace_denied allowed target.namespace
    then pure (some "namespace is not allowed", Inspection.not_inspected)
    else do
      inspection ← lift (inspect target.namespace target.pod_name)
      pure (denial inspection target, inspection)

abbrev pub workload_of : Inspection → Target → Target
workload_of (Inspection.present report) target = record target {
  workload_kind = report.workload_kind;
  workload_name = report.workload_name;
}
workload_of _ target = target

-- The branch in which a reason was found.
unfoldable pub deny_plan : ℕ → ℕ → String → Inspection → Tx (Plan × Option String)
deny_plan plan_id incident_id reason inspection = do
  let result : DryRun = record { allowed = false; reason = reason; inspection = inspection }
  assign_plan plan_id (λ p. record p { dry_run_result = some result })
  audit "Plan" plan_id "plan.policy_denied" "USER" "anonymous"
      (("dry_run_result", Value.dry_run result) ∷ [])
  plan ← advance_plan plan_id PlanStatus.cancelled same
  advance_incident incident_id IncidentStatus.diagnosed same
  pure (plan, some reason)

-- The branch in which the plan may go on to its approval.
unfoldable pub pass_plan : ℕ → ℕ → ℕ → Inspection → Tx (Plan × Option String)
pass_plan task_id plan_id incident_id inspection = do
  let result : DryRun = record {
    allowed = true;
    reason = "controller-managed abnormal Pod";
    inspection = inspection;
  }
  assign_plan plan_id
      (λ p. record p { dry_run_result = some result; target = workload_of inspection p.target })
  advance_plan plan_id PlanStatus.dry_run_ready same
  plan ← advance_plan plan_id PlanStatus.awaiting_approval same
  advance_incident incident_id IncidentStatus.awaiting_approval same
  add_task task_id (record {
    incident_id = incident_id;
    title = "审批重建 Pod " ++ plan.target.namespace ++ "/" ++ plan.target.pod_name;
    description = some "dry-run 已通过，等待值班人员确认执行";
    task_type = TaskType.approval;
    priority = Priority.high;
    status = TaskStatus.todo;
    assignee = none;
    created_by = "policy-engine";
    approval_required = true;
    related_entity_type = some "Plan";
    related_entity_id = some plan_id;
  })
  audit "Plan" plan_id "plan.dry_run_completed" "AGENT" "policy-engine"
      (("dry_run_result", Value.dry_run result) ∷ [])
  pure (plan, none)

abbrev pub settle_dry_run : ℕ → ℕ → ℕ → Option String × Inspection → Tx (Plan × Option String)
settle_dry_run task_id plan_id incident_id (none, inspection) =
    pass_plan task_id plan_id incident_id inspection
settle_dry_run task_id plan_id incident_id (some reason, inspection) =
    deny_plan plan_id incident_id reason inspection

-- The transaction of `dry_run_plan`, with the reason that is raised behind it.
unfoldable pub dry_run_tx : ℕ → ℕ → Inspect → List String → Tx (Plan × Option String)
unfolding PlanStatus-discrete
dry_run_tx task_id plan_id inspect allowed = do
  plan ← get_plan plan_id (Error.not_found_error "plan not found")
  raise_if (not (contains PlanStatus-discrete plan.status (PlanStatus.draft ∷ [])))
      (Error.invalid_state_transition "plan must be DRAFT for dry-run")
  verdict ← judge allowed inspect plan.target
  settle_dry_run task_id plan_id plan.incident_id verdict

-- `if denial_reason: raise PolicyDeniedError(denial_reason)`, behind the commit.
abbrev pub raise_denial : Plan × Option String → Action Plan
raise_denial (plan, none) d = (ok plan, d)
raise_denial (plan, some reason) d = (err (Error.policy_denied_error reason), d)

unfoldable pub dry_run_plan : ℕ → ℕ → Inspect → List String → Action Plan
dry_run_plan task_id plan_id inspect allowed =
    then_do (begin (dry_run_tx task_id plan_id inspect allowed)) raise_denial
