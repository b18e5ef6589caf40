-- ===== src/Tests/Recovery.antt =====
-- Recovery and automatic remediation for the Pod of `Data`.
use k8s_ops_agent.Base.{
  ℕ, ◌≡◌, refl, false, some, [], ◌∷◌, find, strip, select, update, insert, arith,
}
use k8s_ops_agent.Domain.{
  TaskStatus-discrete, TaskType-discrete, IncidentStatus-discrete, PlanStatus-discrete,
  incident_transitions, plan_transitions, task_transitions, IncidentStatus, PlanStatus,
  ExecutionStatus, validate_transition,
}
use k8s_ops_agent.Models.{Incident, Execution, Db}
use k8s_ops_agent.Session.{
  ok, get_incident, add_plan, advance_incident, add_audit, get_plan, add_execution, add_outbox,
  add_task, advance_plan, advance_task, assign_plan, get_task,
}
use k8s_ops_agent.Tasks.{find_task, finish_task, has_type, related_task}
use k8s_ops_agent.Plans.Requests.{create_plan, require_target}
use k8s_ops_agent.Plans.DryRun.{dry_run_plan, dry_run_tx, judge, denial, pass_plan}
use k8s_ops_agent.Plans.Review.{approve_plan}
use k8s_ops_agent.Executions.Creation.{
  create_execution, create_tx, existing_execution, insert_execution,
}
use k8s_ops_agent.Recovery.Work.{
  Recovery, is_stuck_run, is_stuck_execution, keys_where, recover_stuck_work_once,
}
use k8s_ops_agent.Recovery.Loop.{Cleared}
use k8s_ops_agent.Recovery.Expiry.{HaveIncidents}
use k8s_ops_agent.Recovery.Cleared.{recover_clears}
use k8s_ops_agent.Remediation.Attempt.{
  Remediation, attempt_auto_remediation, consider, is_candidate, after_sight, remediate, try_plan,
  approve_and_execute, run_created,
}
use k8s_ops_agent.Remediation.Policy.{Justified, auto_remediation_sound}
use k8s_ops_agent.Tests.Data.{a_run, db_in, execution_in, inspect_pod, unreachable, new_execution}

abbrev recovery : Recovery
recovery = record {
  now = 1000;
  agent_timeout_seconds = 300;
  execution_timeout_seconds = 300;
  locked_run = λ k. false;
  locked_execution = λ k. false;
  run_task_id = λ k. k;
  execution_task_id = λ k. k;
}

abbrev overdue : Execution
overdue = record (execution_in ExecutionStatus.running) { started_at = some 100 }

abbrev stuck : Db
stuck = record (db_in IncidentStatus.remediating PlanStatus.executable ((4, overdue) ∷ [])) {
  agent_runs = (6, a_run) ∷ [];
}

stuck-HaveIncidents : HaveIncidents stuck
unfolding find
stuck-HaveIncidents k run h = ground (arith, h)

recover_clears_example :
    let (r, e) = recover_stuck_work_once recovery stuck in
    (r ≡ ok (1, 1))
    × ((k : ℕ) → Cleared (is_stuck_run recovery) e.agent_runs k)
    × ((k : ℕ) → Cleared (is_stuck_execution recovery) e.executions k)
unfolding keys_where is_stuck_run is_stuck_execution
recover_clears_example = recover_clears recovery stuck stuck-HaveIncidents

abbrev remediation : Remediation
remediation = record {
  plan_id = 2;
  approval_task_id = 3;
  new = new_execution 4;
  first_sight = inspect_pod;
  second_sight = inspect_pod;
  allowed_namespaces = "demo" ∷ [];
  is_inline = false;
  id_text = λ k. "1";
  others = λ d. d;
  cluster = unreachable;
}

abbrev diagnosed : Db
diagnosed = record (db_in IncidentStatus.diagnosed PlanStatus.draft []) { plans = []; tasks = [] }

abbrev started : ℕ × Execution
started = (
  4,
  record (execution_in ExecutionStatus.prepared) {
    idempotency_key = "auto:1:uid-1";
    requested_by = "policy-engine";
    approved_by = some "policy-engine";
    approved_at = some 150;
  },
)

diagnosed_is_remediated : (attempt_auto_remediation remediation 1 diagnosed).0 ≡ ok (some started)
unfolding attempt_auto_remediation consider is_candidate after_sight remediate try_plan
    approve_and_execute run_created find insert select update strip validate_transition
    incident_transitions plan_transitions task_transitions create_plan require_target dry_run_plan
    dry_run_tx judge denial pass_plan approve_plan create_execution create_tx existing_execution
    insert_execution find_task finish_task has_type related_task get_incident add_plan
    advance_incident add_audit get_plan add_execution add_outbox add_task advance_plan advance_task
    assign_plan get_task TaskStatus-discrete TaskType-discrete IncidentStatus-discrete
    PlanStatus-discrete
diagnosed_is_remediated = refl

auto_remediation_sound_example :
    (i : Incident) × (find 1 diagnosed.incidents ≡ some i)
    × (i.status ≡ IncidentStatus.diagnosed)
    × (i.resource_kind ≡ "Pod")
    × Justified remediation 1 i started
unfolding find
auto_remediation_sound_example =
    auto_remediation_sound remediation 1 diagnosed started refl diagnosed_is_remediated
