-- ===== src/AgentCore/Finish.antt =====
-- `_finish` and `request_cancel` of app/ops_agent/agent_core.py. The metrics are left out.
use Prim.Native.String.{◌++◌}
use k8s_ops_agent.Base.{
  ℕ, String, Bool, false, Option, none, some, [], ◌∷◌, ◌==◌, ◌&&◌, if◌then◌else◌,
}
use k8s_ops_agent.Domain.{
  IncidentStatus, TaskStatus, TaskType, Priority, AgentRunStatus, agent_run_value,
}
use k8s_ops_agent.Json.{str, field, end}
use k8s_ops_agent.Evidence.Redaction.{Python}
use k8s_ops_agent.Models.{Task, AgentRun, Diagnosis}
use k8s_ops_agent.Session.{Error, Tx, pure, ◌>>=◌, ◌>>◌, get_incident, get_agent_run, add_task}
use k8s_ops_agent.Tasks.{find_task, related_task}
use k8s_ops_agent.Recovery.Work.{set_agent_run}
use k8s_ops_agent.AgentCore.Store.{audit_run, move_incident, is_terminal, is_status}

abbrev pub new_or_old : Option Diagnosis → Option Diagnosis → Option Diagnosis
new_or_old none old = old
new_or_old (some d) old = some d

unfoldable pub finished : ℕ → AgentRunStatus → String → Option Diagnosis → AgentRun → AgentRun
finished now status reason diagnosis run = record run {
  status = status;
  stop_reason = some reason;
  finished_at = some now;
  lease_owner = none;
  lease_expires_at = none;
  diagnosis = new_or_old diagnosis run.diagnosis;
}

-- A task of the incident, about the run, that is TODO, IN_PROGRESS or BLOCKED.
unfoldable pub is_handover_of : ℕ → ℕ → ℕ → Task → Bool
unfolding related_task
is_handover_of incident_id run_id k task =
    task.incident_id == incident_id
    && related_task "AgentRun" run_id
        (TaskStatus.todo ∷ TaskStatus.in_progress ∷ TaskStatus.blocked ∷ []) k task

unfoldable pub handover_task : ℕ → ℕ → String → Task
handover_task incident_id run_id reason = record {
  incident_id = incident_id;
  title = "Agent 调查需要人工接管";
  description = some ("停止原因：" ++ reason);
  task_type = TaskType.manual_check;
  priority = Priority.high;
  status = TaskStatus.todo;
  assignee = none;
  created_by = "agent-core";
  approval_required = false;
  related_entity_type = some "AgentRun";
  related_entity_id = some run_id;
}

abbrev pub add_unless : Option (ℕ × Task) → ℕ → Task → Tx (Unit {0})
add_unless (some found_task) k task = pure tt
add_unless none k task = do add_task k task; pure tt

unfoldable pub hand_over : ℕ → AgentRunStatus → ℕ → ℕ → String → Tx (Unit {0})
unfolding find_task is_handover_of handover_task is_status add_task
hand_over task_id status incident_id run_id reason =
    if is_status AgentRunStatus.awaiting_human status
    then (do
      task ← find_task (is_handover_of incident_id run_id)
      add_unless task task_id (handover_task incident_id run_id reason))
    else pure tt

-- The state in which an incident that is DIAGNOSING is left.
abbrev pub incident_outcome : AgentRunStatus → IncidentStatus
incident_outcome AgentRunStatus.completed = IncidentStatus.diagnosed
incident_outcome s = IncidentStatus.failed

module _ (python : Python) where
  -- What follows the assignments to the run.
  unfoldable pub record_end : ℕ → ℕ → AgentRunStatus → String → AgentRun → Tx AgentRun
  unfolding get_incident move_incident hand_over audit_run
  record_end task_id run_id status reason run = do
    incident ← get_incident run.incident_id Error.attribute_error
    move_incident (IncidentStatus.diagnosing ∷ []) (incident_outcome status) run.incident_id
        incident
    hand_over task_id status run.incident_id run_id reason
    audit_run python run_id ("agent_run." ++ python.lower (agent_run_value status))
        (field "reason" (str reason) end)
    pure run

  -- `AgentOrchestrator._finish`, from the time, and the id of the task that may be added.
  unfoldable pub finish : ℕ → ℕ → ℕ → AgentRunStatus → String → Option Diagnosis → Tx AgentRun
  unfolding get_agent_run set_agent_run record_end finished is_terminal
  finish now task_id run_id status reason diagnosis = do
    run ← get_agent_run run_id Error.attribute_error
    if is_terminal run.status then pure run else (do
      set_agent_run run_id (finished now status reason diagnosis run)
      record_end task_id run_id status reason (finished now status reason diagnosis run))

  abbrev pub first_of : Option ℕ → ℕ → ℕ
  first_of none now = now
  first_of (some t) now = t

  unfoldable pub cancelled : ℕ → AgentRun → AgentRun
  unfolding is_status
  cancelled now run =
      let asked = record run {
        cancel_requested_at = some (first_of run.cancel_requested_at now);
      } in
      if is_status AgentRunStatus.queued run.status
      then record asked {
        status = AgentRunStatus.cancelled;
        stop_reason = some "USER_CANCELLED";
        finished_at = some now;
      }
      else asked

  -- `AgentOrchestrator.request_cancel`
  unfoldable pub request_cancel : ℕ → ℕ → Tx AgentRun
  unfolding get_agent_run set_agent_run audit_run cancelled is_terminal
  request_cancel now run_id = do
    run ← get_agent_run run_id (Error.external "LookupError" "agent run not found")
    if is_terminal run.status then pure run else (do
      set_agent_run run_id (cancelled now run)
      audit_run python run_id "agent_run.cancel_requested" end
      pure (cancelled now run))
