-- ===== src/Incidents/Alerts.antt =====
-- `resolve_incident_from_alert` of app/ops_agent/services.py: Alertmanager says that an alert is
-- over, and the incident is resolved if the verifier of app/ops_agent/verification.py agrees. What
-- the verifier answers, and what other workers commit meanwhile, is an argument. Of the dict of a
-- verification the list of single checks is left out.
use k8s_ops_agent.Base.{
  ℕ, String, Bool, false, not, ◌&&◌, Option, none, some, [], ◌∷◌, ◌is◌, ◌==◌, Table, if◌then◌else◌,
}
use k8s_ops_agent.Domain.{
  IncidentStatus, TaskStatus, TaskType, Priority, IncidentStatus-discrete, contains, incident_value,
}
use k8s_ops_agent.Models.{Incident, Task, Verification, Value, Db}
use k8s_ops_agent.Adapters.{Call, returned, raised}
use k8s_ops_agent.Session.{
  Error, ok, Tx, Action, pure, ◌>>=◌, ◌>>◌, begin, then_do, audit, get_incident, advance_incident,
  add_task, same,
}
use k8s_ops_agent.Tasks.{find_task, finish_task, related_task, has_type}

-- The verifier, the clock, and the id of the task that may be added.
pub record Verifier : Type 0 where
  pub verify : ℕ → Incident → Db → Call Verification × Db
  pub now : ℕ
  pub task_id : ℕ

-- `fingerprint == …, status.notin_([RESOLVED, CLOSED])`
unfoldable pub is_active : String → ℕ → Incident → Bool
unfolding IncidentStatus-discrete
is_active fingerprint k incident =
    incident.fingerprint is fingerprint
    && not (
        contains IncidentStatus-discrete incident.status
          (IncidentStatus.resolved ∷ IncidentStatus.closed ∷ []))

-- `order_by(created_at.desc())`: the last row that fits.
unfoldable pub newest : {R : Type 0} → (ℕ → R → Bool) → Table R → Option (ℕ × R)
newest p [] = none
newest p ((k, row) ∷ t) = elim (newest p t) [
  | some later ↦ some later
  | none ↦ if p k row then some (k, row) else none
]

unfoldable pub find_incident : String → Tx (Option (ℕ × Incident))
find_incident fingerprint d = ok (newest (is_active fingerprint) d.incidents, d)

-- An incident that is VERIFYING already stays as it is.
unfoldable pub start_verifying : ℕ → Incident → Tx Incident
unfolding IncidentStatus-discrete
start_verifying k incident =
    if contains IncidentStatus-discrete incident.status (IncidentStatus.verifying ∷ [])
    then pure incident
    else advance_incident k IncidentStatus.verifying same

abbrev pub receive_alert : String → Option (ℕ × Incident) → Tx (Option (ℕ × Incident))
receive_alert fingerprint none = pure none
receive_alert fingerprint (some (k, incident)) = do
  verifying ← start_verifying k incident
  audit "Incident" k "alert.resolved_received" "SYSTEM" "alertmanager" (
      ("from", Value.text (incident_value incident.status))
      ∷ ("fingerprint", Value.text fingerprint)
      ∷ [])
  pure (some (k, verifying))

-- The first transaction.
unfoldable pub receive_tx : String → Tx (Option (ℕ × Incident))
receive_tx fingerprint = find_incident fingerprint >>= receive_alert fingerprint

abbrev pub alert_verdict : Call Verification → Verification
alert_verdict (returned verification) = verification
alert_verdict (raised kind message) = record {
  healthy = false;
  reason = some "verification failed unexpectedly";
  error = none;
  error_type = some kind;
}

abbrev pub is_verification_of : ℕ → ℕ → Task → Bool
is_verification_of incident_id k task =
    task.incident_id == incident_id
    && has_type TaskType.verification task
    && related_task "Incident" incident_id
        (TaskStatus.todo ∷ TaskStatus.in_progress ∷ TaskStatus.blocked ∷ []) k task

abbrev pub complete_verification : ℕ → Option (ℕ × Task) → Tx (Unit {0})
complete_verification incident_id none = pure tt
complete_verification incident_id (some (k, task)) = do
  finish_task (TaskStatus.todo ∷ TaskStatus.blocked ∷ []) (some (k, task))
  audit "Task" k "task.completed_by_verification" "AGENT" "recovery-verifier"
      (("incident_id", Value.ref incident_id) ∷ [])

abbrev pub ask_for_verification : ℕ → ℕ → Option (ℕ × Task) → Tx (Unit {0})
ask_for_verification task_id incident_id (some open_task) = pure tt
ask_for_verification task_id incident_id none = do
  add_task task_id (record {
    incident_id = incident_id;
    title = "验证告警恢复状态";
    description = some "Alertmanager 已恢复，但资源或指标验证未通过。";
    task_type = TaskType.verification;
    priority = Priority.high;
    status = TaskStatus.todo;
    assignee = none;
    created_by = "system";
    approval_required = false;
    related_entity_type = some "Incident";
    related_entity_id = some incident_id;
  })
  audit "Task" task_id "task.created" "SYSTEM" "recovery-verifier"
      (("incident_id", Value.ref incident_id) ∷ [])

abbrev report_verification : ℕ → String → Verification → Tx (Unit {0})
report_verification k event verification =
    audit "Incident" k event "AGENT" "recovery-verifier"
      (("verification", Value.verification verification) ∷ [])

unfoldable pub recovered_tx : Verifier → ℕ → Verification → Tx (Incident × String)
recovered_tx c k verification = do
  get_incident k Error.attribute_error
  task ← find_task (is_verification_of k)
  incident ← advance_incident k IncidentStatus.resolved (λ i. record i { resolved_at = some c.now })
  complete_verification k task
  report_verification k "incident.recovery_verified" verification
  pure (incident, "resolved")

unfoldable pub not_recovered_tx : Verifier → ℕ → Verification → Tx (Incident × String)
not_recovered_tx c k verification = do
  get_incident k Error.attribute_error
  task ← find_task (is_verification_of k)
  incident ← advance_incident k IncidentStatus.failed same
  ask_for_verification c.task_id k task
  report_verification k "incident.recovery_verification_failed" verification
  pure (incident, "verification_failed")

-- The second transaction.
unfoldable pub settle_tx : Verifier → ℕ → Verification → Tx (Incident × String)
settle_tx c k verification =
    if verification.healthy
    then recovered_tx c k verification
    else not_recovered_tx c k verification

abbrev pub Resolution : Type 0
Resolution = Option Incident × String

unfoldable pub verify_incident : Verifier → Option (ℕ × Incident) → Action Resolution
verify_incident c none d = (ok (none, "ignored"), d)
verify_incident c (some (k, incident)) d =
    let (answer, d') = c.verify k incident d in
    then_do (begin (settle_tx c k (alert_verdict answer))) (λ done e. (ok (some done.0, done.1), e))
      d'

unfoldable pub resolve_incident_from_alert : Verifier → String → Action Resolution
resolve_incident_from_alert c fingerprint =
    then_do (begin (receive_tx fingerprint)) (verify_incident c)
