-- ===== src/Tests/Incidents.antt =====
-- The end of an alert for the Pod of `Data`.
use k8s_ops_agent.Base.{◌≡◌, refl, some, [], find, update, select}
use k8s_ops_agent.Domain.{
  IncidentStatus, PlanStatus, IncidentStatus-discrete, incident_transitions, validate_transition,
}
use k8s_ops_agent.Models.{Incident, Db}
use k8s_ops_agent.Adapters.{returned}
use k8s_ops_agent.Session.{ok, get_incident, advance_incident, add_audit}
use k8s_ops_agent.Session.Evolution.{Evolves, Evolves-refl}
use k8s_ops_agent.Session.Retention.{Retains, Retains-refl}
use k8s_ops_agent.Tasks.{find_task, has_type, related_task}
use k8s_ops_agent.Incidents.Alerts.{
  Verifier, is_active, newest, find_incident, start_verifying, receive_tx, recovered_tx, settle_tx,
  verify_incident, resolve_incident_from_alert,
}
use k8s_ops_agent.Incidents.Recovered.{IsOrderlyVerifier, resolve_incident_from_alert-Evolves}
use k8s_ops_agent.Incidents.Verified.{WasHealthy, resolved-WasHealthy}
use k8s_ops_agent.Tests.Data.{db_in, incident_in, recovered}

abbrev verifier : Verifier
verifier = record { verify = λ k i d. (returned recovered, d); now = 300; task_id = 9 }

verifier-IsOrderlyVerifier : IsOrderlyVerifier verifier
verifier-IsOrderlyVerifier = record { while_verifying = λ k i d. Evolves-refl d }

abbrev failed : Db
failed = db_in IncidentStatus.failed PlanStatus.executed []

abbrev resolved : Incident
resolved = record (incident_in IncidentStatus.resolved) { version = 3; resolved_at = some 300 }

resolve_incident_from_alert-Evolves_example :
    Evolves failed (resolve_incident_from_alert verifier "web-0" failed).1
    × Retains failed (resolve_incident_from_alert verifier "web-0" failed).1
resolve_incident_from_alert-Evolves_example =
    resolve_incident_from_alert-Evolves verifier "web-0" failed verifier-IsOrderlyVerifier
      (record { while_verifying = λ k i d. Retains-refl d })

failed_is_resolved :
    (resolve_incident_from_alert verifier "web-0" failed).0 ≡ ok (some resolved, "resolved")
unfolding resolve_incident_from_alert verify_incident receive_tx find_incident newest is_active
    start_verifying settle_tx recovered_tx get_incident advance_incident add_audit find_task
    has_type related_task find update select IncidentStatus-discrete incident_transitions
    validate_transition
failed_is_resolved = refl

resolved-WasHealthy_example :
    (resolved.status ≡ IncidentStatus.resolved) × WasHealthy verifier "web-0" failed
resolved-WasHealthy_example =
    resolved-WasHealthy verifier "web-0" failed resolved failed_is_resolved
