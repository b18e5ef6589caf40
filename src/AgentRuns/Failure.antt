-- ===== src/AgentRuns/Failure.antt =====
-- `fail_agent_run` of app/ops_agent/services.py, with which the worker of a run records a failure.
use k8s_ops_agent.Base.{ℕ, String, some, List, [], ◌∷◌, if◌then◌else◌}
use k8s_ops_agent.Domain.{
  IncidentStatus, AgentRunStatus, IncidentStatus-discrete, AgentRunStatus-discrete, contains,
}
use k8s_ops_agent.Models.{Incident, AgentRun, Value}
use k8s_ops_agent.Session.{
  Error, Tx, pure, ◌>>=◌, ◌>>◌, audit, get_incident, advance_incident, get_agent_run,
  assign_agent_run, advance_agent_run, same,
}

-- The states in which the status is left as it is.
abbrev pub final_states : List AgentRunStatus
final_states =
    AgentRunStatus.completed ∷ AgentRunStatus.awaiting_human ∷ AgentRunStatus.stopped
    ∷ AgentRunStatus.failed ∷ AgentRunStatus.cancelled ∷ []

unfoldable pub end_run : ℕ → AgentRunStatus → (AgentRun → AgentRun) → Tx AgentRun
unfolding AgentRunStatus-discrete
end_run run_id status f =
    if contains AgentRunStatus-discrete status final_states
    then assign_agent_run run_id f
    else advance_agent_run run_id AgentRunStatus.failed f

unfoldable pub fail_diagnosing : ℕ → Incident → Tx (Unit {0})
unfolding IncidentStatus-discrete
fail_diagnosing k incident =
    if contains IncidentStatus-discrete incident.status (IncidentStatus.diagnosing ∷ [])
    then (do advance_incident k IncidentStatus.failed same; pure tt)
    else pure tt

-- The arguments are the time, the run and `safe_error_message(error)`.
unfoldable pub fail_agent_run : ℕ → ℕ → String → Tx AgentRun
fail_agent_run now run_id error = do
  run ← get_agent_run run_id (Error.not_found_error "agent run not found")
  failed ← end_run run_id run.status (λ r. record r { error = some error; finished_at = some now })
  incident ← get_incident run.incident_id Error.attribute_error
  fail_diagnosing run.incident_id incident
  audit "AgentRun" run_id "agent_run.failed" "AGENT" "diagnosis-worker"
      (("error", Value.text error) ∷ [])
  pure failed
