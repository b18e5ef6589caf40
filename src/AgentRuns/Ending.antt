-- ===== src/AgentRuns/Ending.antt =====
-- What `fail_agent_run` leaves.
use k8s_ops_agent.Base.{
  ℕ, ◌+◌, ◌≡◌, String, false, some, [], ◌∷◌, arith, find, find-update_self, if◌then◌else◌,
}
use k8s_ops_agent.Domain.{
  IncidentStatus, AgentRunStatus, validate_transition, IncidentStatus-discrete, contains,
}
use k8s_ops_agent.Models.{Incident, AgentRun, Db}
use k8s_ops_agent.Session.{
  is_err, begin, get_incident, advance_incident, get_agent_run, assign_agent_run, advance_agent_run,
  add_audit,
}
use k8s_ops_agent.AgentRuns.Failure.{end_run, fail_diagnosing, fail_agent_run}

-- A run that is at work fails; one that has ended stays as it is.
abbrev pub after_failed_run : AgentRunStatus → AgentRunStatus
after_failed_run AgentRunStatus.queued = AgentRunStatus.failed
after_failed_run AgentRunStatus.running = AgentRunStatus.failed
after_failed_run AgentRunStatus.collecting = AgentRunStatus.failed
after_failed_run AgentRunStatus.diagnosing = AgentRunStatus.failed
after_failed_run s = s

-- An incident waits for no run that has failed.
abbrev pub after_failed_diagnosis : IncidentStatus → IncidentStatus
after_failed_diagnosis IncidentStatus.diagnosing = IncidentStatus.failed
after_failed_diagnosis s = s

-- For a run that exists with its incident, `fail_agent_run` returns. A run that was QUEUED, RUNNING,
-- COLLECTING or DIAGNOSING is FAILED afterwards, and any other keeps its status; the error and the
-- time are recorded. An incident that was DIAGNOSING is FAILED, and any other keeps its status.
pub fail_agent_run_outcome :
    (now k : ℕ) (error : String) (d : Db) (run : AgentRun) (i : Incident)
    → find k d.agent_runs ≡ some run
    → find run.incident_id d.incidents ≡ some i
    → let (r, e) = begin (fail_agent_run now k error) d in
      (after : Incident) × (is_err r ≡ false)
      × (find k e.agent_runs
          ≡ some (record run {
            status = after_failed_run run.status;
            error = some error;
            finished_at = some now;
          }))
      × (find run.incident_id e.incidents ≡ some after)
      × (after.status ≡ after_failed_diagnosis i.status)
unfolding fail_agent_run end_run fail_diagnosing get_incident advance_incident get_agent_run
    assign_agent_run advance_agent_run add_audit validate_transition IncidentStatus-discrete
fail_agent_run_outcome now k error d run i has_run has_i =
    let run' = record run {
      status = after_failed_run run.status;
      error = some error;
      finished_at = some now;
    } in
    let runs = find-update_self k run' run d.agent_runs has_run in
    let i' = record i { status = IncidentStatus.failed; version = i.version + 1 } in
    let incidents = find-update_self run.incident_id i' i d.incidents has_i in
    let diagnosing = contains IncidentStatus-discrete i.status (IncidentStatus.diagnosing ∷ []) in
    (
      if diagnosing then i' else i,
      ground (arith, has_run, has_i),
      ground (arith, has_run, has_i, runs),
      ground (arith, has_run, has_i, incidents),
      ground arith,
    )
