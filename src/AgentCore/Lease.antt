-- ===== src/AgentCore/Lease.antt =====
-- `_claim` and `_ensure_alert_evidence` of app/ops_agent/agent_core.py.
use k8s_ops_agent.Base.{
  ℕ, ◌+◌, String, Bool, false, not, ◌&&◌, Option, none, some, [], ◌∷◌, ltb, ◌==◌, ◌is◌, select,
  is_some, if◌then◌else◌,
}
use k8s_ops_agent.Domain.{
  IncidentStatus, AgentRunStatus, EvidenceType, EvidenceType-discrete, contains,
}
use k8s_ops_agent.Json.{Json, Fields, null, str, obj, field, end, set}
use k8s_ops_agent.Evidence.Redaction.{Python, sanitize_content, default_max_evidence_bytes}
use k8s_ops_agent.Models.{Incident, AgentRun, Evidence, TargetSnapshot}
use k8s_ops_agent.Session.{Error, ok, Tx, pure, ◌>>=◌, ◌>>◌, get_incident, get_agent_run}
use k8s_ops_agent.Recovery.Work.{set_agent_run}
use k8s_ops_agent.AgentCore.Store.{audit_run, move_incident, add_evidence, is_terminal, is_status}

abbrev pub text_or_null : Option String → Json
text_or_null none = null
text_or_null (some s) = str s

abbrev snapshot_dict : TargetSnapshot → Fields
snapshot_dict t = field "cluster" (str t.cluster) (
    field "namespace" (str t.namespace) (
      field "resource_kind" (str t.resource_kind) (
        field "resource_name" (str t.resource_name)
          (field "resource_uid" (text_or_null t.resource_uid) end))))

abbrev with_uid : Option String → Fields → Fields
unfolding set
with_uid none fs = fs
with_uid (some uid) fs = set "resource_uid" (str uid) fs

-- `{**source_context, "incident": …, "summary": …}`
unfoldable pub alert_payload : AgentRun → Incident → Fields
unfolding set with_uid
alert_payload run incident = set "summary" (text_or_null incident.summary) (
    set "incident" (obj (snapshot_dict run.target_snapshot))
      (with_uid incident.resource_uid incident.source_context))

unfoldable pub is_alert_of : ℕ → ℕ → Evidence → Bool
unfolding EvidenceType-discrete
is_alert_of run_id k row =
    row.agent_run_id == run_id
    && contains EvidenceType-discrete row.evidence_type (EvidenceType.alert_payload ∷ [])

-- The worker, Python, the clock and the id of the evidence that may be added.
pub record Worker : Type 0 where
  pub python : Python
  pub worker_id : String
  pub now : ℕ
  pub evidence_id : ℕ

module _ (w : Worker) where
  -- The incident as it was reported.
  unfoldable pub alert_evidence : ℕ → AgentRun → Incident → Evidence
  unfolding alert_payload sanitize_content default_max_evidence_bytes
  alert_evidence run_id run incident =
      let clean =
        sanitize_content w.python (alert_payload run incident) default_max_evidence_bytes in
      record {
        incident_id = run.incident_id;
        agent_run_id = run_id;
        evidence_type = EvidenceType.alert_payload;
        source = incident.source;
        content = clean.0;
        content_hash = w.python.sha256 (w.python.compact (obj clean.0));
        redacted = clean.1;
        collected_at = w.now;
      }

  unfoldable pub ensure_alert_evidence : ℕ → AgentRun → Incident → Tx (Unit {0})
  unfolding is_alert_of add_evidence alert_evidence
  ensure_alert_evidence run_id run incident d =
      if is_some (select (is_alert_of run_id) d.evidence)
      then ok (tt, d)
      else add_evidence w.evidence_id (alert_evidence run_id run incident) d

  -- `lease > now and run.lease_owner not in {None, self.worker_id}`
  abbrev pub is_held : Option ℕ → Option String → Bool
  is_held none owner = false
  is_held (some lease) none = false
  is_held (some lease) (some owner) = ltb w.now lease && not (owner is w.worker_id)

  abbrev pub deadline : Option ℕ → ℕ → ℕ
  deadline none timeout = w.now + timeout
  deadline (some t) timeout = t

  unfoldable pub leased_run : AgentRun → AgentRun
  leased_run run = record run {
    lease_owner = some w.worker_id;
    lease_expires_at = some (w.now + 30);
    heartbeat_at = some w.now;
  }

  unfoldable pub started_run : AgentRun → AgentRun
  unfolding leased_run
  started_run run = record (leased_run run) {
    status = AgentRunStatus.running;
    prompt_version = "agent-decision-v2";
    started_at = some w.now;
    deadline_at = some (deadline run.deadline_at run.budget.run_timeout_seconds);
  }

  -- What follows the assignments to the run.
  unfoldable pub record_start : ℕ → AgentRun → Tx AgentRun
  unfolding move_incident ensure_alert_evidence audit_run get_incident
  record_start run_id run = do
    incident ← get_incident run.incident_id Error.attribute_error
    move_incident (IncidentStatus.open_ ∷ IncidentStatus.failed ∷ IncidentStatus.diagnosed ∷ [])
        IncidentStatus.diagnosing run.incident_id incident
    ensure_alert_evidence run_id run incident
    audit_run w.python run_id "agent_run.started" (field "goal" (str run.goal) end)
    pure run

  -- The first claim of a run, which is QUEUED.
  unfoldable pub start_run : ℕ → AgentRun → Tx AgentRun
  unfolding set_agent_run record_start started_run
  start_run run_id run = do
    set_agent_run run_id (started_run run)
    record_start run_id (started_run run)

  unfoldable pub take_lease : ℕ → AgentRun → Tx AgentRun
  unfolding start_run set_agent_run is_status leased_run
  take_lease run_id run =
      if is_status AgentRunStatus.queued run.status
      then start_run run_id run
      else (do set_agent_run run_id (leased_run run); pure (leased_run run))

  -- `AgentOrchestrator._claim`
  unfoldable pub claim : ℕ → Tx AgentRun
  unfolding take_lease get_agent_run is_terminal
  claim run_id = do
    run ← get_agent_run run_id (Error.external "LookupError" "agent run not found")
    if is_terminal run.status
        then pure run
        else if is_held run.lease_expires_at run.lease_owner
        then pure run
        else take_lease run_id run
