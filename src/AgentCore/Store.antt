-- ===== src/AgentCore/Store.antt =====
-- The rows that the agent core writes, and its audit events (app/ops_agent/agent_core.py, `_audit`).
-- Statuses are assigned here without `validate_transition`.
use k8s_ops_agent.Base.{
  ℕ, ◌+◌, String, Bool, ◌&&◌, List, [], ◌∷◌, find, insert, update, select, ◌is◌, ◌==◌, is_some,
  if◌then◌else◌,
}
use k8s_ops_agent.Domain.{
  IncidentStatus, AgentRunStatus, AgentRunStatus-discrete, IncidentStatus-discrete,
  EvidenceType-discrete, contains,
}
use k8s_ops_agent.Json.{Json, Fields, entries}
use k8s_ops_agent.Evidence.Redaction.{Python, sanitize_content}
use k8s_ops_agent.Recovery.Work.{set_agent_run}
use k8s_ops_agent.Models.{Incident, AgentRun, AgentStep, ToolInvocation, Evidence, Value}
use k8s_ops_agent.Session.{Error, ok, err, Tx, pure, ◌>>=◌, found, audit, get_agent_run}

abbrev json_values : List (String × Json) → List (String × Value)
json_values [] = []
json_values ((k, v) ∷ kvs) = (k, Value.json v) ∷ json_values kvs

-- `AgentOrchestrator._audit`
unfoldable pub audit_run : Python → ℕ → String → Fields → Tx (Unit {0})
unfolding sanitize_content
audit_run python run_id event_type payload =
    audit "AgentRun" run_id event_type "AGENT" "agent-core-v0.3"
      (json_values (entries (sanitize_content python payload 8000).0))

unfoldable pub set_incident : ℕ → Incident → Tx (Unit {0})
set_incident k row d = ok (tt, record d { incidents = update k row d.incidents })

abbrev pub with_status : IncidentStatus → Incident → Incident
with_status status row = record row { status = status; version = row.version + 1 }

-- `if incident.status in states: incident.status = target`
unfoldable pub move_incident : List IncidentStatus → IncidentStatus → ℕ → Incident → Tx (Unit {0})
unfolding IncidentStatus-discrete set_incident
move_incident states target k row =
    if contains IncidentStatus-discrete row.status states
    then set_incident k (with_status target row)
    else pure tt

-- `run = session.get(AgentRun, k)` and the assignments to it.
unfoldable pub write_run : ℕ → (AgentRun → AgentRun) → Tx (Unit {0})
unfolding get_agent_run set_agent_run
write_run k f = do run ← get_agent_run k Error.attribute_error; set_agent_run k (f run)

-- `UniqueConstraint("agent_run_id", "sequence")`; the idempotency key says the same.
unfoldable pub same_step : AgentStep → ℕ → AgentStep → Bool
same_step new k old = new.agent_run_id == old.agent_run_id && new.sequence == old.sequence

-- `session.add(AgentStep(…)); session.flush()`
unfoldable pub add_step : ℕ → AgentStep → Tx (Unit {0})
unfolding same_step
add_step k row d =
    if is_some (select (same_step row) d.agent_steps)
    then err Error.integrity_error
    else ok (tt, record d { agent_steps = insert k row d.agent_steps })

-- `step = session.get(AgentStep, k)` and the assignments to it.
unfoldable pub write_step : ℕ → (AgentStep → AgentStep) → Tx (Unit {0})
write_step k f = do
  row ← (λ d. found (find k d.agent_steps) Error.attribute_error d)
  λ d. ok (tt, record d { agent_steps = update k (f row) d.agent_steps })

unfoldable pub add_invocation : ℕ → ToolInvocation → Tx (Unit {0})
add_invocation k row d = ok (tt, record d { tool_invocations = insert k row d.tool_invocations })

unfoldable pub write_invocation : ℕ → (ToolInvocation → ToolInvocation) → Tx (Unit {0})
write_invocation k f = do
  row ← (λ d. found (find k d.tool_invocations) Error.attribute_error d)
  λ d. ok (tt, record d { tool_invocations = update k (f row) d.tool_invocations })

-- `UniqueConstraint("agent_run_id", "evidence_type", "content_hash")`
unfoldable pub same_evidence : Evidence → ℕ → Evidence → Bool
unfolding EvidenceType-discrete
same_evidence new k old =
    new.agent_run_id == old.agent_run_id
    && contains EvidenceType-discrete new.evidence_type (old.evidence_type ∷ [])
    && new.content_hash is old.content_hash

-- `session.add(Evidence(…)); session.flush()`
unfoldable pub add_evidence : ℕ → Evidence → Tx (Unit {0})
unfolding same_evidence
add_evidence k row d =
    if is_some (select (same_evidence row) d.evidence)
    then err Error.integrity_error
    else ok (tt, record d { evidence = insert k row d.evidence })

-- AgentOrchestrator.TERMINAL
unfoldable pub terminal_states : List AgentRunStatus
terminal_states =
    AgentRunStatus.completed ∷ AgentRunStatus.awaiting_human ∷ AgentRunStatus.stopped
    ∷ AgentRunStatus.failed ∷ AgentRunStatus.cancelled ∷ []

unfoldable pub is_terminal : AgentRunStatus → Bool
unfolding AgentRunStatus-discrete terminal_states
is_terminal s = contains AgentRunStatus-discrete s terminal_states

-- `status == s`
unfoldable pub is_status : AgentRunStatus → AgentRunStatus → Bool
unfolding AgentRunStatus-discrete
is_status t s = contains AgentRunStatus-discrete s (t ∷ [])
