-- ===== src/AgentCore/Calling.antt =====
-- The tool call of a step, from the policy on: part of `process` of app/ops_agent/agent_core.py.
use k8s_ops_agent.Base.{
  ℕ, ◌+◌, String, Bool, true, false, Option, none, some, List, [], ◌∷◌, Table, find, ◌is◌, ◌==◌,
  is_empty, if◌then◌else◌,
}
use k8s_ops_agent.Domain.{AgentStepStatus, ToolInvocationStatus, EvidenceType}
use k8s_ops_agent.Json.{Json, Fields, str, ident, obj, field, end, get}
use k8s_ops_agent.Evidence.Redaction.{Python, sanitize_content, default_max_evidence_bytes}
use k8s_ops_agent.Models.{AgentRun, AgentStep, ToolInvocation, TargetSnapshot, Db}
use k8s_ops_agent.Session.{Error, ok, err, Tx, Action, ◌>>◌, begin, then_do}
use k8s_ops_agent.Tools.{ToolRegistry, ToolResult, ToolDefinition, Tooling, Validator, invoke}
use k8s_ops_agent.AgentCore.Store.{
  audit_run, write_run, write_step, add_invocation, write_invocation, add_evidence,
}
use k8s_ops_agent.AgentCore.Deciding.{digits_of}
use k8s_ops_agent.AgentCore.Policy.{invocation_fingerprint}

-- The ids that a step draws, the clock, the registry, and what others commit while a tool runs.
pub record Step : Type 0 where
  pub step_id : ℕ
  pub sequence : ℕ
  pub invocation_id : ℕ
  pub evidence_id : ℕ
  pub now : ℕ
  pub duration_ms : ℕ
  pub first_call : ℕ  -- the number of the first attempt, among the calls of handlers
  pub python : Python
  pub validator : Validator
  pub registry : ToolRegistry
  pub others : Db → Db

abbrev is_step_of : ℕ → Option AgentStep → Bool
is_step_of run_id none = false
is_step_of run_id (some step) = step.agent_run_id == run_id

-- The fingerprints of the calls that the run's steps have made.
unfoldable pub fingerprints_of : Python → ℕ → Table AgentStep → Table ToolInvocation → List String
unfolding invocation_fingerprint
fingerprints_of python run_id steps [] = []
fingerprints_of python run_id steps ((k, call) ∷ calls) =
    let rest = fingerprints_of python run_id steps calls in
    if is_step_of run_id (find call.agent_step_id steps)
    then invocation_fingerprint python call.tool_name call.sanitized_arguments ∷ rest
    else rest

abbrev pub end_step : AgentStepStatus → Option String → ℕ → AgentStep → AgentStep
end_step status code now step = record step {
  status = status;
  error_code = code;
  finished_at = some now;
}

-- `session.get(AgentRun, run.id).current_step = sequence`
abbrev pub at_step : ℕ → AgentRun → AgentRun
at_step sequence run = record run { current_step = sequence }

-- The two attempts: the second only after an error that is retryable. How the last ended, and how many
-- there were.
abbrev is_retryable : Tooling ToolResult → Bool
is_retryable (Tooling.failed e) = e.retryable
is_retryable t = false

-- How the calls of a tool ended: with a result or an error, or an exception that is not caught.
pub record Attempts : Type 0 where
  pub last : Tooling ToolResult
  pub count : ℕ

-- What a Pod's status tells of its UID, which the adapter gives as a text.
abbrev uid_in : Option Json → Option String
uid_in none = none
uid_in (some (str s)) = if is_empty s then none else some s
uid_in (some v) = none

abbrev bind_uid : Option String → Option String → Option String
bind_uid none uid = uid
bind_uid (some old) uid =
    if is_empty old then (elim uid [ none ↦ some old | some s ↦ some s ]) else some old

unfoldable pub bound_target : String → Fields → TargetSnapshot → TargetSnapshot
unfolding get
bound_target tool_name content target =
    if tool_name is "get_pod_status"
    then record target { resource_uid = bind_uid target.resource_uid (uid_in (get "uid" content)) }
    else target

module _ (s : Step) (run_id : ℕ) (incident_id : ℕ) where
  unfoldable pub attempts : String → Fields → ℕ → Attempts
  unfolding invoke
  attempts tool_name arguments timeout_seconds =
      let first =
        invoke s.python s.validator s.registry tool_name s.first_call arguments timeout_seconds in
      let second =
        invoke s.python s.validator s.registry tool_name (s.first_call + 1) arguments
          timeout_seconds in
      if is_retryable first
      then record { last = second; count = 2 }
      else record { last = first; count = 1 }

  -- The call is on record before it is made.
  unfoldable pub allow_call : String → String → Fields → Tx (Unit {0})
  unfolding add_invocation write_run audit_run sanitize_content
  allow_call tool_name version arguments = do
    add_invocation s.invocation_id (record {
      agent_step_id = s.step_id;
      tool_name = tool_name;
      tool_version = version;
      sanitized_arguments = (sanitize_content s.python arguments 8000).0;
      status = ToolInvocationStatus.running;
      evidence_id = none;
      attempt_count = 0;
      duration_ms = none;
      error_code = none;
      started_at = some s.now;
      finished_at = none;
    })
    write_run run_id (λ run. record run {
      tool_calls_used = run.tool_calls_used + 1;
      heartbeat_at = some s.now;
      lease_expires_at = some (s.now + 30);
    })
    audit_run s.python run_id "agent_tool.allowed" (field "tool" (str tool_name) end)

  unfoldable pub deny_call : String → String → Tx (Unit {0})
  unfolding write_step write_run audit_run
  deny_call tool_name reason_code = do
    write_step s.step_id (end_step AgentStepStatus.denied (some reason_code) s.now)
    write_run run_id (at_step s.sequence)
    audit_run s.python run_id "agent_tool.denied"
        (field "tool" (str tool_name) (field "reason_code" (str reason_code) end))

  abbrev ended_call : ToolInvocationStatus → Option String → ℕ → ToolInvocation → ToolInvocation
  ended_call status code count call = record call {
    status = status;
    evidence_id = some s.evidence_id;
    attempt_count = count;
    duration_ms = some s.duration_ms;
    error_code = code;
    finished_at = some s.now;
  }

  -- What follows the assignments to the run.
  unfoldable pub store_result : String → ℕ → ToolResult → Tx (Unit {0})
  unfolding add_evidence write_invocation write_step audit_run
  store_result tool_name count result = do
    add_evidence s.evidence_id (record {
      incident_id = incident_id;
      agent_run_id = run_id;
      evidence_type = result.evidence_type;
      source = result.source;
      content = result.content;
      content_hash = s.python.sha256 (s.python.compact (obj result.content));
      redacted = result.redacted;
      collected_at = s.now;
    })
    write_invocation s.invocation_id (ended_call ToolInvocationStatus.succeeded none count)
    write_step s.step_id
        (λ step. record step { status = AgentStepStatus.succeeded; finished_at = some s.now })
    audit_run s.python run_id "agent_tool.succeeded" (
        field "tool" (str tool_name) (
          field "evidence_id" (ident s.evidence_id)
            (field "duration_ms" (digits_of s.python s.duration_ms) end)))

  unfoldable pub keep_result : String → ℕ → ToolResult → Tx (Unit {0})
  unfolding write_run bound_target store_result
  keep_result tool_name count result = do
    write_run run_id (λ run. record run {
      current_step = s.sequence;
      target_snapshot = bound_target tool_name result.content run.target_snapshot;
    })
    store_result tool_name count result

  unfoldable pub error_content : String → String → Fields
  unfolding sanitize_content default_max_evidence_bytes
  error_content tool_name code =
      (sanitize_content s.python (field "tool" (str tool_name) (field "error_code" (str code) end))
        default_max_evidence_bytes).0

  unfoldable pub keep_error : String → ℕ → String → Tx (Unit {0})
  unfolding write_run add_evidence error_content write_invocation write_step audit_run
  keep_error tool_name count code = do
    write_run run_id (at_step s.sequence)
    add_evidence s.evidence_id (record {
      incident_id = incident_id;
      agent_run_id = run_id;
      evidence_type = EvidenceType.collection_error;
      source = tool_name;
      content = error_content tool_name code;
      content_hash = s.python.sha256 (s.python.compact_ascii (obj (error_content tool_name code)));
      redacted = true;
      collected_at = s.now;
    })
    write_invocation s.invocation_id (
        ended_call
          (if code is "TOOL_TRANSIENT_ERROR"
            then ToolInvocationStatus.timed_out
            else ToolInvocationStatus.failed)
          (some code) count)
    write_step s.step_id (end_step AgentStepStatus.failed (some code) s.now)
    audit_run s.python run_id "agent_tool.failed"
        (field "tool" (str tool_name) (field "error_code" (str code) end))

  -- The code of the error, if the tool has failed.
  unfoldable pub keep_outcome : String → ℕ → Tooling ToolResult → Action (Option String)
  unfolding keep_result keep_error
  keep_outcome tool_name count (Tooling.done result) =
      then_do (begin (keep_result tool_name count result)) (λ _ d. (ok none, d))
  keep_outcome tool_name count (Tooling.failed error) =
      then_do (begin (keep_error tool_name count error.code)) (λ _ d. (ok (some error.code), d))
  keep_outcome tool_name count (Tooling.crashed kind message) =
      λ d. (err (Error.external kind message), d)

  -- From the moment that the policy has allowed the call.
  unfoldable pub call_tool : String → ToolDefinition → Fields → ℕ → Action (Option String)
  unfolding allow_call attempts keep_outcome
  call_tool tool_name tool arguments timeout_seconds =
      then_do (begin (allow_call tool_name tool.version arguments)) (λ _ d.
        let a = attempts tool_name arguments timeout_seconds in
        keep_outcome tool_name a.count a.last (s.others d))
