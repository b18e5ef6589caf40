-- ===== src/AgentCore/Decision.antt =====
-- `NextDecision`, `DecisionError` and `validate_next_decision` of app/ops_agent/agent_core.py.
use k8s_ops_agent.Base.{
  ℕ, String, Bool, true, false, not, ◌&&◌, ◌||◌, Option, none, some, List, [], ◌∷◌, ◌==◌, is_empty,
  is_some, if◌then◌else◌,
}
use k8s_ops_agent.Domain.{AgentStepType}
use k8s_ops_agent.Json.{Number, Fields, obj, truthy}
use k8s_ops_agent.Models.{Diagnosis}
use k8s_ops_agent.Tools.{ToolRegistry, ToolError, Tooling, ToolDefinition, get_tool}

pub record NextDecision : Type 0 where
  pub decision_type : AgentStepType
  pub tool_name : Option String
  pub arguments : Fields
  pub decision_summary : String
  pub evidence_ids : List ℕ
  pub confidence : Number
  pub stop_reason : Option String
  pub diagnosis : Option Diagnosis
  pub provider : String
  pub usage : Option (ℕ × ℕ)  -- the input and output tokens, where `usage_known`
  pub fallback_error_code : Option String

-- A DecisionError, a ToolError, or any other exception (its type).
pub data Failure : Type 0 where
  decision_error : String → Failure
  tool_failed : ToolError → Failure
  other : String → Failure

-- What jsonschema says of `decision.payload()`, and `EXECUTABLE_TEXT.search` of its summary and
-- arguments, dumped to JSON.
pub record DecisionChecks : Type 0 where
  pub fits_schema : NextDecision → Bool
  pub is_executable : String → Fields → Bool

abbrev pub mem : ℕ → List ℕ → Bool
mem k [] = false
mem k (j ∷ js) = k == j || mem k js

-- `set(ks).issubset(js)`
abbrev pub subset : List ℕ → List ℕ → Bool
subset [] js = true
subset (k ∷ ks) js = mem k js && subset ks js

-- The truth value of a text that may be None.
abbrev pub filled : Option String → Bool
filled none = false
filled (some s) = not (is_empty s)

-- `set(decision.diagnosis["evidence_ids"]) != set(decision.evidence_ids)`, negated.
abbrev pub cites_same : Option Diagnosis → List ℕ → Bool
cites_same none ks = false
cites_same (some d) ks = subset d.evidence_ids ks && subset ks d.evidence_ids

abbrev pub registered : Tooling ToolDefinition → Option Failure
registered (Tooling.done t) = none
registered (Tooling.failed e) = some (Failure.tool_failed e)
registered (Tooling.crashed kind message) = some (Failure.other kind)

abbrev pub name_of : Option String → String
name_of none = ""
name_of (some s) = s

abbrev pub decision_failure : String → Option Failure
decision_failure code = some (Failure.decision_error code)

abbrev pub no_evidence : List ℕ → Bool
no_evidence [] = true
no_evidence (k ∷ ks) = false

unfoldable pub call_tool_error : ToolRegistry → NextDecision → Option Failure
unfolding get_tool
call_tool_error registry d =
    if not (filled d.tool_name) || is_some d.diagnosis || is_some d.stop_reason
    then decision_failure "DECISION_SEMANTICS_INVALID"
    else registered (get_tool registry (name_of d.tool_name))

unfoldable pub complete_error : NextDecision → Option Failure
complete_error d =
    if is_some d.tool_name || truthy (obj d.arguments) || not (is_some d.diagnosis)
    then decision_failure "DECISION_SEMANTICS_INVALID"
    else if no_evidence d.evidence_ids
    then decision_failure "INSUFFICIENT_EVIDENCE"
    else if not (cites_same d.diagnosis d.evidence_ids)
    then decision_failure "EVIDENCE_MISMATCH"
    else none

unfoldable pub terminal_error : NextDecision → Option Failure
terminal_error d =
    if is_some d.tool_name || truthy (obj d.arguments) || is_some d.diagnosis
    then decision_failure "DECISION_SEMANTICS_INVALID"
    else if not (filled d.stop_reason)
    then decision_failure "STOP_REASON_REQUIRED"
    else none

unfoldable pub semantics_error : AgentStepType → ToolRegistry → NextDecision → Option Failure
unfolding call_tool_error complete_error terminal_error
semantics_error AgentStepType.call_tool registry d = call_tool_error registry d
semantics_error AgentStepType.complete registry d = complete_error d
semantics_error AgentStepType.ask_human registry d = terminal_error d
semantics_error AgentStepType.stop registry d = terminal_error d

-- What `validate_next_decision` raises.
unfoldable pub validate_next_decision :
    DecisionChecks → ToolRegistry → List ℕ → NextDecision → Option Failure
unfolding semantics_error
validate_next_decision checks registry visible_evidence_ids d =
    if not (checks.fits_schema d)
    then decision_failure "DECISION_SCHEMA_INVALID"
    else if not (subset d.evidence_ids visible_evidence_ids)
    then decision_failure "UNKNOWN_EVIDENCE_REFERENCE"
    else if checks.is_executable d.decision_summary d.arguments
    then decision_failure "EXECUTABLE_CONTENT_REJECTED"
    else semantics_error d.decision_type registry d
