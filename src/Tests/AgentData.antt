-- ===== src/Tests/AgentData.antt =====
-- A run of the agent core with its tools, its worker and its rounds, as the tests use them.
use k8s_ops_agent.Base.{
  ℕ, ◌+◌, refl, String, Bool, true, false, none, some, [], ◌∷◌, Bool-cases, inl, inr, ◌is◌,
  if◌then◌else◌,
}
use k8s_ops_agent.Domain.{
  IncidentStatus, PlanStatus, AgentRunStatus, AgentStepType, AgentStepStatus, EvidenceType,
}
use k8s_ops_agent.Json.{Number, Fields, str, field, end}
use k8s_ops_agent.Evidence.Redaction.{Python}
use k8s_ops_agent.Evidence.Hiding.{HidesOnce, KeepsUnmatched}
use k8s_ops_agent.Models.{AgentRun, AgentStep, Diagnosis, Db}
use k8s_ops_agent.Tools.{ToolDefinition, ToolRegistry, HandlerCall, Validator}
use k8s_ops_agent.AgentCore.Lease.{Worker}
use k8s_ops_agent.AgentCore.Budget.{ModelConfig, Checked}
use k8s_ops_agent.AgentCore.Decision.{NextDecision}
use k8s_ops_agent.AgentCore.Deciding.{Context, ModelAnswer, FallbackAnswer}
use k8s_ops_agent.AgentCore.Process.{Round}
use k8s_ops_agent.Tests.Data.{db_in, a_run}

abbrev pub hide_password : String → String × Bool
hide_password s = if s is "password=x" then ("password=[REDACTED]", true) else (s, false)

abbrev pub python : Python
python = record {
  lower = λ s. s;
  hide_inline = hide_password;
  dumps = λ v. "{}";
  compact = λ v. "{}";
  compact_ascii = λ v. "{}";
  digits = λ n. "2";
  sha256 = λ s. s;
}

pub python-HidesOnce : HidesOnce python
python-HidesOnce s = elim (Bool-cases (s is "password=x")) [
  | inl y ↦ rw y refl
  | inr n ↦ rw (n, n) refl
]

pub python-KeepsUnmatched : KeepsUnmatched python
python-KeepsUnmatched s h = elim (Bool-cases (s is "password=x")) [
  | inl y ↦ absurd (cc (rw y at h))
  | inr n ↦ rw n refl
]

abbrev pub arguments : Fields
arguments =
    field "cluster" (str "local")
      (field "namespace" (str "demo") (field "pod_name" (str "web-0") end))

abbrev pub pod_status : ToolDefinition
pod_status = record {
  name = "get_pod_status";
  version = "1.0";
  input_schema = end;
  output_schema = end;
  read_only = true;
  requires_approval = false;
  timeout_seconds = 15;
  allowed_clusters = "local" ∷ [];
  allowed_namespaces = "demo" ∷ [];
  handler = λ call fields timeout. HandlerCall.returned (record {
    evidence_type = EvidenceType.pod_status;
    source = "kubernetes";
    content = field "uid" (str "uid-1") end;
    redacted = false;
  });
}

abbrev pub registry : ToolRegistry
registry = pod_status ∷ []

abbrev pub validator : Validator
validator = record {
  check_schema = λ s. none;
  first_error = λ s v. none;
  first_error_by_path = λ s v. none;
}

abbrev pub half : Number
half = record { digits = "0.5"; is_zero = false }

abbrev pub inspect_pod : NextDecision
inspect_pod = record {
  decision_type = AgentStepType.call_tool;
  tool_name = some "get_pod_status";
  arguments = arguments;
  decision_summary = "look at the Pod";
  evidence_ids = [];
  confidence = half;
  stop_reason = none;
  diagnosis = none;
  provider = "rules";
  usage = none;
  fallback_error_code = none;
}

abbrev pub crash_loop : Diagnosis
crash_loop = record { evidence_ids = 31 ∷ []; provider = none; findings = end }

abbrev pub conclusion : NextDecision
conclusion = record inspect_pod {
  decision_type = AgentStepType.complete;
  tool_name = none;
  arguments = end;
  evidence_ids = 31 ∷ [];
  diagnosis = some crash_loop;
}

abbrev pub worker_at : String → ℕ → Worker
worker_at name now = record { python = python; worker_id = name; now = now; evidence_id = 30 }

abbrev pub queued_run : AgentRun
queued_run = record a_run { status = AgentRunStatus.queued; lease_owner = none; started_at = none }

abbrev pub with_run : AgentRun → Db
with_run run = record (db_in IncidentStatus.diagnosing PlanStatus.draft []) {
  agent_runs = (6, run) ∷ [];
}

abbrev pub context : Context
context = record {
  visible_evidence_ids = [];
  current_ids = [];
  conflicting_observations = false;
  estimated_input = 900;
}

abbrev pub round_at : ℕ → Round
round_at i = record {
  now = 210;
  decided_at = 211;
  ended_at = 212;
  task_id = 40;
  model = none;
  build = λ b d. Checked.accepted context;
  eligible = λ d. [];
  reasoning = record {
    decide = λ c. ModelAnswer.answered inspect_pod;
    fallback = λ c ids. FallbackAnswer.decided inspect_pod;
    others = λ d. d;
    checks = record { fits_schema = λ d. true; is_executable = λ s fields. false };
    registry = registry;
    python = python;
    zero = record { digits = "0.0"; is_zero = true };
  };
  step = record {
    step_id = 50 + i;
    sequence = 0;
    invocation_id = 60 + i;
    evidence_id = 31 + i;
    now = 212;
    duration_ms = 20;
    first_call = 0;
    python = python;
    validator = validator;
    registry = registry;
    others = λ d. d;
  };
}

abbrev pub left_step : AgentStep
left_step = record {
  agent_run_id = 6;
  sequence = 1;
  step_type = none;
  status = AgentStepStatus.running;
  decision_provider = none;
  decision_summary = none;
  confidence = none;
  evidence_ids = [];
  context_version = "agent-context-v2";
  error_code = none;
  finished_at = none;
}

abbrev pub config : ModelConfig
config = record {
  context_window = some 16000;
  input_limit = some 12000;
  output_tokens = some 1000;
  safety_margin = some 512;
}
