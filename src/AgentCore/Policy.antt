-- ===== src/AgentCore/Policy.antt =====
-- `AgentPolicy.evaluate` and `invocation_fingerprint` of app/ops_agent/agent_core.py.
use Prim.Native.String.{◌++◌}
use k8s_ops_agent.Base.{
  String, Bool, true, false, not, ◌&&◌, ◌||◌, Option, none, some, List, [], ◌∷◌, leb, ◌is◌, is_in,
  is_empty, if◌then◌else◌,
}
use k8s_ops_agent.Domain.{PolicyDecision}
use k8s_ops_agent.Json.{Json, Fields, obj, get, truthy, is_text}
use k8s_ops_agent.Evidence.Redaction.{Python}
use k8s_ops_agent.Models.{Incident, AgentRun}
use k8s_ops_agent.Tools.{
  ToolRegistry, Tooling, ToolDefinition, get_tool, registry_system_namespaces, in_set, with_tool,
}

pub record PolicyResult : Type 0 where
  pub decision : PolicyDecision
  pub reason_code : String

unfoldable pub invocation_fingerprint : Python → String → Fields → String
invocation_fingerprint python tool_name arguments =
    python.sha256 (tool_name ++ ":" ++ python.compact (obj arguments))

abbrev pub answer : PolicyDecision → String → Tooling PolicyResult
answer decision reason_code =
    Tooling.done (record { decision = decision; reason_code = reason_code })

abbrev pub deny : String → Tooling PolicyResult
deny = answer PolicyDecision.deny

abbrev pub ask_human : String → Tooling PolicyResult
ask_human = answer PolicyDecision.ask_human

abbrev pub is_allow : PolicyDecision → Bool
is_allow PolicyDecision.allow = true
is_allow d = false

-- `arguments.get(key) == value`, for a text.
abbrev pub given_text : Option Json → String → Bool
given_text none s = false
given_text (some v) s = is_text s v

-- `bool(arguments.get(key))`
abbrev pub is_given : Option Json → Bool
is_given none = false
is_given (some v) = truthy v

-- Some argument of these names is given and is not the name of the incident's resource.
unfoldable pub names_another : List String → Fields → String → Bool
unfolding get
names_another [] arguments resource_name = false
names_another (key ∷ keys) arguments resource_name =
    is_given (get key arguments) && not (given_text (get key arguments) resource_name)
    || names_another keys arguments resource_name

unfoldable pub target_keys : List String
target_keys = "pod_name" ∷ "resource_name" ∷ "deployment_name" ∷ "workload_name" ∷ []

-- A value in a set of texts, which raises TypeError for a list or a dict.
abbrev pub member_of : {A : Type 0} → Option Bool → Tooling A → Tooling A → Tooling A
member_of none inside outside = Tooling.crashed "TypeError" "unhashable type"
member_of (some true) inside outside = inside
member_of (some false) inside outside = outside

abbrev pub uid_unbound : Option String → Bool
uid_unbound none = true
uid_unbound (some s) = is_empty s

abbrev pub text_or_empty : Option String → String
text_or_empty none = ""
text_or_empty (some s) = s

module _ (python : Python) (run : AgentRun) (incident : Incident) (definition : ToolDefinition)
    (tool_name : String) (arguments : Fields) (previous_fingerprints : List String) where
  -- From the names of the targets on.
  unfoldable pub judge_target : Tooling PolicyResult
  unfolding names_another target_keys get invocation_fingerprint
  judge_target =
      let uid = get "resource_uid" arguments in
      let expected_uid = run.target_snapshot.resource_uid in
      if names_another target_keys arguments incident.resource_name
      then ask_human "INCIDENT_TARGET_MISMATCH"
      else if is_given uid && uid_unbound expected_uid
      then ask_human "INCIDENT_UID_UNBOUND"
      else if is_given uid && not (given_text uid (text_or_empty expected_uid))
      then ask_human "INCIDENT_UID_MISMATCH"
      else if leb run.budget.max_tool_calls run.tool_calls_used
      then deny "TOOL_BUDGET_EXHAUSTED"
      else if is_in (invocation_fingerprint python tool_name arguments) previous_fingerprints
      then deny "DUPLICATE_TOOL_CALL"
      else answer PolicyDecision.allow "POLICY_ALLOWED"

  unfoldable pub judge_call : Tooling PolicyResult
  unfolding judge_target registry_system_namespaces get
  judge_call =
      let namespace = get "namespace" arguments in
      if not (run.autonomy_level is "L2")
      then deny "AUTONOMY_LEVEL_DENIED"
      else if not definition.read_only || definition.requires_approval
      then deny "WRITE_TOOL_DENIED"
      else if not (given_text (get "cluster" arguments) incident.cluster)
          || not (is_in incident.cluster definition.allowed_clusters)
      then deny "CLUSTER_SCOPE_DENIED"
      else member_of (in_set namespace registry_system_namespaces) (deny "SYSTEM_NAMESPACE_DENIED")
          (if not (given_text namespace incident.namespace)
              || not (is_in incident.namespace definition.allowed_namespaces)
            then deny "NAMESPACE_SCOPE_DENIED"
            else judge_target)

-- `AgentPolicy.evaluate`
unfoldable pub evaluate :
    Python
    → AgentRun
    → Incident
    → ToolRegistry
    → String
    → Fields
    → List String
    → Tooling PolicyResult
unfolding get_tool judge_call
evaluate python run incident registry tool_name arguments previous_fingerprints =
    with_tool (get_tool registry tool_name) (λ definition.
      judge_call python run incident definition tool_name arguments previous_fingerprints)
