-- ===== src/Plans/Requests.antt =====
-- `create_plan` of app/ops_agent/services.py. The id of a new row is an argument: `new_id` draws a UUID.
use k8s_ops_agent.Base.{
  ℕ, String, Bool, not, ◌||◌, Option, none, some, [], ◌∷◌, ◌is◌, is_empty, strip, Field, py_str,
  if◌then◌else◌,
}
use k8s_ops_agent.Domain.{PlanStatus, RiskLevel, IncidentStatus, IncidentStatus-discrete, contains}
use k8s_ops_agent.Models.{Plan, Value}
use k8s_ops_agent.Session.{
  Error, Tx, pure, raise, ◌>>=◌, ◌>>◌, raise_if, audit, get_incident, advance_incident, add_plan,
  same,
}

-- The texts of the target, none where one is missing. Values that are no texts are left out, and so
-- are further entries of the object: `dry_run_plan` sets the workload before anything reads it.
pub record PlanTarget : Type 0 where
  pub namespace : Option String
  pub pod_name : Option String
  pub pod_uid : Option String

-- The body of the request; `target` is none where it is no object.
pub record PlanRequest : Type 0 where
  pub action_type : Field
  pub target : Option PlanTarget

abbrev pub restart_pod : String
restart_pod = "RESTART_CONTROLLER_MANAGED_POD"

-- `target.get(field, "")`
abbrev pub text_of : Option String → String
text_of none = ""
text_of (some s) = s

-- `not str(target.get(field, "")).strip()`
abbrev pub is_blank : Option String → Bool
is_blank f = is_empty (strip (text_of f))

unfoldable pub require_target : Option PlanTarget → Tx PlanTarget
require_target none = raise (Error.validation_error "target is required")
require_target (some t) =
    if is_blank t.namespace || is_blank t.pod_name || is_blank t.pod_uid
    then raise (Error.validation_error "target requires namespace, pod_name and pod_uid")
    else pure t

-- What is stored is the object of the request as it came, so its texts are not stripped.
unfoldable pub create_plan : ℕ → ℕ → PlanRequest → Tx Plan
unfolding require_target IncidentStatus-discrete
create_plan plan_id incident_id request = do
  let action_type = strip (py_str request.action_type)
  raise_if (not (action_type is restart_pod)) (Error.validation_error "unsupported action_type")
  target ← require_target request.target
  incident ← get_incident incident_id (Error.not_found_error "incident not found")
  raise_if (not (contains IncidentStatus-discrete incident.status (IncidentStatus.diagnosed ∷ [])))
      (Error.invalid_state_transition "incident must be DIAGNOSED before creating a plan")
  plan ← add_plan plan_id (record {
    incident_id = incident_id;
    action_type = action_type;
    target = record {
      namespace = text_of target.namespace;
      pod_name = text_of target.pod_name;
      pod_uid = text_of target.pod_uid;
      workload_kind = none;
      workload_name = none;
    };
    risk_level = RiskLevel.low;
    status = PlanStatus.draft;
    dry_run_result = none;
  })
  advance_incident incident_id IncidentStatus.plan_ready same
  audit "Plan" plan_id "plan.created" "USER" "anonymous"
      (("incident_id", Value.ref incident_id) ∷ ("action_type", Value.text action_type) ∷ [])
  pure plan
