-- ===== src/AgentRuns/Insertion.antt =====
-- The transactions of `create_agent_run` of app/ops_agent/services.py, and `cancel_agent_run`.
use k8s_ops_agent.Base.{
  ℕ, String, Bool, true, false, not, Option, none, some, [], ◌∷◌, ◌is◌, ◌==◌, is_empty, is_some,
  select, if◌then◌else◌,
}
use k8s_ops_agent.Domain.{AgentRunMode, AgentRunStatus, OutboxStatus}
use k8s_ops_agent.Json.{Number, Json, str, get}
use k8s_ops_agent.Evidence.Redaction.{Python}
use k8s_ops_agent.Models.{Incident, AgentRun, Budget, TargetSnapshot, Value, Db}
use k8s_ops_agent.Session.{
  Error, Result, ok, err, Tx, Action, pure, ◌>>=◌, ◌>>◌, begin, then_do, audit, add_outbox,
  get_incident, add_agent_run,
}
use k8s_ops_agent.AgentCore.Finish.{request_cancel}
use k8s_ops_agent.AgentRuns.Creation.{RunRequest, check_request}

abbrev has_text : Option String → String → Bool
has_text none t = false
has_text (some s) t = s is t

abbrev pub run_has_key : String → ℕ → AgentRun → Bool
run_has_key key k run = has_text run.idempotency_key key

-- `existing_run()`: without a key, or with an empty one, nothing is looked for.
unfoldable pub existing_run : ℕ → Option String → Tx (Option (ℕ × AgentRun))
existing_run incident_id none d = ok (none, d)
existing_run incident_id (some key) d =
    if is_empty key then ok (none, d) else elim (select (run_has_key key) d.agent_runs) [
      | none ↦ ok (none, d)
      | some (k, run) ↦
          if run.incident_id == incident_id
          then ok (some (k, run), d)
          else err (Error.validation_error "Idempotency-Key belongs to another incident")
    ]

abbrev pub is_taken : Option String → Db → Bool
is_taken none d = false
is_taken (some key) d = is_some (select (run_has_key key) d.agent_runs)

-- `session.add(run)` under the unique constraint, which counts no NULL.
unfoldable pub insert_run : ℕ → AgentRun → Tx AgentRun
insert_run k run d =
    if is_taken run.idempotency_key d then err Error.integrity_error else add_agent_run k run d

-- The two ids and the time of an insertion.
pub record NewRun : Type 0 where
  pub run_id : ℕ
  pub event_id : ℕ
  pub now : ℕ

abbrev text_in : Option Json → Option String
text_in none = none
text_in (some (str s)) = if is_empty s then none else some s
text_in (some v) = none

-- `source_context.get("resource_uid") or source_context.get("uid")`, which are texts.
abbrev uid_of : Option String → Option Json → Option String
uid_of none uid = text_in uid
uid_of (some s) uid = if is_empty s then text_in uid else some s

unfoldable pub target_of : Incident → TargetSnapshot
unfolding get
target_of incident = record {
  cluster = incident.cluster;
  namespace = incident.namespace;
  resource_kind = incident.resource_kind;
  resource_name = incident.resource_name;
  resource_uid = uid_of incident.resource_uid (get "uid" incident.source_context);
}

unfoldable pub new_run : RunRequest → AgentRunMode → String → Budget → Incident → AgentRun
unfolding target_of
new_run r mode goal limits incident = record {
  incident_id = r.incident_id;
  mode = mode;
  status = AgentRunStatus.queued;
  idempotency_key = r.idempotency_key;
  diagnosis = none;
  goal = goal;
  autonomy_level = "L2";
  target_snapshot = target_of incident;
  current_step = 0;
  tool_calls_used = 0;
  budget = limits;
  model_calls_used = 0;
  input_tokens_used = 0;
  output_tokens_used = 0;
  deadline_at = none;
  stop_reason = none;
  model_name = r.model_name;
  prompt_version = "agent-context-v1";
  cancel_requested_at = none;
  lease_owner = none;
  lease_expires_at = none;
  heartbeat_at = none;
  error = none;
  started_at = none;
  finished_at = none;
}

abbrev mode_value : AgentRunMode → String
mode_value AgentRunMode.diagnose_only = "DIAGNOSE_ONLY"

abbrev pub enqueue_run : NewRun → Bool → Tx (Unit {0})
enqueue_run new enqueue =
    if enqueue
    then add_outbox new.event_id (record {
      topic = "agent_run.requested";
      aggregate_type = "AgentRun";
      aggregate_id = new.run_id;
      status = OutboxStatus.pending;
      attempts = 0;
      available_at = new.now;
      published_at = none;
      last_error = none;
    })
    else pure tt

-- The run, with its id.
unfoldable pub create_run_tx :
    NewRun → RunRequest → (AgentRunMode × String) × Budget → Tx (ℕ × AgentRun)
unfolding get_incident insert_run new_run
create_run_tx new r ((mode, goal), limits) = do
  incident ← get_incident r.incident_id (Error.not_found_error "incident not found")
  run ← insert_run new.run_id (new_run r mode goal limits incident)
  audit "AgentRun" new.run_id "agent_run.created" "SYSTEM" "api" (
      ("mode", Value.text (mode_value mode))
      ∷ ("goal", Value.text goal)
      ∷ ("budget", Value.budget limits)
      ∷ [])
  enqueue_run new r.enqueue
  pure (new.run_id, run)

-- The second result says whether the run was created by this call.
abbrev pub RunCreated : Type 0
RunCreated = (ℕ × AgentRun) × Bool

abbrev pub run_not_created : Error → Option (ℕ × AgentRun) → Action RunCreated
run_not_created e none d = (err e, d)
run_not_created e (some existing) d = (ok (existing, false), d)

-- An IntegrityError sends the call back to look for the row that another worker made.
unfoldable pub after_run_insertion : RunRequest → Result (ℕ × AgentRun) → Action RunCreated
unfolding existing_run
after_run_insertion r (ok created) d = (ok (created, true), d)
after_run_insertion r (err Error.integrity_error) d =
    then_do (begin (existing_run r.incident_id r.idempotency_key))
      (run_not_created Error.integrity_error) d
after_run_insertion r (err e) d = (err e, d)

unfoldable pub or_create :
    (Db → Db)
    → NewRun
    → RunRequest
    → (AgentRunMode × String) × Budget
    → Option (ℕ × AgentRun)
    → Action RunCreated
unfolding create_run_tx after_run_insertion
or_create others new r checked (some existing) d = (ok (existing, false), d)
or_create others new r checked none d =
    after_run_insertion r (begin (create_run_tx new r checked) (others d)).0
      (begin (create_run_tx new r checked) (others d)).1

abbrev pub with_request :
    Result ((AgentRunMode × String) × Budget)
    → ((AgentRunMode × String) × Budget → Action RunCreated)
    → Action RunCreated
with_request (ok checked) f d = f checked d
with_request (err e) f d = (err e, d)

-- `create_agent_run`
unfoldable pub create_agent_run :
    (Number → Option ℕ) → (Db → Db) → NewRun → RunRequest → Action RunCreated
unfolding check_request existing_run or_create
create_agent_run natural others new r = with_request (check_request natural r) (λ checked.
    then_do (begin (existing_run r.incident_id r.idempotency_key)) (or_create others new r checked))

-- A LookupError of the agent core, by the name of its type.
abbrev not_found : Result AgentRun → Result AgentRun
not_found (err (Error.external kind message)) =
    if kind is "LookupError"
    then err (Error.not_found_error "agent run not found")
    else err (Error.external kind message)
not_found r = r

-- `cancel_agent_run`, where the agent core is on or off.
unfoldable pub cancel_agent_run : Python → Bool → ℕ → ℕ → Action AgentRun
unfolding request_cancel
cancel_agent_run python agent_core_enabled now run_id d =
    if not agent_core_enabled
    then (err (Error.validation_error "agent run cancellation requires Agent Core"), d)
    else (
      not_found (begin (request_cancel python now run_id) d).0,
      (begin (request_cancel python now run_id) d).1,
    )
