-- ===== src/Executions/Creation.antt =====
-- `create_execution` of app/ops_agent/services.py. `idempotency_key` is unique in its table: the
-- database refuses a second row with it (IntegrityError), here as in models.py. What other workers
-- commit between the first look and the insertion is the argument `others`.
use k8s_ops_agent.Base.{
  ℕ, String, Bool, true, false, not, Option, none, some, [], ◌∷◌, ◌is◌, ◌==◌, is_empty, is_some,
  select, if◌then◌else◌,
}
use k8s_ops_agent.Domain.{PlanStatus, ExecutionStatus, PlanStatus-discrete, contains}
use k8s_ops_agent.Models.{Execution, Value, Db}
use k8s_ops_agent.Session.{
  Error, Result, ok, err, Tx, Action, pure, ◌>>=◌, ◌>>◌, begin, then_do, raise_if, audit,
  add_outbox, get_plan, add_execution,
}
use k8s_ops_agent.Domain.{OutboxStatus}

abbrev pub has_key : String → ℕ → Execution → Bool
has_key key k execution = execution.idempotency_key is key

-- `existing_execution()`
unfoldable pub existing_execution : ℕ → String → Tx (Option (ℕ × Execution))
existing_execution plan_id key d = elim (select (has_key key) d.executions) [
  | none ↦ ok (none, d)
  | some (k, execution) ↦
      if execution.plan_id == plan_id
      then ok (some (k, execution), d)
      else err (Error.validation_error "Idempotency-Key belongs to another plan")
]

-- `session.add(execution)` under the unique constraint.
unfoldable pub insert_execution : ℕ → Execution → Tx Execution
insert_execution k execution d =
    if is_some (select (has_key execution.idempotency_key) d.executions)
    then err Error.integrity_error
    else add_execution k execution d

-- The two ids and the time of an insertion.
pub record NewExecution : Type 0 where
  pub execution_id : ℕ
  pub event_id : ℕ
  pub now : ℕ

abbrev pub enqueue_execution : NewExecution → Bool → Tx (Unit {0})
enqueue_execution new enqueue =
    if enqueue
    then add_outbox new.event_id (record {
      topic = "execution.requested";
      aggregate_type = "Execution";
      aggregate_id = new.execution_id;
      status = OutboxStatus.pending;
      attempts = 0;
      available_at = new.now;
      published_at = none;
      last_error = none;
    })
    else pure tt

unfoldable pub create_tx : NewExecution → ℕ → String → String → Bool → Tx (ℕ × Execution)
unfolding PlanStatus-discrete
create_tx new plan_id key requested_by enqueue = do
  plan ← get_plan plan_id (Error.not_found_error "plan not found")
  raise_if (not (contains PlanStatus-discrete plan.status (PlanStatus.executable ∷ [])))
      (Error.invalid_state_transition "plan must be approved and executable")
  execution ← insert_execution new.execution_id (record {
    plan_id = plan_id;
    status = ExecutionStatus.prepared;
    idempotency_key = key;
    requested_by = requested_by;
    approved_by = some requested_by;
    approved_at = some new.now;
    started_at = none;
    finished_at = none;
    result = none;
    error = none;
    verification_result = none;
  })
  audit "Execution" new.execution_id "execution.created" "USER" requested_by
      (("plan_id", Value.ref plan_id) ∷ [])
  enqueue_execution new enqueue
  pure (new.execution_id, execution)

-- The second result says whether the execution was created by this call.
abbrev pub Created : Type 0
Created = (ℕ × Execution) × Bool

abbrev pub not_created : Error → Option (ℕ × Execution) → Action Created
not_created e none d = (err e, d)
not_created e (some existing) d = (ok (existing, false), d)

-- The `try` block: an IntegrityError sends it back to look for the row that another worker made.
abbrev pub after_insertion : ℕ → String → Result (ℕ × Execution) → Action Created
after_insertion plan_id key (ok created) d = (ok (created, true), d)
after_insertion plan_id key (err Error.integrity_error) d =
    then_do (begin (existing_execution plan_id key)) (not_created Error.integrity_error) d
after_insertion plan_id key (err e) d = (err e, d)

abbrev pub or_insert :
    (Db → Db) → NewExecution → ℕ → String → String → Bool → Option (ℕ × Execution) → Action Created
or_insert others new plan_id key requested_by enqueue (some existing) d = (ok (existing, false), d)
or_insert others new plan_id key requested_by enqueue none d =
    let (r, d') = begin (create_tx new plan_id key requested_by enqueue) (others d) in
    after_insertion plan_id key r d'

unfoldable pub create_execution :
    (Db → Db) → NewExecution → ℕ → String → String → Bool → Action Created
create_execution others new plan_id key requested_by enqueue d =
    if is_empty key
    then (err (Error.validation_error "Idempotency-Key is required"), d)
    else then_do (begin (existing_execution plan_id key))
        (or_insert others new plan_id key requested_by enqueue) d
