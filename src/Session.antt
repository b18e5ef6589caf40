-- ===== src/Session.antt =====
-- Transactions and sessions, as the services use them (`session_factory.begin()`, `session.get`,
-- `session.add`, and the pair `validate_transition(row.status, s); row.status = s`).
-- A transaction that raises is rolled back, so it returns no database. What the session holds in
-- memory is what a later statement of the transaction sees: a row is written where it is assigned.
pub mod Evolution
pub mod Keeps
pub mod Calls
pub mod Leaves
pub mod Retention
pub mod Aside
use k8s_ops_agent.Base.{
  ℕ, ◌+◌, String, Bool, true, false, Option, none, some, List, [], ◌∷◌, ◌++◌, Table, find, update,
  insert, if◌then◌else◌,
}
use k8s_ops_agent.Domain.{
  IncidentStatus, TaskStatus, PlanStatus, ExecutionStatus, AgentRunStatus, Status, Verdict,
  IncidentStatus-discrete, contains, validate_transition,
}
use k8s_ops_agent.Models.{
  Incident, Task, Plan, Execution, AgentRun, AuditEvent, OutboxEvent, Value, Db,
}

-- The exceptions that the services raise, and those that come up through them.
pub data Error : Type 0 where
  validation_error : String → Error
  not_found_error : String → Error
  policy_denied_error : String → Error
  invalid_state_transition : String → Error
  integrity_error : Error
  attribute_error : Error  -- an attribute of None
  external : String → String → Error  -- an exception of an adapter: its type and its text

pub data Result {ℓ} (A : Type ℓ) : Type ℓ where
  ok : A → Result A
  err : Error → Result A

-- The body of one transaction.
abbrev pub Tx : Type 0 → Type 0
Tx A = Db → Result (A × Db)

-- A call of a service: it commits as it goes, so the database comes back after a raise, too.
abbrev pub Action : Type 0 → Type 0
Action A = Db → Result A × Db

abbrev pub pure : {A : Type 0} → A → Tx A
pure a d = ok (a, d)

abbrev pub raise : {A : Type 0} → Error → Tx A
raise e d = err e

abbrev pub bound : {A B : Type 0} → Result (A × Db) → (A → Tx B) → Result (B × Db)
bound (ok (a, d)) f = f a d
bound (err e) f = err e

infixl 5 ◌>>=◌ ◌>>◌
abbrev pub ◌>>=◌ : {A B : Type 0} → Tx A → (A → Tx B) → Tx B
m >>= f = λ d. bound (m d) f

abbrev pub ◌>>◌ : {A B : Type 0} → Tx A → Tx B → Tx B
m >> k = m >>= λ _. k

-- A commit, or a rollback to the database before.
abbrev pub commit : {A : Type 0} → Db → Result (A × Db) → Result A × Db
commit d (ok (a, d')) = (ok a, d')
commit d (err e) = (err e, d)

-- `with session_factory.begin() as session: …`
abbrev pub begin : {A : Type 0} → Tx A → Action A
begin m d = commit d (m d)

abbrev pub proceed : {A B : Type 0} → Result A → (A → Action B) → Action B
proceed (ok a) f d = f a d
proceed (err e) f d = (err e, d)

-- One call after another.
abbrev pub then_do : {A B : Type 0} → Action A → (A → Action B) → Action B
then_do m f d = proceed (m d).0 f (m d).1

abbrev pub found : {A : Type 0} → Option A → Error → Tx A
found none e = raise e
found (some a) e = pure a

abbrev pub raise_if : Bool → Error → Tx (Unit {0})
raise_if b e d = if b then err e else ok (tt, d)

-- `session.add(AuditEvent(…))`
unfoldable pub add_audit : AuditEvent → Tx (Unit {0})
add_audit event d = ok (tt, record d { audits = d.audits ++ event ∷ [] })

-- `_audit(session, …)` with its default arguments written out.
abbrev pub audit : String → ℕ → String → String → String → List (String × Value) → Tx (Unit {0})
audit entity_type entity_id event_type actor_type actor_id payload = add_audit (record {
  entity_type = entity_type;
  entity_id = entity_id;
  event_type = event_type;
  actor_type = actor_type;
  actor_id = actor_id;
  payload = payload;
})

unfoldable pub add_outbox : ℕ → OutboxEvent → Tx (Unit {0})
add_outbox k event d = ok (tt, record d { outbox = insert k event d.outbox })

abbrev pub accept : Verdict → Tx (Unit {0})
accept Verdict.valid = pure tt
accept (Verdict.invalid message) = raise (Error.invalid_state_transition message)

-- `session.get(Incident, k)`, where the caller has the key from a row that refers to it.
unfoldable pub get_incident : ℕ → Error → Tx Incident
get_incident k missing d = found (find k d.incidents) missing d

unfoldable pub add_incident : ℕ → Incident → Tx Incident
add_incident k row d = ok (row, record d { incidents = insert k row d.incidents })

-- Assignments to fields other than the status.
unfoldable pub assign_incident : ℕ → (Incident → Incident) → Tx Incident
unfolding get_incident
assign_incident k f = do
  row ← get_incident k Error.attribute_error
  let new = record (f row) { status = row.status; version = row.version + 1 }
  λ d. ok (new, record d { incidents = update k new d.incidents })

-- `validate_transition(incident.status, target); incident.status = target`, and the assignments `f` that
-- stand with it.
unfoldable pub advance_incident : ℕ → IncidentStatus → (Incident → Incident) → Tx Incident
unfolding get_incident
advance_incident k target f = do
  row ← get_incident k Error.attribute_error
  accept (validate_transition (Status.incident row.status) (Status.incident target))
  let new = record (f row) { status = target; version = row.version + 1 }
  λ d. ok (new, record d { incidents = update k new d.incidents })

-- `session.get(Task, k)`, where the caller has the key from a row that refers to it.
unfoldable pub get_task : ℕ → Error → Tx Task
get_task k missing d = found (find k d.tasks) missing d

unfoldable pub add_task : ℕ → Task → Tx Task
add_task k row d = ok (row, record d { tasks = insert k row d.tasks })

-- Assignments to fields other than the status.
unfoldable pub assign_task : ℕ → (Task → Task) → Tx Task
unfolding get_task
assign_task k f = do
  row ← get_task k Error.attribute_error
  let new = record (f row) { status = row.status }
  λ d. ok (new, record d { tasks = update k new d.tasks })

-- `validate_transition(task.status, target); task.status = target`, and the assignments `f` that
-- stand with it.
unfoldable pub advance_task : ℕ → TaskStatus → (Task → Task) → Tx Task
unfolding get_task
advance_task k target f = do
  row ← get_task k Error.attribute_error
  accept (validate_transition (Status.task row.status) (Status.task target))
  let new = record (f row) { status = target }
  λ d. ok (new, record d { tasks = update k new d.tasks })

-- `session.get(Plan, k)`, where the caller has the key from a row that refers to it.
unfoldable pub get_plan : ℕ → Error → Tx Plan
get_plan k missing d = found (find k d.plans) missing d

unfoldable pub add_plan : ℕ → Plan → Tx Plan
add_plan k row d = ok (row, record d { plans = insert k row d.plans })

-- Assignments to fields other than the status.
unfoldable pub assign_plan : ℕ → (Plan → Plan) → Tx Plan
unfolding get_plan
assign_plan k f = do
  row ← get_plan k Error.attribute_error
  let new = record (f row) { status = row.status }
  λ d. ok (new, record d { plans = update k new d.plans })

-- `validate_transition(plan.status, target); plan.status = target`, and the assignments `f` that
-- stand with it.
unfoldable pub advance_plan : ℕ → PlanStatus → (Plan → Plan) → Tx Plan
unfolding get_plan
advance_plan k target f = do
  row ← get_plan k Error.attribute_error
  accept (validate_transition (Status.plan row.status) (Status.plan target))
  let new = record (f row) { status = target }
  λ d. ok (new, record d { plans = update k new d.plans })

-- `session.get(Execution, k)`, where the caller has the key from a row that refers to it.
unfoldable pub get_execution : ℕ → Error → Tx Execution
get_execution k missing d = found (find k d.executions) missing d

unfoldable pub add_execution : ℕ → Execution → Tx Execution
add_execution k row d = ok (row, record d { executions = insert k row d.executions })

-- Assignments to fields other than the status.
unfoldable pub assign_execution : ℕ → (Execution → Execution) → Tx Execution
unfolding get_execution
assign_execution k f = do
  row ← get_execution k Error.attribute_error
  let new = record (f row) { status = row.status }
  λ d. ok (new, record d { executions = update k new d.executions })

-- `validate_transition(execution.status, target); execution.status = target`, and the assignments `f` that
-- stand with it.
unfoldable pub advance_execution : ℕ → ExecutionStatus → (Execution → Execution) → Tx Execution
unfolding get_execution
advance_execution k target f = do
  row ← get_execution k Error.attribute_error
  accept (validate_transition (Status.execution row.status) (Status.execution target))
  let new = record (f row) { status = target }
  λ d. ok (new, record d { executions = update k new d.executions })

-- `session.get(AgentRun, k)`, where the caller has the key from a row that refers to it.
unfoldable pub get_agent_run : ℕ → Error → Tx AgentRun
get_agent_run k missing d = found (find k d.agent_runs) missing d

unfoldable pub add_agent_run : ℕ → AgentRun → Tx AgentRun
add_agent_run k row d = ok (row, record d { agent_runs = insert k row d.agent_runs })

-- Assignments to fields other than the status.
unfoldable pub assign_agent_run : ℕ → (AgentRun → AgentRun) → Tx AgentRun
unfolding get_agent_run
assign_agent_run k f = do
  row ← get_agent_run k Error.attribute_error
  let new = record (f row) { status = row.status }
  λ d. ok (new, record d { agent_runs = update k new d.agent_runs })

-- `validate_transition(agent_run.status, target); agent_run.status = target`, and the assignments `f` that
-- stand with it.
unfoldable pub advance_agent_run : ℕ → AgentRunStatus → (AgentRun → AgentRun) → Tx AgentRun
unfolding get_agent_run
advance_agent_run k target f = do
  row ← get_agent_run k Error.attribute_error
  accept (validate_transition (Status.agent_run row.status) (Status.agent_run target))
  let new = record (f row) { status = target }
  λ d. ok (new, record d { agent_runs = update k new d.agent_runs })

abbrev pub failed_incident : Incident → Incident
failed_incident row = record row { status = IncidentStatus.failed; version = row.version + 1 }

-- `if incident and incident.status in states: incident.status = IncidentStatus.FAILED`, which is
-- assigned without `validate_transition`.
unfoldable pub fail_incident_in : List IncidentStatus → ℕ → Tx (Unit {0})
unfolding IncidentStatus-discrete
fail_incident_in states k d = elim (find k d.incidents) [
  | none ↦ ok (tt, d)
  | some row ↦
      if contains IncidentStatus-discrete row.status states
      then ok (tt, record d { incidents = update k (failed_incident row) d.incidents })
      else ok (tt, d)
]

abbrev pub is_err {ℓ} : {A : Type ℓ} → Result A → Bool
is_err (ok a) = false
is_err (err e) = true

-- No further assignment.
abbrev pub same : {A : Type 0} → A → A
same a = a
