-- ===== src/Tasks.antt =====
-- The tasks of app/ops_agent/services.py: create_task, transition_task, and the way in which the
-- other services find and finish a task.
pub mod Evolution
use k8s_ops_agent.Base.{
  ℕ, ◌==◌, ltb, String, Bool, true, false, not, ◌&&◌, ◌||◌, Option, none, some, List, [], ◌∷◌, ◌is◌,
  is_empty, ite, count, select, strip, Field, py_str, if◌then◌else◌,
}
use k8s_ops_agent.Domain.{
  TaskStatus, TaskType, Priority, TaskType-discrete, TaskStatus-discrete, contains, task_value,
}
use k8s_ops_agent.Models.{Task, Value, Db}
use k8s_ops_agent.Session.{
  Error, ok, Tx, pure, raise, ◌>>=◌, ◌>>◌, raise_if, found, audit, get_incident, get_task, add_task,
  advance_task, same,
}

abbrev pub text_is : Option String → String → Bool
text_is none t = false
text_is (some s) t = s is t

abbrev pub id_is : Option ℕ → ℕ → Bool
id_is none k = false
id_is (some j) k = j == k

-- `related_entity_type == entity, related_entity_id == id, status.in_(states)`
unfoldable pub related_task : String → ℕ → List TaskStatus → ℕ → Task → Bool
unfolding TaskStatus-discrete
related_task entity id states k task =
    text_is task.related_entity_type entity
    && id_is task.related_entity_id id
    && contains TaskStatus-discrete task.status states

unfoldable pub has_type : TaskType → Task → Bool
unfolding TaskType-discrete
has_type type task = ite (TaskType-discrete task.task_type type) true false

-- `session.scalar(select(Task).where(…))`
unfoldable pub find_task : (ℕ → Task → Bool) → Tx (Option (ℕ × Task))
find_task fits d = ok (select fits d.tasks, d)

-- `if task: …`: a task that is in one of the states `first` is started, and then it is done.
unfoldable pub finish_task : List TaskStatus → Option (ℕ × Task) → Tx (Unit {0})
unfolding TaskStatus-discrete
finish_task first none = pure tt
finish_task first (some (k, task)) =
    if contains TaskStatus-discrete task.status first
    then (do
      advance_task k TaskStatus.in_progress same
      advance_task k TaskStatus.done same
      pure tt)
    else (do advance_task k TaskStatus.done same; pure tt)

-- The body of `POST /api/tasks`; a missing or null entry of the optional ones is none.
pub record TaskRequest : Type 0 where
  pub incident_id : Option ℕ  -- none where the text is blank
  pub title : Field
  pub task_type : Option TaskType  -- the enum's value, MANUAL_CHECK by default; none if there is none
  pub priority : Option Priority
  pub description : Option String
  pub assignee : Option String
  pub created_by : Option String
  pub approval_required : Bool
  pub related_entity_type : Option String
  pub related_entity_id : Option ℕ

-- `data.get("created_by") or "user"`
abbrev or_user : Option String → String
or_user none = "user"
or_user (some s) = if is_empty s then "user" else s

unfoldable pub create_task : ℕ → TaskRequest → Tx Task
create_task task_id request = do
  let title = strip (py_str request.title)
  incident_id ←
      found request.incident_id (Error.validation_error "incident_id and title are required")
  raise_if (is_empty title) (Error.validation_error "incident_id and title are required")
  raise_if (ltb 200 (count title)) (Error.validation_error "title exceeds max length of 200")
  task_type ← found request.task_type (Error.validation_error "invalid task_type or priority")
  priority ← found request.priority (Error.validation_error "invalid task_type or priority")
  get_incident incident_id (Error.not_found_error "incident not found")
  task ← add_task task_id (record {
    incident_id = incident_id;
    title = title;
    description = request.description;
    task_type = task_type;
    priority = priority;
    status = TaskStatus.todo;
    assignee = request.assignee;
    created_by = or_user request.created_by;
    approval_required = request.approval_required;
    related_entity_type = request.related_entity_type;
    related_entity_id = request.related_entity_id;
  })
  audit "Task" task_id "task.created" "USER" "anonymous"
      (("incident_id", Value.ref incident_id) ∷ [])
  pure task

-- `TaskStatus(status)`
abbrev pub parse_task_status : String → Option TaskStatus
parse_task_status s =
    if s is "TODO"
    then some TaskStatus.todo
    else if s is "IN_PROGRESS"
    then some TaskStatus.in_progress
    else if s is "BLOCKED"
    then some TaskStatus.blocked
    else if s is "DONE"
    then some TaskStatus.done
    else if s is "CANCELLED"
    then some TaskStatus.cancelled
    else none

unfoldable pub transition_task : ℕ → String → Tx Task
transition_task task_id status = do
  target ← found (parse_task_status status) (Error.validation_error "invalid task status")
  previous ← get_task task_id (Error.not_found_error "task not found")
  task ← advance_task task_id target same
  audit "Task" task_id "task.status_changed" "USER" "anonymous" (
      ("from", Value.text (task_value previous.status))
      ∷ ("to", Value.text (task_value target))
      ∷ [])
  pure task
