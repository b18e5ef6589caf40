-- ===== src/Plans/Review.antt =====
-- `approve_plan` and `reject_plan` of app/ops_agent/services.py.
use k8s_ops_agent.Base.{ℕ, String, Bool, ◌&&◌, Option, none, some, List, [], ◌∷◌}
use k8s_ops_agent.Domain.{TaskStatus, TaskType, PlanStatus, IncidentStatus}
use k8s_ops_agent.Models.{Task, Plan, Value}
use k8s_ops_agent.Session.{
  Error, Tx, pure, ◌>>=◌, ◌>>◌, audit, advance_incident, advance_task, get_plan, advance_plan, same,
}
use k8s_ops_agent.Tasks.{find_task, finish_task, related_task, has_type}

-- The task that asks for the approval of a plan, in one of these states.
abbrev pub is_approval_of : ℕ → List TaskStatus → ℕ → Task → Bool
is_approval_of plan_id states k task =
    related_task "Plan" plan_id states k task && has_type TaskType.approval task

-- `comment or ""`
abbrev comment_text : Option String → String
comment_text none = ""
comment_text (some comment) = comment

unfoldable pub approve_plan : ℕ → String → Option String → Tx Plan
unfolding finish_task
approve_plan plan_id actor_id comment = do
  get_plan plan_id (Error.not_found_error "plan not found")
  advance_plan plan_id PlanStatus.approved same
  plan ← advance_plan plan_id PlanStatus.executable same
  approval_task ← find_task (is_approval_of plan_id (TaskStatus.todo ∷ TaskStatus.in_progress ∷ []))
  finish_task (TaskStatus.todo ∷ []) approval_task
  audit "Plan" plan_id "plan.approved" "USER" actor_id
      (("comment", Value.text (comment_text comment)) ∷ [])
  pure plan

unfoldable pub cancel_task : Option (ℕ × Task) → Tx (Unit {0})
cancel_task none = pure tt
cancel_task (some (k, _)) = do advance_task k TaskStatus.cancelled same; pure tt

unfoldable pub reject_plan : ℕ → String → Option String → Tx Plan
unfolding cancel_task
reject_plan plan_id actor_id comment = do
  get_plan plan_id (Error.not_found_error "plan not found")
  plan ← advance_plan plan_id PlanStatus.rejected same
  advance_incident plan.incident_id IncidentStatus.diagnosed same
  approval_task ←
      find_task (
        is_approval_of plan_id (TaskStatus.todo ∷ TaskStatus.in_progress ∷ TaskStatus.blocked ∷ []))
  cancel_task approval_task
  audit "Plan" plan_id "plan.rejected" "USER" actor_id
      (("comment", Value.text (comment_text comment)) ∷ [])
  pure plan
