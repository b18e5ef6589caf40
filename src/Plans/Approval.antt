-- ===== src/Plans/Approval.antt =====
-- What `approve_plan` and `reject_plan` do, and when.
use mathlib.Core.Logic.{◌⊎◌}
use k8s_ops_agent.Base.{
  ℕ, ◌+◌, ◌≡◌, ◌≢◌, String, true, false, Option, some, [], ◌∷◌, arith, find, update, select,
  find-update_self,
}
use k8s_ops_agent.Domain.{PlanStatus, IncidentStatus, TaskStatus, validate_transition}
use k8s_ops_agent.Models.{Incident, Task, Plan, Db}
use k8s_ops_agent.Session.{
  is_err, begin, get_plan, advance_plan, advance_incident, advance_task, add_audit,
}
use k8s_ops_agent.Tasks.{find_task}
use k8s_ops_agent.Plans.Review.{is_approval_of, approve_plan, reject_plan, cancel_task}

-- A plan is approved or rejected only while it waits for its approval: in any other state both
-- calls raise, and nothing is written.
pub review_needs_waiting :
    (k : ℕ) (actor : String) (comment : Option String) (d : Db) (p : Plan)
    → find k d.plans ≡ some p
    → p.status ≢ PlanStatus.awaiting_approval
    → ((begin (approve_plan k actor comment) d).1 ≡ d)
      × ((begin (reject_plan k actor comment) d).1 ≡ d)
      × (is_err (begin (approve_plan k actor comment) d).0 ≡ true)
      × (is_err (begin (reject_plan k actor comment) d).0 ≡ true)
unfolding approve_plan reject_plan get_plan advance_plan validate_transition
review_needs_waiting k actor comment d p h n =
    (ground arith, ground arith, ground arith, ground arith)

module _ (k : ℕ) (actor : String) (comment : Option String) (d : Db) (p : Plan)
    (has_p : find k d.plans ≡ some p) (waiting : p.status ≡ PlanStatus.awaiting_approval) where
  -- The approval of a plan that is AWAITING_APPROVAL, where a task that is still TODO or IN_PROGRESS
  -- asked for it, returns. It makes the plan EXECUTABLE and the task DONE, and touches no incident.
  pub approve_plan_outcome :
      (j : ℕ) (t : Task)
      → select (is_approval_of k (TaskStatus.todo ∷ TaskStatus.in_progress ∷ [])) d.tasks
        ≡ some (j, t)
      → find j d.tasks ≡ some t
      → (t.status ≡ TaskStatus.todo) ⊎ (t.status ≡ TaskStatus.in_progress)
      → let (r, e) = begin (approve_plan k actor comment) d in
        (is_err r ≡ false)
        × (find k e.plans ≡ some (record p { status = PlanStatus.executable }))
        × (find j e.tasks ≡ some (record t { status = TaskStatus.done }))
        × (e.incidents ≡ d.incidents)
  unfolding approve_plan get_plan advance_plan advance_task add_audit find_task validate_transition
  approve_plan_outcome j t sel has_t is_open =
      let q = λ (s : PlanStatus). record p { status = s } in
      let u = λ (s : TaskStatus). record t { status = s } in
      let first = find-update_self k (q PlanStatus.approved) p d.plans has_p in
      let second =
        find-update_self k (q PlanStatus.executable) (q PlanStatus.approved)
          (update k (q PlanStatus.approved) d.plans) first in
      let begun = find-update_self j (u TaskStatus.in_progress) t d.tasks has_t in
      let done =
        find-update_self j (u TaskStatus.done) (u TaskStatus.in_progress)
          (update j (u TaskStatus.in_progress) d.tasks) begun in
      let at_once = find-update_self j (u TaskStatus.done) t d.tasks has_t in
      (
        ground (arith, first, second, begun, done, at_once, sel),
        ground (arith, first, second, begun, done, at_once, sel),
        ground (arith, first, second, begun, done, at_once, sel),
        ground (arith, first, second, begun, done, at_once, sel),
      )

  -- The rejection of a plan that is AWAITING_APPROVAL, as its incident is, where a task that is
  -- neither DONE nor CANCELLED asked for the approval, returns. It makes the plan REJECTED and the
  -- task CANCELLED, and sends the incident back to DIAGNOSED, with the next version.
  pub reject_plan_outcome :
      (j : ℕ) (t : Task) (i : Incident)
      → find p.incident_id d.incidents ≡ some i
      → i.status ≡ IncidentStatus.awaiting_approval
      → select
          (is_approval_of k (TaskStatus.todo ∷ TaskStatus.in_progress ∷ TaskStatus.blocked ∷ []))
          d.tasks
        ≡ some (j, t)
      → find j d.tasks ≡ some t
      → (t.status ≢ TaskStatus.done) × (t.status ≢ TaskStatus.cancelled)
      → let (r, e) = begin (reject_plan k actor comment) d in
        (is_err r ≡ false)
        × (find k e.plans ≡ some (record p { status = PlanStatus.rejected }))
        × (find j e.tasks ≡ some (record t { status = TaskStatus.cancelled }))
        × (find p.incident_id e.incidents
            ≡ some (record i { status = IncidentStatus.diagnosed; version = i.version + 1 }))
  unfolding reject_plan get_plan advance_plan advance_incident advance_task add_audit find_task
      cancel_task validate_transition
  reject_plan_outcome j t i has_i i_waiting sel has_t is_open =
      let ps = find-update_self k (record p { status = PlanStatus.rejected }) p d.plans has_p in
      let ts = find-update_self j (record t { status = TaskStatus.cancelled }) t d.tasks has_t in
      let is =
        find-update_self p.incident_id
          (record i { status = IncidentStatus.diagnosed; version = i.version + 1 }) i d.incidents
          has_i in
      (
        ground (arith, ps, ts, is, sel),
        ground (arith, ps, ts, is, sel),
        ground (arith, ps, ts, is, sel),
        ground (arith, ps, ts, is, sel),
      )
