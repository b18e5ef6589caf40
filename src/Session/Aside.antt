-- ===== src/Session/Aside.antt =====
-- The steps of a transaction that leave the tables of `aside` as they are.
use k8s_ops_agent.Base.{ℕ, refl, Bool, List, inl, inr, Option-cases, Bool-cases, find}
use k8s_ops_agent.Domain.{
  IncidentStatus, TaskStatus, PlanStatus, ExecutionStatus, IncidentStatus-discrete, Status,
  validate_transition, contains,
}
use k8s_ops_agent.Models.{Incident, Task, Plan, Execution, AuditEvent}
use k8s_ops_agent.Session.{
  Error, pure, add_audit, get_incident, advance_incident, add_task, advance_task, get_plan,
  advance_plan, get_execution, assign_execution, advance_execution, fail_incident_in,
}
use k8s_ops_agent.Session.Keeps.{Verdict-cases}
use k8s_ops_agent.Session.Leaves.{
  Leaves, Leaves-pure, Leaves-found, Leaves-if, Leaves-bind, SameAfter,
}
use k8s_ops_agent.Tasks.{find_task}
use k8s_ops_agent.Session.Retention.{aside}

pub Aside-pure : {A : Type 0} (a : A) → Leaves aside (pure a)
Aside-pure a = Leaves-pure aside a

pub Aside-add_audit : (event : AuditEvent) → Leaves aside (add_audit event)
unfolding add_audit
Aside-add_audit event = record { at = λ d. refl }

pub Aside-add_task : (k : ℕ) (row : Task) → Leaves aside (add_task k row)
unfolding add_task
Aside-add_task k row = record { at = λ d. refl }

pub Aside-find_task : (fits : ℕ → Task → Bool) → Leaves aside (find_task fits)
unfolding find_task
Aside-find_task fits = record { at = λ d. refl }

pub Aside-get_incident : (k : ℕ) (e : Error) → Leaves aside (get_incident k e)
unfolding get_incident
Aside-get_incident k e = record { at = λ d. (Leaves-found aside (find k d.incidents) e).at d }

pub Aside-get_plan : (k : ℕ) (e : Error) → Leaves aside (get_plan k e)
unfolding get_plan
Aside-get_plan k e = record { at = λ d. (Leaves-found aside (find k d.plans) e).at d }

pub Aside-get_execution : (k : ℕ) (e : Error) → Leaves aside (get_execution k e)
unfolding get_execution
Aside-get_execution k e = record { at = λ d. (Leaves-found aside (find k d.executions) e).at d }

pub Aside-advance_incident :
    (k : ℕ) (target : IncidentStatus) (f : Incident → Incident)
    → Leaves aside (advance_incident k target f)
unfolding advance_incident
Aside-advance_incident k target f = record {
  at = λ d. elim (Option-cases (find k d.incidents)) [
    | inl e ↦ rw (e, SameAfter) tt
    | inr (row, e) ↦
        rw (e, SameAfter)
          (elim (Verdict-cases
            (validate_transition (Status.incident row.status) (Status.incident target))) [
              | inl allowed ↦ rw (allowed, SameAfter) refl
              | inr (message, refused) ↦ rw (refused, SameAfter) tt
            ])
  ];
}

pub Aside-advance_task :
    (k : ℕ) (target : TaskStatus) (f : Task → Task) → Leaves aside (advance_task k target f)
unfolding advance_task
Aside-advance_task k target f = record {
  at = λ d. elim (Option-cases (find k d.tasks)) [
    | inl e ↦ rw (e, SameAfter) tt
    | inr (row, e) ↦
        rw (e, SameAfter)
          (elim (Verdict-cases
            (validate_transition (Status.task row.status) (Status.task target))) [
              | inl allowed ↦ rw (allowed, SameAfter) refl
              | inr (message, refused) ↦ rw (refused, SameAfter) tt
            ])
  ];
}

pub Aside-advance_plan :
    (k : ℕ) (target : PlanStatus) (f : Plan → Plan) → Leaves aside (advance_plan k target f)
unfolding advance_plan
Aside-advance_plan k target f = record {
  at = λ d. elim (Option-cases (find k d.plans)) [
    | inl e ↦ rw (e, SameAfter) tt
    | inr (row, e) ↦
        rw (e, SameAfter)
          (elim (Verdict-cases
            (validate_transition (Status.plan row.status) (Status.plan target))) [
              | inl allowed ↦ rw (allowed, SameAfter) refl
              | inr (message, refused) ↦ rw (refused, SameAfter) tt
            ])
  ];
}

pub Aside-advance_execution :
    (k : ℕ) (target : ExecutionStatus) (f : Execution → Execution)
    → Leaves aside (advance_execution k target f)
unfolding advance_execution
Aside-advance_execution k target f = record {
  at = λ d. elim (Option-cases (find k d.executions)) [
    | inl e ↦ rw (e, SameAfter) tt
    | inr (row, e) ↦
        rw (e, SameAfter)
          (elim (Verdict-cases
            (validate_transition (Status.execution row.status) (Status.execution target))) [
              | inl allowed ↦ rw (allowed, SameAfter) refl
              | inr (message, refused) ↦ rw (refused, SameAfter) tt
            ])
  ];
}

pub Aside-assign_execution :
    (k : ℕ) (f : Execution → Execution) → Leaves aside (assign_execution k f)
unfolding assign_execution
Aside-assign_execution k f = record {
  at = λ d. elim (Option-cases (find k d.executions)) [
    | inl e ↦ rw (e, SameAfter) tt
    | inr (row, e) ↦ rw (e, SameAfter) refl
  ];
}

pub Aside-fail_incident_in :
    (states : List IncidentStatus) (k : ℕ) → Leaves aside (fail_incident_in states k)
unfolding fail_incident_in
Aside-fail_incident_in states k = record {
  at = λ d. elim (Option-cases (find k d.incidents)) [
    | inl e ↦ rw (e, SameAfter) refl
    | inr (row, e) ↦ elim (Bool-cases (contains IncidentStatus-discrete row.status states)) [
      | inl y ↦ rw (e, y, SameAfter) refl
      | inr n ↦ rw (e, n, SameAfter) refl
    ]
  ];
}

pub ruleset aside_rules = (
  Aside-pure, Leaves-if, Leaves-bind, Aside-add_audit, Aside-add_task, Aside-find_task,
  Aside-get_incident, Aside-get_plan, Aside-get_execution, Aside-advance_incident,
  Aside-advance_task, Aside-advance_plan, Aside-advance_execution, Aside-assign_execution,
  Aside-fail_incident_in,
)
