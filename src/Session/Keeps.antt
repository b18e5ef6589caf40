-- ===== src/Session/Keeps.antt =====
-- The building blocks of a transaction change the database only as `Evolves` allows, and so does
-- every `do` block of them.
use k8s_ops_agent.Base.{
  ℕ, ◌≡◌, refl, ◌⊎◌, String, Bool, true, false, Option, none, some, inl, inr, Option-cases, find,
  if◌then◌else◌,
}
use k8s_ops_agent.Domain.{
  IncidentStatus, TaskStatus, PlanStatus, ExecutionStatus, AgentRunStatus, Status, Verdict,
  validate_transition,
}
use k8s_ops_agent.Domain.Paths.{here, next}
use k8s_ops_agent.Models.{Incident, Task, Plan, Execution, AgentRun, AuditEvent, OutboxEvent, Db}
use k8s_ops_agent.Session.{
  Error, Result, ok, err, Tx, pure, raise, ◌>>=◌, bound, found, raise_if, accept, add_audit,
  add_outbox, get_incident, add_incident, assign_incident, advance_incident, get_task, add_task,
  assign_task, advance_task, get_plan, add_plan, assign_plan, advance_plan, get_execution,
  add_execution, assign_execution, advance_execution, get_agent_run, add_agent_run,
  assign_agent_run, advance_agent_run,
}
use k8s_ops_agent.Session.Evolution.{
  TableEvolves-insert, TableEvolves-update, Evolves, Evolves-refl, Evolves-trans, Evolves-audits,
  Evolves-outbox, Evolves-incidents, Evolves-tasks, Evolves-plans, Evolves-executions,
  Evolves-agent_runs,
}

-- A transaction that commits has changed the database as `Evolves` allows.
abbrev pub Commits : {A : Type 0} → Db → Result (A × Db) → Type 0
Commits d (ok (_, e)) = Evolves d e
Commits d (err _) = Unit

pub record Keeps {A : Type 0} (m : Tx A) : Type 0 where
  pub at : (d : Db) → Commits d (m d)

module _ {A : Type 0} where
  pub Keeps-pure : (a : A) → Keeps (pure a)
  Keeps-pure a = record { at = Evolves-refl }

  pub Keeps-raise : (e : Error) → Keeps {A = A} (raise e)
  Keeps-raise e = record { at = λ d. tt }

  pub Keeps-found : (o : Option A) (e : Error) → Keeps (found o e)
  Keeps-found none e = Keeps-raise e
  Keeps-found (some a) e = Keeps-pure a

  pub Keeps-if : (b : Bool) (m n : Tx A) → Keeps m → Keeps n → Keeps (if b then m else n)
  Keeps-if true m n km kn = km
  Keeps-if false m n km kn = kn

pub Keeps-raise_if : (b : Bool) (e : Error) → Keeps (raise_if b e)
Keeps-raise_if true e = record { at = λ d. tt }
Keeps-raise_if false e = record { at = Evolves-refl }

pub Verdict-cases : (v : Verdict) → (v ≡ Verdict.valid) ⊎ ((s : String) × (v ≡ Verdict.invalid s))
Verdict-cases Verdict.valid = inl refl
Verdict-cases (Verdict.invalid s) = inr (s, refl)

pub Keeps-accept : (v : Verdict) → Keeps (accept v)
Keeps-accept Verdict.valid = Keeps-pure tt
Keeps-accept (Verdict.invalid s) = Keeps-raise (Error.invalid_state_transition s)

module _ {A B : Type 0} where
  bind_result :
      (d : Db) (r : Result (A × Db)) (f : A → Tx B)
      → Commits d r
      → ((a : A) → Keeps (f a))
      → Commits d (bound r f)
  bind_result d (ok (a, d')) f h kf = then_result (f a d') ((kf a).at d')
    where
      then_result : (r : Result (B × Db)) → Commits d' r → Commits d r
      then_result (ok (b, d'')) k = Evolves-trans h k
      then_result (err e) k = tt
  bind_result d (err e) f h kf = tt

  pub Keeps-bind : (m : Tx A) (f : A → Tx B) → Keeps m → ((a : A) → Keeps (f a)) → Keeps (m >>= f)
  Keeps-bind m f km kf = record { at = λ d. bind_result d (m d) f (km.at d) kf }

pub Keeps-add_audit : (event : AuditEvent) → Keeps (add_audit event)
unfolding add_audit
Keeps-add_audit event = record { at = λ d. Evolves-audits d _ }

pub Keeps-add_outbox : (k : ℕ) (event : OutboxEvent) → Keeps (add_outbox k event)
unfolding add_outbox
Keeps-add_outbox k event = record { at = λ d. Evolves-outbox d _ }

pub Keeps-get_incident : (k : ℕ) (e : Error) → Keeps (get_incident k e)
unfolding get_incident
Keeps-get_incident k e = record { at = λ d. (Keeps-found (find k d.incidents) e).at d }

pub Keeps-add_incident : (k : ℕ) (row : Incident) → Keeps (add_incident k row)
unfolding add_incident
Keeps-add_incident k row = record {
  at = λ d.
      Evolves-incidents d _
        (TableEvolves-insert Status.incident (λ (r : Incident). r.status) k row d.incidents);
}

pub Keeps-assign_incident : (k : ℕ) (f : Incident → Incident) → Keeps (assign_incident k f)
unfolding assign_incident
Keeps-assign_incident k f = record {
  at = λ d. elim (Option-cases (find k d.incidents)) [
    | inl e ↦ rw (e, Commits) tt
    | inr (row, e) ↦
        rw (e, Commits)
          (Evolves-incidents d _ (
            TableEvolves-update Status.incident (λ (r : Incident). r.status) k _ row d.incidents e
              here))
  ];
}

pub Keeps-advance_incident :
    (k : ℕ) (target : IncidentStatus) (f : Incident → Incident)
    → Keeps (advance_incident k target f)
unfolding advance_incident
Keeps-advance_incident k target f = record {
  at = λ d. elim (Option-cases (find k d.incidents)) [
    | inl e ↦ rw (e, Commits) tt
    | inr (row, e) ↦
        rw (e, Commits)
          (elim (Verdict-cases
            (validate_transition (Status.incident row.status) (Status.incident target))) [
              | inl allowed ↦
                  rw (allowed, Commits)
                    (Evolves-incidents d _ (
                      TableEvolves-update Status.incident (λ (r : Incident). r.status) k _ row
                        d.incidents e (next _ _ here allowed)))
              | inr (message, refused) ↦ rw (refused, Commits) tt
            ])
  ];
}

pub Keeps-get_task : (k : ℕ) (e : Error) → Keeps (get_task k e)
unfolding get_task
Keeps-get_task k e = record { at = λ d. (Keeps-found (find k d.tasks) e).at d }

pub Keeps-add_task : (k : ℕ) (row : Task) → Keeps (add_task k row)
unfolding add_task
Keeps-add_task k row = record {
  at = λ d.
      Evolves-tasks d _ (TableEvolves-insert Status.task (λ (r : Task). r.status) k row d.tasks);
}

pub Keeps-assign_task : (k : ℕ) (f : Task → Task) → Keeps (assign_task k f)
unfolding assign_task
Keeps-assign_task k f = record {
  at = λ d. elim (Option-cases (find k d.tasks)) [
    | inl e ↦ rw (e, Commits) tt
    | inr (row, e) ↦
        rw (e, Commits)
          (Evolves-tasks d _
            (TableEvolves-update Status.task (λ (r : Task). r.status) k _ row d.tasks e here))
  ];
}

pub Keeps-advance_task :
    (k : ℕ) (target : TaskStatus) (f : Task → Task) → Keeps (advance_task k target f)
unfolding advance_task
Keeps-advance_task k target f = record {
  at = λ d. elim (Option-cases (find k d.tasks)) [
    | inl e ↦ rw (e, Commits) tt
    | inr (row, e) ↦
        rw (e, Commits)
          (elim (Verdict-cases
            (validate_transition (Status.task row.status) (Status.task target))) [
              | inl allowed ↦
                  rw (allowed, Commits)
                    (Evolves-tasks d _ (
                      TableEvolves-update Status.task (λ (r : Task). r.status) k _ row d.tasks e
                        (next _ _ here allowed)))
              | inr (message, refused) ↦ rw (refused, Commits) tt
            ])
  ];
}

pub Keeps-get_plan : (k : ℕ) (e : Error) → Keeps (get_plan k e)
unfolding get_plan
Keeps-get_plan k e = record { at = λ d. (Keeps-found (find k d.plans) e).at d }

pub Keeps-add_plan : (k : ℕ) (row : Plan) → Keeps (add_plan k row)
unfolding add_plan
Keeps-add_plan k row = record {
  at = λ d.
      Evolves-plans d _ (TableEvolves-insert Status.plan (λ (r : Plan). r.status) k row d.plans);
}

pub Keeps-assign_plan : (k : ℕ) (f : Plan → Plan) → Keeps (assign_plan k f)
unfolding assign_plan
Keeps-assign_plan k f = record {
  at = λ d. elim (Option-cases (find k d.plans)) [
    | inl e ↦ rw (e, Commits) tt
    | inr (row, e) ↦
        rw (e, Commits)
          (Evolves-plans d _
            (TableEvolves-update Status.plan (λ (r : Plan). r.status) k _ row d.plans e here))
  ];
}

pub Keeps-advance_plan :
    (k : ℕ) (target : PlanStatus) (f : Plan → Plan) → Keeps (advance_plan k target f)
unfolding advance_plan
Keeps-advance_plan k target f = record {
  at = λ d. elim (Option-cases (find k d.plans)) [
    | inl e ↦ rw (e, Commits) tt
    | inr (row, e) ↦
        rw (e, Commits)
          (elim (Verdict-cases
            (validate_transition (Status.plan row.status) (Status.plan target))) [
              | inl allowed ↦
                  rw (allowed, Commits)
                    (Evolves-plans d _ (
                      TableEvolves-update Status.plan (λ (r : Plan). r.status) k _ row d.plans e
                        (next _ _ here allowed)))
              | inr (message, refused) ↦ rw (refused, Commits) tt
            ])
  ];
}

pub Keeps-get_execution : (k : ℕ) (e : Error) → Keeps (get_execution k e)
unfolding get_execution
Keeps-get_execution k e = record { at = λ d. (Keeps-found (find k d.executions) e).at d }

pub Keeps-add_execution : (k : ℕ) (row : Execution) → Keeps (add_execution k row)
unfolding add_execution
Keeps-add_execution k row = record {
  at = λ d.
      Evolves-executions d _
        (TableEvolves-insert Status.execution (λ (r : Execution). r.status) k row d.executions);
}

pub Keeps-assign_execution : (k : ℕ) (f : Execution → Execution) → Keeps (assign_execution k f)
unfolding assign_execution
Keeps-assign_execution k f = record {
  at = λ d. elim (Option-cases (find k d.executions)) [
    | inl e ↦ rw (e, Commits) tt
    | inr (row, e) ↦
        rw (e, Commits)
          (Evolves-executions d _ (
            TableEvolves-update Status.execution (λ (r : Execution). r.status) k _ row d.executions
              e here))
  ];
}

pub Keeps-advance_execution :
    (k : ℕ) (target : ExecutionStatus) (f : Execution → Execution)
    → Keeps (advance_execution k target f)
unfolding advance_execution
Keeps-advance_execution k target f = record {
  at = λ d. elim (Option-cases (find k d.executions)) [
    | inl e ↦ rw (e, Commits) tt
    | inr (row, e) ↦
        rw (e, Commits)
          (elim (Verdict-cases
            (validate_transition (Status.execution row.status) (Status.execution target))) [
              | inl allowed ↦
                  rw (allowed, Commits)
                    (Evolves-executions d _ (
                      TableEvolves-update Status.execution (λ (r : Execution). r.status) k _ row
                        d.executions e (next _ _ here allowed)))
              | inr (message, refused) ↦ rw (refused, Commits) tt
            ])
  ];
}

pub Keeps-get_agent_run : (k : ℕ) (e : Error) → Keeps (get_agent_run k e)
unfolding get_agent_run
Keeps-get_agent_run k e = record { at = λ d. (Keeps-found (find k d.agent_runs) e).at d }

pub Keeps-add_agent_run : (k : ℕ) (row : AgentRun) → Keeps (add_agent_run k row)
unfolding add_agent_run
Keeps-add_agent_run k row = record {
  at = λ d.
      Evolves-agent_runs d _
        (TableEvolves-insert Status.agent_run (λ (r : AgentRun). r.status) k row d.agent_runs);
}

pub Keeps-assign_agent_run : (k : ℕ) (f : AgentRun → AgentRun) → Keeps (assign_agent_run k f)
unfolding assign_agent_run
Keeps-assign_agent_run k f = record {
  at = λ d. elim (Option-cases (find k d.agent_runs)) [
    | inl e ↦ rw (e, Commits) tt
    | inr (row, e) ↦
        rw (e, Commits)
          (Evolves-agent_runs d _ (
            TableEvolves-update Status.agent_run (λ (r : AgentRun). r.status) k _ row d.agent_runs e
              here))
  ];
}

pub Keeps-advance_agent_run :
    (k : ℕ) (target : AgentRunStatus) (f : AgentRun → AgentRun)
    → Keeps (advance_agent_run k target f)
unfolding advance_agent_run
Keeps-advance_agent_run k target f = record {
  at = λ d. elim (Option-cases (find k d.agent_runs)) [
    | inl e ↦ rw (e, Commits) tt
    | inr (row, e) ↦
        rw (e, Commits)
          (elim (Verdict-cases
            (validate_transition (Status.agent_run row.status) (Status.agent_run target))) [
              | inl allowed ↦
                  rw (allowed, Commits)
                    (Evolves-agent_runs d _ (
                      TableEvolves-update Status.agent_run (λ (r : AgentRun). r.status) k _ row
                        d.agent_runs e (next _ _ here allowed)))
              | inr (message, refused) ↦ rw (refused, Commits) tt
            ])
  ];
}

pub ruleset keeps_rules = (
  Keeps-pure, Keeps-raise, Keeps-raise_if, Keeps-if, Keeps-found, Keeps-accept, Keeps-bind,
  Keeps-add_audit, Keeps-add_outbox, Keeps-get_incident, Keeps-add_incident, Keeps-assign_incident,
  Keeps-advance_incident, Keeps-get_task, Keeps-add_task, Keeps-assign_task, Keeps-advance_task,
  Keeps-get_plan, Keeps-add_plan, Keeps-assign_plan, Keeps-advance_plan, Keeps-get_execution,
  Keeps-add_execution, Keeps-assign_execution, Keeps-advance_execution, Keeps-get_agent_run,
  Keeps-add_agent_run, Keeps-assign_agent_run, Keeps-advance_agent_run,
)
