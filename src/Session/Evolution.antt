-- ===== src/Session/Evolution.antt =====
-- How a table of incidents, tasks, plans, executions or agent runs may change: no row of it
-- disappears, and every status moves along TRANSITIONS; and how the audit trail may: it only grows.
-- The other tables are in Retention.
use k8s_ops_agent.Base.{
  ℕ, ◌≡◌, refl, sym, some, List, [], ◌∷◌, ◌++◌, inl, inr, arith, ◌==◌, Bool-cases, Table, find,
  update, insert, find-update,
}
use mathlib.Core.List.{append_assoc, append-nil}
use mathlib.Core.Path.{subst}
use k8s_ops_agent.Domain.{Status}
use k8s_ops_agent.Domain.Paths.{Reach, here, Reach-trans}
use k8s_ops_agent.Models.{Incident, Task, Plan, Execution, AgentRun, AuditEvent, OutboxEvent, Db}

module _ {R S : Type 0} (kind : S → Status) (status : R → S) where
  -- Every row of `t` is still there in `u`, in a state that transitions lead to.
  pub record TableEvolves (t u : Table R) : Type 0 where
    pub row :
        (k : ℕ) (r : R)
        → find k t ≡ some r
        → (r' : R) × (find k u ≡ some r') × Reach kind (status r) (status r')

  pub TableEvolves-refl : (t : Table R) → TableEvolves t t
  TableEvolves-refl t = record { row = λ k r e. (r, e, here) }

  pub TableEvolves-trans :
      {t u v : Table R} → TableEvolves t u → TableEvolves u v → TableEvolves t v
  TableEvolves-trans a b = record {
    row = λ k r e.
        let (r', e', p) = a.row k r e in
        let (r'', e'', q) = b.row k r' e' in (r'', e'', Reach-trans kind p q);
  }

  -- A new row comes last, so it hides no older one.
  find-insert_old :
      (k j : ℕ) (v r : R) (t : Table R) → find j t ≡ some r → find j (insert k v t) ≡ some r
  unfolding find insert
  find-insert_old k j v r [] e = cc
  find-insert_old k j v r ((i, w) ∷ t) e = ground (arith, find-insert_old k j v r t)

  pub TableEvolves-insert : (k : ℕ) (v : R) (t : Table R) → TableEvolves t (insert k v t)
  TableEvolves-insert k v t = record { row = λ j r e. (r, find-insert_old k j v r t e, here) }

  update_row :
      (k j : ℕ) (v old r : R) (t : Table R)
      → find k t ≡ some old
      → Reach kind (status old) (status v)
      → find j t ≡ some r
      → (r' : R) × (find j (update k v t) ≡ some r') × Reach kind (status r) (status r')
  update_row k j v old r t e p h = elim (Bool-cases (j == k)) [
    | inl y ↦ (
      v,
      rw (find-update, y, e) refl,
      let same_row : old ≡ r = ground arith in
          subst (λ x. Reach kind (status x) (status v)) same_row p,
    )
    | inr n ↦ (r, rw (find-update, n) h, here)
  ]

  pub TableEvolves-update :
      (k : ℕ) (v old : R) (t : Table R)
      → find k t ≡ some old
      → Reach kind (status old) (status v)
      → TableEvolves t (update k v t)
  TableEvolves-update k v old t e p = record { row = λ j r h. update_row k j v old r t e p h }

abbrev pub IncidentsEvolve : Table Incident → Table Incident → Type 0
IncidentsEvolve = TableEvolves Status.incident (λ (r : Incident). r.status)

abbrev pub TasksEvolve : Table Task → Table Task → Type 0
TasksEvolve = TableEvolves Status.task (λ (r : Task). r.status)

abbrev pub PlansEvolve : Table Plan → Table Plan → Type 0
PlansEvolve = TableEvolves Status.plan (λ (r : Plan). r.status)

abbrev pub ExecutionsEvolve : Table Execution → Table Execution → Type 0
ExecutionsEvolve = TableEvolves Status.execution (λ (r : Execution). r.status)

abbrev pub AgentRunsEvolve : Table AgentRun → Table AgentRun → Type 0
AgentRunsEvolve = TableEvolves Status.agent_run (λ (r : AgentRun). r.status)

abbrev pub AuditsGrow : List AuditEvent → List AuditEvent → Type 0
AuditsGrow old all = (new : List AuditEvent) × (all ≡ old ++ new)

AuditsGrow-refl : (l : List AuditEvent) → AuditsGrow l l
AuditsGrow-refl l = ([], sym (append-nil l))

AuditsGrow-trans : (a b c : List AuditEvent) → AuditsGrow a b → AuditsGrow b c → AuditsGrow a c
AuditsGrow-trans a b c (new, e) (more, e') = (new ++ more, rw (e', e) (append_assoc a new more))

-- What may happen to these tables and to the audit trail in one transaction, or in several.
pub record Evolves (d e : Db) : Type 0 where
  pub incidents_evolve : IncidentsEvolve d.incidents e.incidents
  pub tasks_evolve : TasksEvolve d.tasks e.tasks
  pub plans_evolve : PlansEvolve d.plans e.plans
  pub executions_evolve : ExecutionsEvolve d.executions e.executions
  pub agent_runs_evolve : AgentRunsEvolve d.agent_runs e.agent_runs
  pub audits_grow : AuditsGrow d.audits e.audits

pub Evolves-refl : (d : Db) → Evolves d d
Evolves-refl d = record {
  incidents_evolve = TableEvolves-refl Status.incident (λ (r : Incident). r.status) d.incidents;
  tasks_evolve = TableEvolves-refl Status.task (λ (r : Task). r.status) d.tasks;
  plans_evolve = TableEvolves-refl Status.plan (λ (r : Plan). r.status) d.plans;
  executions_evolve = TableEvolves-refl Status.execution (λ (r : Execution). r.status) d.executions;
  agent_runs_evolve = TableEvolves-refl Status.agent_run (λ (r : AgentRun). r.status) d.agent_runs;
  audits_grow = AuditsGrow-refl d.audits;
}

pub Evolves-trans : {a b c : Db} → Evolves a b → Evolves b c → Evolves a c
Evolves-trans p q = record {
  incidents_evolve =
      TableEvolves-trans Status.incident (λ (r : Incident). r.status) p.incidents_evolve
        q.incidents_evolve;
  tasks_evolve =
      TableEvolves-trans Status.task (λ (r : Task). r.status) p.tasks_evolve q.tasks_evolve;
  plans_evolve =
      TableEvolves-trans Status.plan (λ (r : Plan). r.status) p.plans_evolve q.plans_evolve;
  executions_evolve =
      TableEvolves-trans Status.execution (λ (r : Execution). r.status) p.executions_evolve
        q.executions_evolve;
  agent_runs_evolve =
      TableEvolves-trans Status.agent_run (λ (r : AgentRun). r.status) p.agent_runs_evolve
        q.agent_runs_evolve;
  audits_grow = AuditsGrow-trans _ _ _ p.audits_grow q.audits_grow;
}

pub Evolves-audits :
    (d : Db) (t : List AuditEvent) → Evolves d (record d { audits = d.audits ++ t })
Evolves-audits d t =
    let e = Evolves-refl d in
    record {
      incidents_evolve = e.incidents_evolve;
      tasks_evolve = e.tasks_evolve;
      plans_evolve = e.plans_evolve;
      executions_evolve = e.executions_evolve;
      agent_runs_evolve = e.agent_runs_evolve;
      audits_grow = (t, refl);
    }

pub Evolves-outbox : (d : Db) (t : Table OutboxEvent) → Evolves d (record d { outbox = t })
Evolves-outbox d t =
    let e = Evolves-refl d in
    record {
      incidents_evolve = e.incidents_evolve;
      tasks_evolve = e.tasks_evolve;
      plans_evolve = e.plans_evolve;
      executions_evolve = e.executions_evolve;
      agent_runs_evolve = e.agent_runs_evolve;
      audits_grow = e.audits_grow;
    }

pub Evolves-incidents :
    (d : Db) (t : Table Incident)
    → IncidentsEvolve d.incidents t
    → Evolves d (record d { incidents = t })
Evolves-incidents d t h =
    let e = Evolves-refl d in
    record {
      incidents_evolve = h;
      tasks_evolve = e.tasks_evolve;
      plans_evolve = e.plans_evolve;
      executions_evolve = e.executions_evolve;
      agent_runs_evolve = e.agent_runs_evolve;
      audits_grow = e.audits_grow;
    }

pub Evolves-tasks :
    (d : Db) (t : Table Task) → TasksEvolve d.tasks t → Evolves d (record d { tasks = t })
Evolves-tasks d t h =
    let e = Evolves-refl d in
    record {
      incidents_evolve = e.incidents_evolve;
      tasks_evolve = h;
      plans_evolve = e.plans_evolve;
      executions_evolve = e.executions_evolve;
      agent_runs_evolve = e.agent_runs_evolve;
      audits_grow = e.audits_grow;
    }

pub Evolves-plans :
    (d : Db) (t : Table Plan) → PlansEvolve d.plans t → Evolves d (record d { plans = t })
Evolves-plans d t h =
    let e = Evolves-refl d in
    record {
      incidents_evolve = e.incidents_evolve;
      tasks_evolve = e.tasks_evolve;
      plans_evolve = h;
      executions_evolve = e.executions_evolve;
      agent_runs_evolve = e.agent_runs_evolve;
      audits_grow = e.audits_grow;
    }

pub Evolves-executions :
    (d : Db) (t : Table Execution)
    → ExecutionsEvolve d.executions t
    → Evolves d (record d { executions = t })
Evolves-executions d t h =
    let e = Evolves-refl d in
    record {
      incidents_evolve = e.incidents_evolve;
      tasks_evolve = e.tasks_evolve;
      plans_evolve = e.plans_evolve;
      executions_evolve = h;
      agent_runs_evolve = e.agent_runs_evolve;
      audits_grow = e.audits_grow;
    }

pub Evolves-agent_runs :
    (d : Db) (t : Table AgentRun)
    → AgentRunsEvolve d.agent_runs t
    → Evolves d (record d { agent_runs = t })
Evolves-agent_runs d t h =
    let e = Evolves-refl d in
    record {
      incidents_evolve = e.incidents_evolve;
      tasks_evolve = e.tasks_evolve;
      plans_evolve = e.plans_evolve;
      executions_evolve = e.executions_evolve;
      agent_runs_evolve = h;
      audits_grow = e.audits_grow;
    }
