-- ===== src/Executions/Evolution.antt =====
-- The operations on executions change the database only as `Evolves` allows, also where other
-- workers commit while the cluster is asked.
use k8s_ops_agent.Base.{
  ℕ, ◌≡◌, String, true, Option, none, some, List, [], ◌∷◌, inl, inr, arith, Option-cases,
  Bool-cases, find,
}
use k8s_ops_agent.Domain.{
  ExecutionStatus, IncidentStatus, IncidentStatus-discrete, validate_transition, Status, contains,
  Verdict,
}
use k8s_ops_agent.Domain.Paths.{here, next}
use k8s_ops_agent.Models.{Task, Target, Deletion, Verification, Incident, Execution, Db}
use k8s_ops_agent.Adapters.{Call, returned, raised}
use k8s_ops_agent.Session.{Result, ok, err, fail_incident_in}
use k8s_ops_agent.Session.Evolution.{
  Evolves, Evolves-refl, Evolves-trans, Evolves-incidents, TableEvolves-update,
}
use k8s_ops_agent.Session.Keeps.{Commits, Keeps, Keeps-pure, keeps_rules}
use k8s_ops_agent.Session.Calls.{Runs, Runs-begin, Runs-then_do}
use k8s_ops_agent.Session.Retention.{Retains}
use k8s_ops_agent.Executions.Retention.{IsRetaining, process_execution_job-Retains}
use k8s_ops_agent.Tasks.Evolution.{Keeps-find_task}
use k8s_ops_agent.Executions.Processing.{
  Cluster, start_tx, failed_tx, succeeded_tx, verified_tx, unverified_tx, finish_tx, verify,
  verdict_of, after_delete, act, process_execution,
}
use k8s_ops_agent.Executions.Failure.{
  fail_execution, fail_status, fail_incident, add_review, incident_of,
}
use k8s_ops_agent.Executions.Job.{process_execution_job, on_failure}

abbrev active : List IncidentStatus
active = IncidentStatus.remediating ∷ IncidentStatus.verifying ∷ []

-- What `fail_execution` assigns without a check is an allowed transition.
active_may_fail :
    (s : IncidentStatus)
    → contains IncidentStatus-discrete s active ≡ true
    → validate_transition (Status.incident s) (Status.incident IncidentStatus.failed)
      ≡ Verdict.valid
unfolding validate_transition
active_may_fail s h = ground arith

Keeps-fail_incident_in : (k : ℕ) → Keeps (fail_incident_in active k)
unfolding fail_incident_in
Keeps-fail_incident_in k = record {
  at = λ d. elim (Option-cases (find k d.incidents)) [
    | inl e ↦ rw (e, Commits) (Evolves-refl d)
    | inr (row, e) ↦ elim (Bool-cases (contains IncidentStatus-discrete row.status active)) [
      | inl y ↦
          rw (e, y, Commits)
            (Evolves-incidents d _ (
              TableEvolves-update Status.incident (λ (r : Incident). r.status) k _ row d.incidents e
                (next _ _ here (active_may_fail row.status y))))
      | inr n ↦ rw (e, n, Commits) (Evolves-refl d)
    ]
  ];
}

Keeps-fail_incident : (o : Option ℕ) → Keeps (fail_incident o)
Keeps-fail_incident none = Keeps-pure tt
Keeps-fail_incident (some k) = Keeps-fail_incident_in k

Keeps-fail_status :
    (k : ℕ) (o : Option ExecutionStatus) (f : Execution → Execution) → Keeps (fail_status k o f)
Keeps-fail_status k none f = search keeps_rules
Keeps-fail_status k (some s) f = search keeps_rules

Keeps-incident_of : (k : ℕ) → Keeps (incident_of k)
unfolding incident_of
Keeps-incident_of k = record {
  at = λ d. elim (Option-cases (find k d.plans)) [
    | inl e ↦ rw (e, Commits) (Evolves-refl d)
    | inr (plan, e) ↦ elim (Option-cases (find plan.incident_id d.incidents)) [
      | inl e' ↦ rw (e, e', Commits) (Evolves-refl d)
      | inr (i, e') ↦ rw (e, e', Commits) (Evolves-refl d)
    ]
  ];
}

Keeps-add_review : (t k : ℕ) (i : Option ℕ) (o : Option (ℕ × Task)) → Keeps (add_review t k i o)
Keeps-add_review t k none o = Keeps-pure tt
Keeps-add_review t k (some i) (some x) = Keeps-pure tt
Keeps-add_review t k (some i) none = search keeps_rules

pub Keeps-fail_execution : (t now k : ℕ) (e : String) → Keeps (fail_execution t now k e)
unfolding fail_execution
Keeps-fail_execution t now k e =
    search
      (
        keeps_rules, Keeps-find_task, Keeps-incident_of, Keeps-fail_status, Keeps-fail_incident,
        Keeps-add_review,
      )
      depth 30

Keeps-start_tx : (now k : ℕ) → Keeps (start_tx now k)
unfolding start_tx
Keeps-start_tx now k = search keeps_rules depth 30

Keeps-failed_tx : (c : Cluster) (k : ℕ) (e : String) → Keeps (failed_tx c k e)
unfolding failed_tx
Keeps-failed_tx c k e = search keeps_rules depth 30

Keeps-succeeded_tx : (c : Cluster) (k : ℕ) (x : Deletion) → Keeps (succeeded_tx c k x)
unfolding succeeded_tx
Keeps-succeeded_tx c k x = search keeps_rules depth 30

Keeps-finish_tx : (c : Cluster) (k : ℕ) (v : Verification) → Keeps (finish_tx c k v)
unfolding finish_tx verified_tx unverified_tx
Keeps-finish_tx c k v = search keeps_rules depth 30

-- Other workers that commit during a call of the cluster keep to the rules as well.
pub record IsOrderly (c : Cluster) : Type 0 where
  pub while_deleting : (t : Target) (d : Db) → Evolves d (c.delete_pod t d).1
  pub while_verifying : (t : Target) (d : Db) → Evolves d (c.verify_recovery t d).1

module _ (c : Cluster) (o : IsOrderly c) where
  pub Runs-verify : (k : ℕ) (t : Target) → Runs (verify c k t)
  unfolding verify
  Runs-verify k t = record {
    at = λ d.
        let (answer, d') = c.verify_recovery t d in
        Evolves-trans (o.while_verifying t d)
          ((Runs-begin _ (Keeps-finish_tx c k (verdict_of c answer))).at d');
  }

  Runs-after_delete : (k : ℕ) (t : Target) (x : Call Deletion) → Runs (after_delete c k t x)
  unfolding after_delete
  Runs-after_delete k t (raised kind message) = Runs-begin _ (Keeps-failed_tx c k _)
  Runs-after_delete k t (returned x) =
      Runs-then_do _ _ (Runs-begin _ (Keeps-succeeded_tx c k x)) (λ _. Runs-verify k t)

  Runs-act : (k : ℕ) (t : Target) → Runs (act c k t)
  unfolding act
  Runs-act k t = record {
    at = λ d.
        let (answer, d') = c.delete_pod t d in
        Evolves-trans (o.while_deleting t d) ((Runs-after_delete k t answer).at d');
  }

  pub Runs-process_execution : (k : ℕ) → Runs (process_execution c k)
  unfolding process_execution
  Runs-process_execution k =
      Runs-then_do _ _ (Runs-begin _ (Keeps-start_tx c.started k)) (Runs-act k)

  Runs-on_failure : (k : ℕ) (r : Result Execution) → Runs (on_failure c k r)
  Runs-on_failure k (ok x) = record { at = Evolves-refl }
  Runs-on_failure k (err e) = record {
    at = (Runs-begin _ (Keeps-fail_execution c.task_id c.finished k _)).at;
  }

  -- A worker that runs an execution removes no row of any table, changes no status of an incident,
  -- task, plan, execution or agent run but along TRANSITIONS, and leaves the earlier audit events as
  -- they were. This holds however the cluster answers and however the job ends, if the other workers
  -- that commit meanwhile keep to the same rules.
  pub process_execution_job-Evolves :
      (k : ℕ) (d : Db)
      → IsRetaining c
      → Evolves d (process_execution_job c k d).1 × Retains d (process_execution_job c k d).1
  unfolding process_execution_job
  process_execution_job-Evolves k d retaining =
      let (r, d') = process_execution c k d in
      (
        Evolves-trans ((Runs-process_execution k).at d) ((Runs-on_failure k r).at d'),
        process_execution_job-Retains c retaining k d,
      )
