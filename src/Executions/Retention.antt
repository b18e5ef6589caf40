-- ===== src/Executions/Retention.antt =====
-- The tables that the job of an execution does not write.
use k8s_ops_agent.Base.{ℕ, refl, String, Option, none, some, inl, inr, Option-cases, find}
use k8s_ops_agent.Domain.{ExecutionStatus}
use k8s_ops_agent.Models.{Task, Target, Deletion, Verification, Execution, Db}
use k8s_ops_agent.Adapters.{Call, returned, raised}
use k8s_ops_agent.Session.{Result, ok, err}
use k8s_ops_agent.Session.Leaves.{Leaves, Leaves-pure, SameAfter}
use k8s_ops_agent.Session.Retention.{
  aside, Retains, Retains-refl, Retains-trans, Retaining, Retaining-begin, Retaining-then_do,
}
use k8s_ops_agent.Session.Aside.{aside_rules, Aside-fail_incident_in}
use k8s_ops_agent.Executions.Processing.{
  Cluster, start_tx, failed_tx, succeeded_tx, verified_tx, unverified_tx, finish_tx, verify,
  verdict_of, after_delete, act, process_execution,
}
use k8s_ops_agent.Executions.Failure.{
  fail_execution, fail_status, fail_incident, add_review, incident_of,
}
use k8s_ops_agent.Executions.Job.{process_execution_job, on_failure}

Aside-fail_incident : (o : Option ℕ) → Leaves aside (fail_incident o)
Aside-fail_incident none = Leaves-pure aside tt
Aside-fail_incident (some k) = Aside-fail_incident_in _ k

Aside-fail_status :
    (k : ℕ) (o : Option ExecutionStatus) (f : Execution → Execution)
    → Leaves aside (fail_status k o f)
Aside-fail_status k none f = search aside_rules
Aside-fail_status k (some s) f = search aside_rules

Aside-incident_of : (k : ℕ) → Leaves aside (incident_of k)
unfolding incident_of
Aside-incident_of k = record {
  at = λ d. elim (Option-cases (find k d.plans)) [
    | inl e ↦ rw (e, SameAfter) refl
    | inr (plan, e) ↦ elim (Option-cases (find plan.incident_id d.incidents)) [
      | inl e' ↦ rw (e, e', SameAfter) refl
      | inr (i, e') ↦ rw (e, e', SameAfter) refl
    ]
  ];
}

Aside-add_review :
    (t k : ℕ) (i : Option ℕ) (o : Option (ℕ × Task)) → Leaves aside (add_review t k i o)
Aside-add_review t k none o = Leaves-pure aside tt
Aside-add_review t k (some i) (some x) = Leaves-pure aside tt
Aside-add_review t k (some i) none = search aside_rules

Aside-fail_execution : (t now k : ℕ) (e : String) → Leaves aside (fail_execution t now k e)
unfolding fail_execution
Aside-fail_execution t now k e =
    search
      (aside_rules, Aside-incident_of, Aside-fail_status, Aside-fail_incident, Aside-add_review)
      depth 30

Aside-start_tx : (now k : ℕ) → Leaves aside (start_tx now k)
unfolding start_tx
Aside-start_tx now k = search aside_rules depth 30

Aside-failed_tx : (c : Cluster) (k : ℕ) (e : String) → Leaves aside (failed_tx c k e)
unfolding failed_tx
Aside-failed_tx c k e = search aside_rules depth 30

Aside-succeeded_tx : (c : Cluster) (k : ℕ) (x : Deletion) → Leaves aside (succeeded_tx c k x)
unfolding succeeded_tx
Aside-succeeded_tx c k x = search aside_rules depth 30

Aside-finish_tx : (c : Cluster) (k : ℕ) (v : Verification) → Leaves aside (finish_tx c k v)
unfolding finish_tx verified_tx unverified_tx
Aside-finish_tx c k v = search aside_rules depth 30

-- Other workers that commit during a call of the cluster remove none of these rows either.
pub record IsRetaining (c : Cluster) : Type 0 where
  pub while_deleting : (t : Target) (d : Db) → Retains d (c.delete_pod t d).1
  pub while_verifying : (t : Target) (d : Db) → Retains d (c.verify_recovery t d).1

module _ (c : Cluster) (o : IsRetaining c) where
  Retaining-verify : (k : ℕ) (t : Target) → Retaining (verify c k t)
  unfolding verify
  Retaining-verify k t = record {
    at = λ d.
        let (answer, d') = c.verify_recovery t d in
        Retains-trans (o.while_verifying t d)
          ((Retaining-begin _ (Aside-finish_tx c k (verdict_of c answer))).at d');
  }

  Retaining-after_delete :
      (k : ℕ) (t : Target) (x : Call Deletion) → Retaining (after_delete c k t x)
  unfolding after_delete
  Retaining-after_delete k t (raised kind message) = Retaining-begin _ (Aside-failed_tx c k _)
  Retaining-after_delete k t (returned x) =
      Retaining-then_do _ _ (Retaining-begin _ (Aside-succeeded_tx c k x))
        (λ _. Retaining-verify k t)

  Retaining-act : (k : ℕ) (t : Target) → Retaining (act c k t)
  unfolding act
  Retaining-act k t = record {
    at = λ d.
        let (answer, d') = c.delete_pod t d in
        Retains-trans (o.while_deleting t d) ((Retaining-after_delete k t answer).at d');
  }

  Retaining-process_execution : (k : ℕ) → Retaining (process_execution c k)
  unfolding process_execution
  Retaining-process_execution k =
      Retaining-then_do _ _ (Retaining-begin _ (Aside-start_tx c.started k)) (Retaining-act k)

  Retaining-on_failure : (k : ℕ) (r : Result Execution) → Retaining (on_failure c k r)
  Retaining-on_failure k (ok x) = record { at = Retains-refl }
  Retaining-on_failure k (err e) = record {
    at = (Retaining-begin _ (Aside-fail_execution c.task_id c.finished k _)).at;
  }

  pub process_execution_job-Retains : (k : ℕ) (d : Db) → Retains d (process_execution_job c k d).1
  unfolding process_execution_job
  process_execution_job-Retains k d =
      let (r, d') = process_execution c k d in
      Retains-trans ((Retaining-process_execution k).at d) ((Retaining-on_failure k r).at d')
