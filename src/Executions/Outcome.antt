-- ===== src/Executions/Outcome.antt =====
-- `process_execution_job` never leaves an execution PREPARED or RUNNING.
use k8s_ops_agent.Base.{ℕ, ◌≡◌, String, some, find}
use k8s_ops_agent.Domain.{ExecutionStatus}
use k8s_ops_agent.Models.{Target, Deletion, Execution, Db}
use k8s_ops_agent.Adapters.{Call, returned, raised}
use k8s_ops_agent.Session.{Result, ok, err, Action, begin, commit, proceed}
use k8s_ops_agent.Session.Keeps.{keeps_rules}
use k8s_ops_agent.Session.Calls.{Runs}
use k8s_ops_agent.Executions.Processing.{
  Cluster, start_tx, failed_tx, succeeded_tx, verify, after_delete, act, process_execution,
}
use k8s_ops_agent.Executions.Job.{process_execution_job, on_failure}
use k8s_ops_agent.Executions.Evolution.{IsOrderly, Runs-verify, Runs-process_execution}
use k8s_ops_agent.Executions.Settling.{
  Settled, Settled-Evolves, Ends, Settles, Settles-later, Settles-advance_then,
  fail_execution_settles,
}

module _ (c : Cluster) (k : ℕ) where
  Settles-failed_tx : (e : String) → Settles k (failed_tx c k e)
  unfolding failed_tx
  Settles-failed_tx e =
      search (Settles-advance_then k ExecutionStatus.failed, Settles-later k, keeps_rules) depth 30

  Settles-succeeded_tx : (x : Deletion) → Settles k (succeeded_tx c k x)
  unfolding succeeded_tx
  Settles-succeeded_tx x =
      search (Settles-advance_then k ExecutionStatus.succeeded, Settles-later k, keeps_rules) depth
        30

  -- A call that returns leaves the execution settled.
  abbrev Leaves : {A : Type 0} → Result A × Db → Type 0
  Leaves (ok a, d) = Settled k d
  Leaves (err e, d) = Unit

  Leaves-commit : {A : Type 0} (d : Db) (r : Result (A × Db)) → Ends k r → Leaves (commit d r)
  unfolding Ends
  Leaves-commit d (ok (a, e)) h = h
  Leaves-commit d (err e) h = tt

  Leaves-proceed :
      {A B : Type 0} (r : Result A) (d : Db) (f : A → Action B)
      → Leaves (r, d)
      → ((a : A) → Runs (f a))
      → Leaves (proceed r f d)
  Leaves-proceed {B = B} (ok a) d f h rf =
      from_settled (f a d).0 (f a d).1 (Settled-Evolves k d _ ((rf a).at d) h)
    where
      from_settled : (r : Result B) (e : Db) → Settled k e → Leaves (r, e)
      from_settled (ok b) e s = s
      from_settled (err x) e s = tt
  Leaves-proceed (err e) d f h rf = tt

  module _ (o : IsOrderly c) where
    Leaves-after_delete :
        (t : Target) (x : Call Deletion) (d : Db) → Leaves (after_delete c k t x d)
    unfolding after_delete
    Leaves-after_delete t (raised kind message) d = Leaves-commit d _ ((Settles-failed_tx _).at d)
    Leaves-after_delete t (returned x) d =
        Leaves-proceed (begin (succeeded_tx c k x) d).0 (begin (succeeded_tx c k x) d).1
          (λ _. verify c k t) (Leaves-commit d _ ((Settles-succeeded_tx x).at d))
          (λ _. Runs-verify c o k t)

    Leaves-start : (r : Result Target) (d : Db) → Leaves (proceed r (act c k) d)
    unfolding act
    Leaves-start (ok t) d = let (answer, d') = c.delete_pod t d in Leaves-after_delete t answer d'
    Leaves-start (err e) d = tt

    Leaves-process_execution : (d : Db) → Leaves (process_execution c k d)
    unfolding process_execution
    Leaves-process_execution d =
        Leaves-start (begin (start_tx c.started k) d).0 (begin (start_tx c.started k) d).1

    on_failure_settles :
        (r : Result Execution) (d : Db) (row : Execution)
        → find k d.executions ≡ some row
        → Leaves (r, d)
        → Settled k (on_failure c k r d).1
    on_failure_settles (ok x) d row h s = s
    on_failure_settles (err e) d row h s = fail_execution_settles k c.task_id c.finished _ d row h

    -- Once the job of an execution that exists has ended, returning or raising, the execution is
    -- neither PREPARED nor RUNNING, however the cluster answers and whatever the other workers
    -- commit meanwhile by the rules.
    pub process_execution_job_settles :
        (d : Db) (row : Execution)
        → find k d.executions ≡ some row
        → Settled k (process_execution_job c k d).1
    unfolding process_execution_job
    process_execution_job_settles d row h =
        let (r, d') = process_execution c k d in
        let (row', h', p) = ((Runs-process_execution c o k).at d).executions_evolve.row k row h in
        on_failure_settles r d' row' h' (Leaves-process_execution d)
