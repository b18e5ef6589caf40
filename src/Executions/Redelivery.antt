-- ===== src/Executions/Redelivery.antt =====
-- What the job of an execution does when RQ runs it a second time.
use k8s_ops_agent.Base.{ℕ, ◌≡◌, ◌≢◌, refl, inl, true, some, find, arith}
use k8s_ops_agent.Domain.{ExecutionStatus}
use k8s_ops_agent.Models.{Incident, Plan, Execution, Db}
use k8s_ops_agent.Session.{Result, ok, err, is_err, begin}
use k8s_ops_agent.Executions.Processing.{Cluster, process_execution}
use k8s_ops_agent.Executions.Failure.{fail_execution}
use k8s_ops_agent.Executions.Job.{process_execution_job, on_failure, raise_again}
use k8s_ops_agent.Executions.Safety.{delete_needs_approval}
use k8s_ops_agent.Executions.Settling.{after_failure, fail_execution_row}

-- A job whose execution is not PREPARED, and whose plan and incident exist, asks the cluster for nothing and raises, and the status
-- after it is that of `fail_execution`: a RUNNING execution is FAILED, and one that has SUCCEEDED
-- becomes VERIFICATION_FAILED, also where its repair was verified; the others keep their status.
pub redelivered_job :
    (c : Cluster) (k : ℕ) (d : Db) (x : Execution) (p : Plan) (i : Incident)
    → find k d.executions ≡ some x
    → find x.plan_id d.plans ≡ some p
    → find p.incident_id d.incidents ≡ some i
    → x.status ≢ ExecutionStatus.prepared
    → let (r, e) = process_execution_job c k d in
      (row : Execution) × (is_err r ≡ true)
      × (find k e.executions ≡ some row)
      × (row.status ≡ after_failure x.status)
      × (row.verification_result ≡ x.verification_result)
unfolding process_execution_job
redelivered_job c k d x p i hx hp hi n =
    let (refused, same_db, _) = delete_needs_approval c c k d x p i hx hp hi (inl n) in
    recorded (process_execution c k d).0 (process_execution c k d).1 refused same_db
  where
    recorded :
        (r : Result Execution) (e : Db)
        → is_err r ≡ true
        → e ≡ d
        → let (r', e') = on_failure c k r e in
          (row : Execution) × (is_err r' ≡ true)
          × (find k e'.executions ≡ some row)
          × (row.status ≡ after_failure x.status)
          × (row.verification_result ≡ x.verification_result)
    recorded (ok a) e h s = absurd (cc h)
    recorded (err z) e h s = (
      _,
      always_raises (begin (fail_execution c.task_id c.finished k _) e).0,
      fail_execution_row c.task_id c.finished k _ e x (ground (arith, s, hx)),
      refl,
      refl,
    )
      where
        always_raises : (r : Result Execution) → is_err (raise_again z r) ≡ true
        always_raises (ok a) = refl
        always_raises (err w) = refl
