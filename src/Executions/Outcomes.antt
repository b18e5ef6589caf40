-- ===== src/Executions/Outcomes.antt =====
-- `process_execution` refines the table `outcome_of`.
use k8s_ops_agent.Base.{ℕ, ◌≡◌, refl, Bool, true, false}
use k8s_ops_agent.Domain.{ExecutionStatus, IncidentStatus, PlanStatus}
use k8s_ops_agent.Models.{Target, Deletion, Verification, Db}
use k8s_ops_agent.Adapters.{Call, returned, raised}
use k8s_ops_agent.Session.{Result, ok, err, is_err, Action, begin, commit, proceed}
use k8s_ops_agent.Executions.Processing.{
  Cluster, start_tx, succeeded_tx, verified_tx, unverified_tx, finish_tx, verify, verdict_of,
  after_delete, act, process_execution,
}
use k8s_ops_agent.Executions.Repair.{
  Outcome, outcome_of, by_health, quiet, Rows, Moved, in_states, start_moves, failed_moves,
  succeeded_moves, verified_moves, unverified_moves,
}

module _ (k plan_id incident_id : ℕ) where
  -- The call returns, and leaves the rows as the outcome says.
  abbrev pub Ended : {A : Type 0} → Outcome → Result A × Db → Type 0
  Ended o (r, d) = (is_err r ≡ false) × Rows k plan_id incident_id o d

  Ended-begin :
      {A : Type 0} (o : Outcome) (d : Db) (r : Result (A × Db))
      → Moved k plan_id incident_id o d r
      → Ended o (commit d r)
  Ended-begin o d (ok (a, e)) m = (refl, m.rows)
  Ended-begin o d (err e) m = absurd (cc m.returns)

  Ended-proceed :
      {A B : Type 0} (o : Outcome) (r : Result A) (d : Db) (f : A → Action B)
      → is_err r ≡ false
      → ((a : A) → Ended o (f a d))
      → Ended o (proceed r f d)
  Ended-proceed o (ok a) d f h rf = rf a
  Ended-proceed o (err e) d f h rf = absurd (cc h)

  abbrev verifying : Outcome
  verifying = in_states ExecutionStatus.succeeded PlanStatus.executed IncidentStatus.verifying

  -- The last transaction, by the truth value of the verification.
  finish-Ended :
      (c : Cluster) (w : Verification) (d : Db) (h : Bool)
      → w.healthy ≡ h
      → Rows k plan_id incident_id verifying d
      → Ended (by_health h) (begin (finish_tx c k w) d)
  unfolding finish_tx
  finish-Ended c w d true e r =
      simp e (Ended-begin _ d (verified_tx c k w d) (verified_moves c w k plan_id incident_id d r))
  finish-Ended c w d false e r =
      simp e
        (Ended-begin _ d (unverified_tx c k w d) (unverified_moves c w k plan_id incident_id d r))

  module _ (c : Cluster) where
    verify-Ended :
        (a : Deletion) (v : Call Verification) (t : Target) (d : Db)
        → Rows k plan_id incident_id verifying d
        → Ended (outcome_of (returned a) v) (verify (quiet c (returned a) v) k t d)
    unfolding verify
    verify-Ended a (raised kind message) t d r =
        finish-Ended (quiet c (returned a) (raised kind message))
          (verdict_of (quiet c (returned a) (raised kind message)) (raised kind message)) d false
          refl r
    verify-Ended a (returned w) t d r =
        finish-Ended (quiet c (returned a) (returned w)) w d w.healthy refl r

    act-Ended :
        (a : Call Deletion) (v : Call Verification) (t : Target) (d : Db)
        → Rows k plan_id incident_id
            (in_states ExecutionStatus.running PlanStatus.executable IncidentStatus.remediating)
            d
        → Ended (outcome_of a v) (act (quiet c a v) k t d)
    unfolding act after_delete
    act-Ended (raised kind message) v t d r =
        let q = quiet c (raised kind message) v in
        Ended-begin _ d _ (failed_moves q (q.safe_error_message message) k plan_id incident_id d r)
    act-Ended (returned a) v t d r =
        let q = quiet c (returned a) v in
        let m = succeeded_moves q a k plan_id incident_id d r in
        let (done, rows) = Ended-begin _ d (succeeded_tx q k a d) m in
        Ended-proceed _ (begin (succeeded_tx q k a) d).0 (begin (succeeded_tx q k a) d).1
          (λ _. verify q k t) done (λ _. verify-Ended a v t _ rows)

    -- Where no other worker commits meanwhile, `process_execution` returns, and leaves the
    -- execution, its plan and its incident as `outcome_of` says: FAILED, EXECUTABLE and FAILED if
    -- the Pod cannot be deleted; SUCCEEDED, EXECUTED and RESOLVED if it is, and the workload is
    -- healthy again; VERIFICATION_FAILED, EXECUTED and FAILED if it is not, or cannot be checked.
    pub process_execution_outcome :
        (a : Call Deletion) (v : Call Verification) (d : Db)
        → Rows k plan_id incident_id
            (in_states ExecutionStatus.prepared PlanStatus.executable
              IncidentStatus.awaiting_approval)
            d
        → Ended (outcome_of a v) (process_execution (quiet c a v) k d)
    unfolding process_execution
    process_execution_outcome a v d r =
        let m = start_moves c.started k plan_id incident_id d r in
        let (done, rows) = Ended-begin _ d (start_tx c.started k d) m in
        Ended-proceed _ (begin (start_tx c.started k) d).0 (begin (start_tx c.started k) d).1
          (act (quiet c a v) k) done (λ t. act-Ended a v t _ rows)
