-- ===== src/Recovery/Cleared.antt =====
-- After recovery no work is stuck.
use k8s_ops_agent.Base.{ℕ, ◌≡◌, refl, length}
use k8s_ops_agent.Models.{Db}
use k8s_ops_agent.Session.{ok}
use k8s_ops_agent.Recovery.Work.{
  Recovery, is_stuck_run, is_stuck_execution, keys_where, expire_run, expire_execution, recover_tx,
  recover_stuck_work_once,
}
use k8s_ops_agent.Recovery.Loop.{Cleared, keys_where_there, Cleared-or_listed, for_each-Swept}
use k8s_ops_agent.Recovery.Expiry.{HaveIncidents, Between, expire_run-Ended, expire_execution-Ended}

-- If every agent run has its incident, `recover_stuck_work_once` returns the numbers of runs and of
-- executions that were overdue and not locked, and afterwards no run and no execution is.
pub recover_clears :
    (c : Recovery) (d : Db)
    → HaveIncidents d
    → let (r, e) = recover_stuck_work_once c d in
      (r
        ≡ ok (
          length (keys_where (is_stuck_run c) d.agent_runs),
          length (keys_where (is_stuck_execution c) d.executions),
        ))
      × ((k : ℕ) → Cleared (is_stuck_run c) e.agent_runs k)
      × ((k : ℕ) → Cleared (is_stuck_execution c) e.executions k)
unfolding recover_stuck_work_once recover_tx
recover_clears c d have =
    let runs =
      for_each-Swept (is_stuck_run c) (λ d. d.agent_runs) (Between d.executions) (expire_run c)
        (expire_run-Ended c d.executions) (keys_where (is_stuck_run c) d.agent_runs) d (have, refl)
        (λ k. keys_where_there (is_stuck_run c) k d.agent_runs) in
    let m = runs.after in
    let executions =
      for_each-Swept (is_stuck_execution c) (λ d. d.executions) (λ d. d.agent_runs ≡ m.agent_runs)
        (expire_execution c) (expire_execution-Ended c m.agent_runs)
        (keys_where (is_stuck_execution c) m.executions) m refl
        (λ k. keys_where_there (is_stuck_execution c) k m.executions) in
    rw (runs.returns, executions.returns)
      (
        rw runs.keeps.1 refl,
        λ k.
            rw executions.keeps
              (runs.cleared k (Cleared-or_listed (is_stuck_run c) d.agent_runs k)),
        λ k. executions.cleared k (Cleared-or_listed (is_stuck_execution c) m.executions k),
      )
