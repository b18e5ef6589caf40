-- ===== src/Executions/Job.antt =====
-- `process_execution_job` of app/ops_agent/jobs.py: what goes wrong in `process_execution` is recorded
-- by `fail_execution`, and raised again.
use k8s_ops_agent.Base.{ℕ, String}
use k8s_ops_agent.Models.{Execution}
use k8s_ops_agent.Session.{Error, Result, ok, err, Action, begin}
use k8s_ops_agent.Executions.Processing.{Cluster, process_execution}
use k8s_ops_agent.Executions.Failure.{fail_execution}

-- `str(error)`
abbrev pub error_text : Error → String
error_text (Error.validation_error s) = s
error_text (Error.not_found_error s) = s
error_text (Error.policy_denied_error s) = s
error_text (Error.invalid_state_transition s) = s
error_text Error.integrity_error = "integrity error"
error_text Error.attribute_error = "attribute of None"
error_text (Error.external kind s) = s

-- An exception of `fail_execution` takes the place of the first one.
abbrev pub raise_again : Error → Result Execution → Result Execution
raise_again e (ok _) = err e
raise_again e (err e') = err e'

abbrev pub on_failure : Cluster → ℕ → Result Execution → Action Execution
on_failure cluster execution_id (ok execution) d = (ok execution, d)
on_failure cluster execution_id (err e) d =
    let (r, d') =
      begin
        (fail_execution cluster.task_id cluster.finished execution_id
          (cluster.safe_error_message (error_text e)))
        d in
    (raise_again e r, d')

unfoldable pub process_execution_job : Cluster → ℕ → Action Execution
process_execution_job cluster execution_id d =
    let (r, d') = process_execution cluster execution_id d in on_failure cluster execution_id r d'
