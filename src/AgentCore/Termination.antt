-- ===== src/AgentCore/Termination.antt =====
-- The loop of `process` of app/ops_agent/agent_core.py ends: each round that does not end it counts a
-- step, and the steps of a run are limited.
use k8s_ops_agent.Base.{ℕ, ◌+◌, ◌≡◌, ◌≢◌, refl, String, Option, none, some, is_some}
use k8s_ops_agent.Domain.{AgentRunStatus, AgentStepType}
use k8s_ops_agent.Models.{AgentRun, AgentStep, Incident, Diagnosis, Budget, Db}
use k8s_ops_agent.Session.{Error, ok, Tx, Action, begin, then_do, get_agent_run}
use k8s_ops_agent.Session.Leaves.{Leaves}
use k8s_ops_agent.Tools.{ToolDefinition, Tooling}
use k8s_ops_agent.AgentCore.Store.{is_terminal, write_step}
use k8s_ops_agent.AgentCore.Finish.{finish}
use k8s_ops_agent.AgentCore.Budget.{Checked}
use k8s_ops_agent.AgentCore.Decision.{NextDecision, name_of}
use k8s_ops_agent.AgentCore.Deciding.{Context}
use k8s_ops_agent.AgentCore.Policy.{PolicyResult, is_allow}
use k8s_ops_agent.AgentCore.Calling.{Step, deny_call}
use k8s_ops_agent.AgentCore.Progress.{limits, limits_rules}
use k8s_ops_agent.AgentCore.Advance.{
  Steady-begin, Advances, Advances-if, Advances-never, Advances-then_do, Advances-returns,
  Advances-unless, returned_something,
}
use k8s_ops_agent.AgentCore.Rounding.{Steady-decide, call_tool-Advances}
use k8s_ops_agent.AgentCore.Process.{Round, Next, Prepared, passed_deadline, text_or}
use k8s_ops_agent.AgentCore.Rounds.{
  finish_run, start_step, record_failure, fail_decision, audit_fallback, record_decision,
  succeed_step, conclude, interrupt, after_call, raising, allowed_call, call_if_allowed, carry_out,
  act_unless_over, follow, take_step, terminal_of, numbered, provided,
}

-- What others commit during a round leaves the limits of the run.
pub record Undisturbed (k : ℕ) (w : Round) : Type 0 where
  pub thinking : (d : Db) → limits k (w.reasoning.others d) ≡ limits k d
  pub calling : (d : Db) → limits k (w.step.others d) ≡ limits k d

module _ (w : Round) (k : ℕ) where
  Leaves-start_step :
      (sequence : ℕ) (context : Context) → Leaves (limits k) (start_step w k sequence context)
  unfolding start_step
  Leaves-start_step sequence context = search limits_rules depth 30

  Leaves-record_failure :
      (sequence : ℕ) (code : String) → Leaves (limits k) (record_failure w k sequence code)
  unfolding record_failure
  Leaves-record_failure sequence code = search limits_rules depth 30

  Leaves-audit_fallback : (code : Option String) → Leaves (limits k) (audit_fallback w k code)
  unfolding audit_fallback
  Leaves-audit_fallback none = search limits_rules depth 30
  Leaves-audit_fallback (some code) = search limits_rules depth 30

  Leaves-record_decision :
      (sequence : ℕ) (d : NextDecision) → Leaves (limits k) (record_decision w k sequence d)
  unfolding record_decision
  Leaves-record_decision sequence d = search (limits_rules, Leaves-audit_fallback) depth 30

  Leaves-succeed_step : (sequence : ℕ) → Leaves (limits k) (succeed_step w k sequence)
  unfolding succeed_step
  Leaves-succeed_step sequence = search limits_rules depth 30

  Leaves-deny_call :
      (s : Step) (incident_id : ℕ) (tool_name reason_code : String)
      → Leaves (limits k) (deny_call s k incident_id tool_name reason_code)
  unfolding deny_call
  Leaves-deny_call s incident_id tool_name reason_code = search limits_rules depth 30

  Leaves-write : (id : ℕ) (f : AgentStep → AgentStep) → Leaves (limits k) (write_step id f)
  Leaves-write id f = search limits_rules depth 30

  Leaves-read : (e : Error) → Leaves (limits k) (get_agent_run k e)
  Leaves-read e = search limits_rules depth 30

raising-Advances :
    (k : ℕ) (b : Budget) (sequence : ℕ) (kind message : String)
    → Advances k b sequence (raising kind message)
raising-Advances k b sequence kind message = Advances-never k b sequence _ (λ d h. cc h)

module _ (w : Round) (k : ℕ) (b : Budget) (sequence : ℕ) (quiet : Undisturbed k w) where
  finish_run-Advances :
      (status : AgentRunStatus) (reason : String) (diagnosis : Option Diagnosis)
      → Advances k b sequence (finish_run w k status reason diagnosis)
  unfolding finish_run
  finish_run-Advances status reason diagnosis = Advances-returns k b sequence _ (λ run. run)

  pub finish_run_ends :
      (status : AgentRunStatus) (reason : String) (diagnosis : Option Diagnosis) (d : Db)
      → (finish_run w k status reason diagnosis d).0 ≢ ok none
  unfolding finish_run
  finish_run_ends status reason diagnosis d h =
      returned_something k b sequence
        (begin (finish w.step.python w.ended_at w.task_id k status reason diagnosis) d).0
        (λ (run : AgentRun). run)
        (begin (finish w.step.python w.ended_at w.task_id k status reason diagnosis) d).1 h

  -- A transaction, and then the end of the run.
  then_finish :
      {A : Type 0} (m : Tx A) (status : AgentRunStatus) (reason : String)
      (diagnosis : Option Diagnosis)
      → Leaves (limits k) m
      → Advances k b sequence (then_do (begin m) (λ _. finish_run w k status reason diagnosis))
  then_finish m status reason diagnosis l =
      Advances-then_do k b sequence _ _ (Steady-begin k m l)
        (λ _. finish_run-Advances status reason diagnosis)

  fail_decision-Advances : (code : String) → Advances k b sequence (fail_decision w k sequence code)
  unfolding fail_decision
  fail_decision-Advances code =
      then_finish (record_failure w k sequence code) _ code none
        (Leaves-record_failure w k sequence code)

  conclude-Advances :
      (status : AgentRunStatus) (reason : String) (diagnosis : Option Diagnosis)
      → Advances k b sequence (conclude w k sequence status reason diagnosis)
  unfolding conclude
  conclude-Advances status reason diagnosis =
      then_finish (succeed_step w k sequence) status reason diagnosis
        (Leaves-succeed_step w k sequence)

  interrupt-Advances :
      (status : AgentRunStatus) (code : String) → Advances k b sequence (interrupt w k status code)
  unfolding interrupt
  interrupt-Advances status code =
      then_finish _ status code none (Leaves-write w k w.step.step_id _)

  allowed_call-Advances :
      (t : Tooling ToolDefinition) (run : AgentRun) (d : NextDecision)
      → Advances k b sequence (allowed_call w k t sequence run d)
  unfolding allowed_call after_call
  allowed_call-Advances (Tooling.done tool) run d =
      Advances-unless k b sequence _ (after_call w k)
        (call_tool-Advances (numbered w k sequence) k run.incident_id b quiet.calling
          (name_of d.tool_name) tool d.arguments run.budget.per_tool_timeout_seconds)
        (λ e. refl) (λ code e. finish_run_ends AgentRunStatus.awaiting_human code none e)
  allowed_call-Advances (Tooling.failed e) run d =
      raising-Advances k b sequence "ToolError" e.message
  allowed_call-Advances (Tooling.crashed kind message) run d =
      raising-Advances k b sequence kind message

  judged_call-Advances :
      (t : Tooling PolicyResult) (run : AgentRun) (d : NextDecision)
      → Advances k b sequence (call_if_allowed w k t sequence run d)
  unfolding call_if_allowed
  judged_call-Advances (Tooling.done result) run d =
      Advances-if k b sequence (is_allow result.decision) _ _ (allowed_call-Advances _ run d) (
        then_finish _ (terminal_of result.decision) result.reason_code none (
          Leaves-deny_call w k (numbered w k sequence) run.incident_id (name_of d.tool_name)
            result.reason_code))
  judged_call-Advances (Tooling.failed e) run d =
      raising-Advances k b sequence "ToolError" e.message
  judged_call-Advances (Tooling.crashed kind message) run d =
      raising-Advances k b sequence kind message

  act-Advances :
      (t : AgentStepType) (before : Db) (run : AgentRun) (incident : Incident) (d : NextDecision)
      → Advances k b sequence (carry_out w k t before sequence run incident d)
  unfolding carry_out
  act-Advances AgentStepType.complete before run incident d =
      conclude-Advances AgentRunStatus.completed "GOAL_COMPLETED" (provided d.provider d.diagnosis)
  act-Advances AgentStepType.ask_human before run incident d =
      conclude-Advances AgentRunStatus.awaiting_human (text_or d.stop_reason "HUMAN_INPUT_REQUIRED")
        none
  act-Advances AgentStepType.stop before run incident d =
      conclude-Advances AgentRunStatus.stopped (text_or d.stop_reason "REASONER_STOPPED") none
  act-Advances AgentStepType.call_tool before run incident d = judged_call-Advances _ run d

  act_unless_over-Advances :
      (latest : AgentRun) (go : Action Next)
      → Advances k b sequence go
      → Advances k b sequence (act_unless_over w k latest go)
  unfolding act_unless_over
  act_unless_over-Advances latest go a =
      Advances-if k b sequence (is_terminal latest.status) _ _
        (Advances-never k b sequence _ (λ d h. cc h))
        (Advances-if k b sequence (is_some latest.cancel_requested_at) _ _
          (interrupt-Advances AgentRunStatus.cancelled "USER_CANCELLED")
          (Advances-if k b sequence (passed_deadline w.decided_at latest.deadline_at) _ _
            (interrupt-Advances AgentRunStatus.stopped "RUN_DEADLINE_EXCEEDED") a))

  follow-Advances :
      (before : Db) (run : AgentRun) (incident : Incident) (c : Checked NextDecision)
      → Advances k b sequence (follow w k before sequence run incident c)
  unfolding follow
  follow-Advances before run incident (Checked.refused code) = fail_decision-Advances code
  follow-Advances before run incident (Checked.accepted d) =
      Advances-then_do k b sequence _ _ (Steady-begin k _ (Leaves-record_decision w k sequence d))
        (λ _.
          Advances-then_do k b sequence _ _
            (Steady-begin k _ (Leaves-read w k Error.attribute_error))
            (λ latest.
              act_unless_over-Advances latest _
                (act-Advances d.decision_type before run incident d)))

  pub take_step-Advances :
      (before : Db) (run : AgentRun) (incident : Incident) (c : Checked Prepared)
      → run.current_step + 1 ≡ sequence
      → Advances k b sequence (take_step w k before run incident c)
  unfolding take_step
  take_step-Advances before run incident (Checked.refused code) n =
      finish_run-Advances AgentRunStatus.stopped code none
  take_step-Advances before run incident (Checked.accepted p) n = rw n (
      Advances-then_do k b sequence _ _
        (Steady-begin k _ (Leaves-start_step w k sequence p.context))
        (λ _.
          Advances-then_do k b sequence _ _
            (Steady-decide w.reasoning p.context (w.eligible before) k w.step.step_id quiet.thinking
              p.model_budget p.fallback_code)
            (follow-Advances before run incident)))
