-- ===== src/AgentCore/Rounds.antt =====
-- A round of the loop of `process` of app/ops_agent/agent_core.py, and the loop.
use k8s_ops_agent.Base.{
  ℕ, zero, suc, ◌+◌, String, Bool, false, ◌&&◌, Option, none, some, [], is_some, ◌is◌,
  if◌then◌else◌,
}
use k8s_ops_agent.Domain.{AgentRunStatus, AgentStepType, AgentStepStatus, PolicyDecision}
use k8s_ops_agent.Json.{str, field, end}
use k8s_ops_agent.Models.{Incident, AgentRun, Diagnosis, Db}
use k8s_ops_agent.Session.{
  Error, Result, ok, err, Tx, Action, pure, ◌>>◌, begin, then_do, get_agent_run, get_incident,
}
use k8s_ops_agent.Tools.{Tooling, ToolDefinition, get_tool}
use k8s_ops_agent.AgentCore.Store.{
  audit_run, write_run, add_step, write_step, is_terminal, is_status,
}
use k8s_ops_agent.AgentCore.Lease.{Worker, claim}
use k8s_ops_agent.AgentCore.Finish.{finish}
use k8s_ops_agent.AgentCore.Budget.{Checked}
use k8s_ops_agent.AgentCore.Decision.{NextDecision, name_of}
use k8s_ops_agent.AgentCore.Deciding.{Context, digits_of, decide}
use k8s_ops_agent.AgentCore.Policy.{PolicyResult, is_allow, evaluate}
use k8s_ops_agent.AgentCore.Calling.{Step, fingerprints_of, end_step, at_step, deny_call, call_tool}
use k8s_ops_agent.AgentCore.Process.{
  Round, Next, limit_reached, plan_budget, Prepared, prepare, ids_json, step_type_value, text_or,
  passed_deadline,
}

abbrev pub terminal_of : PolicyDecision → AgentRunStatus
terminal_of PolicyDecision.ask_human = AgentRunStatus.awaiting_human
terminal_of d = AgentRunStatus.stopped

abbrev pub provided : String → Option Diagnosis → Option Diagnosis
provided provider none = none
provided provider (some d) = some (record d { provider = some provider })

-- An exception that `process` does not catch.
abbrev pub raising : String → String → Action Next
raising kind message d = (err (Error.external kind message), d)

module _ (w : Round) (run_id : ℕ) where
  -- `return self._finish(…)`
  unfoldable pub finish_run : AgentRunStatus → String → Option Diagnosis → Action Next
  unfolding finish
  finish_run status reason diagnosis =
      then_do (begin (finish w.step.python w.ended_at w.task_id run_id status reason diagnosis))
        (λ run d. (ok (some run), d))

  -- The audit event's entries on the selection and the budget are left out.
  unfoldable pub start_step : ℕ → Context → Tx (Unit {0})
  unfolding add_step audit_run
  start_step sequence context = do
    add_step w.step.step_id (record {
      agent_run_id = run_id;
      sequence = sequence;
      step_type = none;
      status = AgentStepStatus.running;
      decision_provider = none;
      decision_summary = none;
      confidence = none;
      evidence_ids = [];
      context_version = "agent-context-v2";
      error_code = none;
      finished_at = none;
    })
    audit_run w.step.python run_id "agent_step.started" (
        field "sequence" (digits_of w.step.python sequence)
          (field "context_version" (str "agent-context-v2") end))

  unfoldable pub record_failure : ℕ → String → Tx (Unit {0})
  unfolding write_step write_run audit_run
  record_failure sequence code = do
    write_step w.step.step_id (end_step AgentStepStatus.failed (some code) w.decided_at)
    write_run run_id (at_step sequence)
    audit_run w.step.python run_id "agent_decision.failed" (field "error_code" (str code) end)

  unfoldable pub fail_decision : ℕ → String → Action Next
  unfolding record_failure finish_run
  fail_decision sequence code = then_do (begin (record_failure sequence code)) (λ _.
      finish_run
        (if code is "MODEL_BUDGET_EXHAUSTED" then AgentRunStatus.stopped else AgentRunStatus.failed)
        code none)

  unfoldable pub audit_fallback : Option String → Tx (Unit {0})
  unfolding audit_run
  audit_fallback none = pure tt
  audit_fallback (some code) =
      audit_run w.step.python run_id "agent_decision.fallback" (field "error_code" (str code) end)

  unfoldable pub record_decision : ℕ → NextDecision → Tx (Unit {0})
  unfolding write_step audit_run audit_fallback
  record_decision sequence d = do
    write_step w.step.step_id (λ step. record step {
      step_type = some d.decision_type;
      decision_provider = some d.provider;
      decision_summary = some d.decision_summary;
      confidence = some d.confidence;
      evidence_ids = d.evidence_ids;
    })
    audit_fallback d.fallback_error_code
    audit_run w.step.python run_id "agent_decision.made" (
        field "sequence" (digits_of w.step.python sequence) (
          field "type" (str (step_type_value d.decision_type)) (
            field "provider" (str d.provider)
              (field "evidence_ids" (ids_json d.evidence_ids) end))))

  unfoldable pub succeed_step : ℕ → Tx (Unit {0})
  unfolding write_step write_run
  succeed_step sequence = do
    write_step w.step.step_id
        (λ step. record step { status = AgentStepStatus.succeeded; finished_at = some w.ended_at })
    write_run run_id (at_step sequence)

  unfoldable pub conclude : ℕ → AgentRunStatus → String → Option Diagnosis → Action Next
  unfolding succeed_step finish_run
  conclude sequence status reason diagnosis =
      then_do (begin (succeed_step sequence)) (λ _. finish_run status reason diagnosis)

  unfoldable pub interrupt : AgentRunStatus → String → Action Next
  unfolding write_step finish_run
  interrupt status code =
      then_do
        (begin (write_step w.step.step_id (end_step AgentStepStatus.denied (some code) w.ended_at)))
        (λ _. finish_run status code none)

  -- The step, with the number that it has in this run.
  abbrev pub numbered : ℕ → Step
  numbered sequence = record w.step { sequence = sequence }

  unfoldable pub after_call : Option String → Action Next
  unfolding finish_run
  after_call none d = (ok none, d)
  after_call (some code) d = finish_run AgentRunStatus.awaiting_human code none d

  unfoldable pub allowed_call : Tooling ToolDefinition → ℕ → AgentRun → NextDecision → Action Next
  unfolding call_tool after_call
  allowed_call (Tooling.done tool) sequence run d =
      then_do
        (call_tool (numbered sequence) run_id run.incident_id (name_of d.tool_name) tool d.arguments
          run.budget.per_tool_timeout_seconds)
        after_call
  allowed_call (Tooling.failed e) sequence run d = raising "ToolError" e.message
  allowed_call (Tooling.crashed kind message) sequence run d = raising kind message

  unfoldable pub call_if_allowed : Tooling PolicyResult → ℕ → AgentRun → NextDecision → Action Next
  unfolding deny_call finish_run get_tool allowed_call
  call_if_allowed (Tooling.failed e) sequence run d = raising "ToolError" e.message
  call_if_allowed (Tooling.crashed kind message) sequence run d = raising kind message
  call_if_allowed (Tooling.done result) sequence run d =
      if is_allow result.decision
      then allowed_call (get_tool w.step.registry (name_of d.tool_name)) sequence run d
      else then_do
          (begin (
            deny_call (numbered sequence) run_id run.incident_id (name_of d.tool_name)
              result.reason_code))
          (λ _. finish_run (terminal_of result.decision) result.reason_code none)

  -- What the decision asks for. `before` is the snapshot that the round started from.
  unfoldable pub carry_out :
      AgentStepType → Db → ℕ → AgentRun → Incident → NextDecision → Action Next
  unfolding conclude call_if_allowed evaluate fingerprints_of
  carry_out AgentStepType.complete before sequence run incident d =
      conclude sequence AgentRunStatus.completed "GOAL_COMPLETED" (provided d.provider d.diagnosis)
  carry_out AgentStepType.ask_human before sequence run incident d =
      conclude sequence AgentRunStatus.awaiting_human (text_or d.stop_reason "HUMAN_INPUT_REQUIRED")
        none
  carry_out AgentStepType.stop before sequence run incident d =
      conclude sequence AgentRunStatus.stopped (text_or d.stop_reason "REASONER_STOPPED") none
  carry_out AgentStepType.call_tool before sequence run incident d =
      call_if_allowed
        (evaluate w.step.python run incident w.step.registry (name_of d.tool_name) d.arguments
          (fingerprints_of w.step.python run_id before.agent_steps before.tool_invocations))
        sequence run d

  -- The run is read again: it may have been cancelled, or its time may be over.
  unfoldable pub act_unless_over : AgentRun → Action Next → Action Next
  unfolding is_terminal interrupt
  act_unless_over latest go =
      if is_terminal latest.status
      then (λ d. (ok (some latest), d))
      else if is_some latest.cancel_requested_at
      then interrupt AgentRunStatus.cancelled "USER_CANCELLED"
      else if passed_deadline w.decided_at latest.deadline_at
      then interrupt AgentRunStatus.stopped "RUN_DEADLINE_EXCEEDED"
      else go

  unfoldable pub follow : Db → ℕ → AgentRun → Incident → Checked NextDecision → Action Next
  unfolding fail_decision record_decision get_agent_run act_unless_over carry_out
  follow before sequence run incident (Checked.refused code) = fail_decision sequence code
  follow before sequence run incident (Checked.accepted d) =
      then_do (begin (record_decision sequence d)) (λ _.
        then_do (begin (get_agent_run run_id Error.attribute_error)) (λ latest.
          act_unless_over latest (carry_out d.decision_type before sequence run incident d)))

  unfoldable pub take_step : Db → AgentRun → Incident → Checked Prepared → Action Next
  unfolding finish_run start_step decide follow
  take_step before run incident (Checked.refused code) = finish_run AgentRunStatus.stopped code none
  take_step before run incident (Checked.accepted p) =
      let sequence = run.current_step + 1 in
      then_do (begin (start_step sequence p.context)) (λ _.
        then_do
          (decide w.reasoning p.context (w.eligible before) run_id w.step.step_id p.model_budget
            p.fallback_code)
          (follow before sequence run incident))

  unfoldable pub unless_limited : Option (AgentRunStatus × String) → Action Next → Action Next
  unfolding finish_run
  unless_limited none go = go
  unless_limited (some (status, reason)) go = finish_run status reason none

  unfoldable pub start_round : Db → AgentRun → Incident → Action Next
  unfolding unless_limited limit_reached take_step prepare plan_budget
  start_round before run incident =
      unless_limited (limit_reached w.now run)
        (take_step before run incident (prepare (λ b. w.build b before) (plan_budget w.model run)))

  -- One round: `_snapshot`, and what follows from it.
  unfoldable pub round : Action Next
  unfolding start_round get_agent_run get_incident
  round before =
      then_do (begin (get_agent_run run_id Error.attribute_error))
        (λ run.
          then_do (begin (get_incident run.incident_id Error.attribute_error))
            (λ incident. start_round before run incident))
        before

-- What a round came to.
abbrev pub went_on :
    Result Next → Db → (Db → Option (Result AgentRun) × Db) → Option (Result AgentRun) × Db
went_on (err e) d again = (some (err e), d)
went_on (ok (some run)) d again = (some (ok run), d)
went_on (ok none) d again = again d

-- The loop, on fuel: none where it runs out.
unfoldable pub run_rounds : ℕ → (ℕ → Round) → ℕ → Db → Option (Result AgentRun) × Db
unfolding round
run_rounds zero world run_id d = (none, d)
run_rounds (suc n) world run_id d =
    went_on (round (world 0) run_id d).0 (round (world 0) run_id d).1
      (run_rounds n (λ i. world (suc i)) run_id)

abbrev pub works : String → AgentRun → Bool
works worker_id run = is_status AgentRunStatus.running run.status && owns run.lease_owner
  where
    owns : Option String → Bool
    owns none = false
    owns (some owner) = owner is worker_id

unfoldable pub claimed :
    ℕ → Worker → (ℕ → Round) → ℕ → Result AgentRun → Db → Option (Result AgentRun) × Db
unfolding run_rounds is_status
claimed fuel worker world run_id (err e) d = (some (err e), d)
claimed fuel worker world run_id (ok run) d =
    if works worker.worker_id run then run_rounds fuel world run_id d else (some (ok run), d)

-- `AgentOrchestrator.process`
unfoldable pub process : ℕ → Worker → (ℕ → Round) → ℕ → Db → Option (Result AgentRun) × Db
unfolding claim claimed
process fuel worker world run_id d =
    claimed fuel worker world run_id (begin (claim worker run_id) d).0
      (begin (claim worker run_id) d).1
