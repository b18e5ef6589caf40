-- ===== src/AgentCore/Deciding.antt =====
-- `_decide` of app/ops_agent/agent_core.py: the accounting around a call of the model, and the fallback.
use k8s_ops_agent.Base.{
  ℕ, ◌+◌, ◌-◌, String, Bool, true, false, not, ◌&&◌, ◌||◌, Option, none, some, List, [], ltb, leb,
  if◌then◌else◌,
}
use k8s_ops_agent.Domain.{AgentStepType}
use k8s_ops_agent.Json.{Number, Json, null, bool, number, str, ident, obj, field, end}
use k8s_ops_agent.Evidence.Redaction.{Python}
use k8s_ops_agent.Models.{AgentRun, Db}
use k8s_ops_agent.Session.{
  Error, Result, ok, err, Tx, Action, pure, ◌>>=◌, ◌>>◌, begin, then_do, get_agent_run,
}
use k8s_ops_agent.Tools.{ToolRegistry}
use k8s_ops_agent.AgentCore.Store.{audit_run, write_run}
use k8s_ops_agent.AgentCore.Budget.{ModelBudget, Checked}
use k8s_ops_agent.AgentCore.Decision.{
  NextDecision, Failure, DecisionChecks, subset, validate_next_decision,
}

-- What the code reads of a context: the evidence in it, the items that are fresh and of the right UID,
-- whether observations conflict, and what it is estimated to cost.
pub record Context : Type 0 where
  pub visible_evidence_ids : List ℕ
  pub current_ids : List ℕ
  pub conflicting_observations : Bool
  pub estimated_input : ℕ

-- How the reasoner ends: with a decision, or with an exception (its code, if it has one, and the
-- tokens that it accounts for).
pub data ModelAnswer : Type 0 where
  answered : NextDecision → ModelAnswer
  raised : Option String → Option (ℕ × ℕ) → ModelAnswer

-- How the fallback ends, which gets the evidence that is fresh and of the right UID.
pub data FallbackAnswer : Type 0 where
  decided : NextDecision → FallbackAnswer
  failed : Failure → FallbackAnswer

-- The two reasoners, what others commit while the model thinks, and the checks of a decision.
pub record Reasoning : Type 0 where
  pub decide : Context → ModelAnswer
  pub fallback : Context → List ℕ → FallbackAnswer
  pub others : Db → Db
  pub checks : DecisionChecks
  pub registry : ToolRegistry
  pub python : Python
  pub zero : Number  -- 0.0

abbrev pub digits_of : Python → ℕ → Json
digits_of python n = number (record { digits = python.digits n; is_zero = leb n 0 })

-- The code of a failure, by default MODEL_UNAVAILABLE.
abbrev pub code_of : Failure → String
code_of (Failure.decision_error code) = code
code_of (Failure.tool_failed e) = e.code
code_of (Failure.other kind) = "MODEL_UNAVAILABLE"

-- A DecisionError or a ToolError is caught by `process`, with its code; no other exception is.
abbrev pub checked : Option Failure → NextDecision → Result (Checked NextDecision)
checked none d = ok (Checked.accepted d)
checked (some (Failure.decision_error code)) d = ok (Checked.refused code)
checked (some (Failure.tool_failed e)) d = ok (Checked.refused e.code)
checked (some (Failure.other kind)) d = err (Error.external kind "")

abbrev is_complete : AgentStepType → Bool
is_complete AgentStepType.complete = true
is_complete t = false

abbrev or_code : Option String → String
or_code none = "MODEL_UNAVAILABLE"
or_code (some code) = code

-- What a call of the model came to: a decision or the code of a failure, and the tokens, if known.
pub record ModelOutcome : Type 0 where
  pub result : Checked NextDecision
  pub accounting : Option (ℕ × ℕ)

abbrev pub refusal : Option Failure → NextDecision → Checked NextDecision
refusal none d = Checked.accepted d
refusal (some f) d = Checked.refused (code_of f)

-- `eligible` is the snapshot's evidence that is fresh and of the right UID when the fallback decides.
module _ (r : Reasoning) (context : Context) (eligible : List ℕ) where
  -- The model's decision, validated, and a conclusion from current and consistent evidence only.
  unfoldable pub model_error : NextDecision → Option Failure
  unfolding validate_next_decision
  model_error d = elim (validate_next_decision r.checks r.registry context.visible_evidence_ids d) [
    | some f ↦ some f
    | none ↦
        if is_complete d.decision_type
          && (not (subset d.evidence_ids context.current_ids) || context.conflicting_observations)
        then some (Failure.decision_error "INSUFFICIENT_CURRENT_EVIDENCE")
        else none
  ]

  unfoldable pub outcome : ModelAnswer → ModelOutcome
  unfolding model_error
  outcome (answered d) = record { result = refusal (model_error d) d; accounting = d.usage }
  outcome (raised code accounting) = record {
    result = Checked.refused (or_code code);
    accounting = accounting;
  }

  unfoldable pub conflict_decision : Option String → NextDecision
  conflict_decision fallback_code = record {
    decision_type = AgentStepType.ask_human;
    tool_name = none;
    arguments = end;
    decision_summary = "Conflicting observations require confirmation";
    evidence_ids = [];
    confidence = r.zero;
    stop_reason = some "CONFLICTING_EVIDENCE";
    diagnosis = none;
    provider = "rules";
    usage = none;
    fallback_error_code = fallback_code;
  }

  -- `fallback_code or decision.fallback_error_code`
  abbrev with_code : Option String → NextDecision → NextDecision
  with_code none d = d
  with_code (some code) d = record d { fallback_error_code = some code }

  unfoldable pub after_fallback : Option String → FallbackAnswer → Result (Checked NextDecision)
  unfolding validate_next_decision
  after_fallback code (decided d) =
      checked (validate_next_decision r.checks r.registry eligible (with_code code d))
        (with_code code d)
  after_fallback code (failed (Failure.decision_error c)) = ok (Checked.refused c)
  after_fallback code (failed (Failure.tool_failed e)) = ok (Checked.refused e.code)
  after_fallback code (failed (Failure.other kind)) = err (Error.external kind "")

  -- Without a decision of the model.
  unfoldable pub fall_back : Option String → Action (Checked NextDecision)
  unfolding validate_next_decision conflict_decision after_fallback
  fall_back code d =
      if context.conflicting_observations
      then (
        checked (validate_next_decision r.checks r.registry [] (conflict_decision code))
            (conflict_decision code),
        d,
      )
      else (after_fallback code (r.fallback context eligible), d)

  unfoldable pub reserve : ℕ → ℕ → ModelBudget → Tx (Unit {0})
  unfolding write_run audit_run
  reserve run_id step_id b = do
    write_run run_id (λ run. record run {
      model_calls_used = run.model_calls_used + 1;
      input_tokens_used = run.input_tokens_used + (context.estimated_input + b.safety_margin);
      output_tokens_used = run.output_tokens_used + b.output_tokens;
    })
    audit_run r.python run_id "agent_model.started" (
        field "step_id" (ident step_id) (
          field "usage_known" (bool false) (
            field "reserved_input" (digits_of r.python (context.estimated_input + b.safety_margin))
              (field "reserved_output" (digits_of r.python b.output_tokens) end))))

  -- The tokens that were used, in place of those that were reserved.
  unfoldable pub accounted : ModelBudget → Option (ℕ × ℕ) → AgentRun → AgentRun
  accounted b none run = run
  accounted b (some (i, o)) run = record run {
    input_tokens_used = run.input_tokens_used + i - (context.estimated_input + b.safety_margin);
    output_tokens_used = run.output_tokens_used + o - b.output_tokens;
  }

  abbrev usage_json : Option (ℕ × ℕ) → Json
  usage_json none = null
  usage_json (some (i, o)) = obj (
      field "input_tokens" (digits_of r.python i)
        (field "output_tokens" (digits_of r.python o) end))

  abbrev is_known : Option (ℕ × ℕ) → Bool
  is_known none = false
  is_known (some u) = true

  abbrev reason_json : Option String → Json
  reason_json none = null
  reason_json (some code) = str code

  -- Whether the run's tokens are used up.
  unfoldable pub settle_usage : ℕ → ℕ → ModelBudget → Option (ℕ × ℕ) → Option String → Tx Bool
  unfolding write_run get_agent_run audit_run accounted
  settle_usage run_id step_id b usage code = do
    write_run run_id (accounted b usage)
    current ← get_agent_run run_id Error.attribute_error
    audit_run r.python run_id "agent_model.finished" (
        field "step_id" (ident step_id) (
          field "usage_known" (bool (is_known usage)) (
            field "actual_usage" (usage_json usage)
              (field "fallback_reason" (reason_json code) end))))
    pure (
        ltb current.budget.max_total_tokens
          (current.input_tokens_used + current.output_tokens_used))

  abbrev pub code_after : Option String → Checked NextDecision → Option String
  code_after code (Checked.accepted d) = code
  code_after code (Checked.refused c) = some c

  unfoldable pub or_fall_back : Option String → Checked NextDecision → Action (Checked NextDecision)
  unfolding fall_back
  or_fall_back code (Checked.accepted d) e = (ok (Checked.accepted d), e)
  or_fall_back code (Checked.refused c) e = fall_back (some c) e

  unfoldable pub after_model :
      ℕ → ℕ → ModelBudget → Option String → ModelOutcome → Action (Checked NextDecision)
  unfolding settle_usage or_fall_back
  after_model run_id step_id b code o =
      then_do (begin (settle_usage run_id step_id b o.accounting (code_after code o.result)))
        (λ exhausted.
          if exhausted
          then (λ e. (ok (Checked.refused "MODEL_BUDGET_EXHAUSTED"), e))
          else or_fall_back code o.result)

  -- The call of the model, during which others commit.
  unfoldable pub ask_model : ℕ → ℕ → ModelBudget → Option String → Action (Checked NextDecision)
  unfolding reserve outcome after_model
  ask_model run_id step_id b code =
      then_do (begin (reserve run_id step_id b))
        (λ _ d. after_model run_id step_id b code (outcome (r.decide context)) (r.others d))

  -- `AgentOrchestrator._decide`
  unfoldable pub decide : ℕ → ℕ → Option ModelBudget → Option String → Action (Checked NextDecision)
  unfolding ask_model fall_back
  decide run_id step_id none code = fall_back code
  decide run_id step_id (some b) code = ask_model run_id step_id b code
