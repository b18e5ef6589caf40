-- ===== src/AgentCore/Process.antt =====
-- `process` of app/ops_agent/agent_core.py: the loop that a worker runs for an agent run.
use k8s_ops_agent.Base.{
  ℕ, String, Bool, false, Option, none, some, List, [], ◌∷◌, leb, is_some, is_empty, if◌then◌else◌,
}
use k8s_ops_agent.Domain.{AgentRunStatus, AgentStepType}
use k8s_ops_agent.Json.{Json, Items, ident, arr, nil, item}
use k8s_ops_agent.Models.{AgentRun, Db}
use k8s_ops_agent.AgentCore.Budget.{ModelConfig, ModelBudget, Checked, budget}
use k8s_ops_agent.AgentCore.Deciding.{Context, Reasoning}
use k8s_ops_agent.AgentCore.Calling.{Step}

-- What a round of the loop meets: the clock when it starts, after the decision and at the end, the
-- reasoners, the context builder, and what a step draws and calls (but for its number).
pub record Round : Type 0 where
  pub now : ℕ
  pub decided_at : ℕ
  pub ended_at : ℕ
  pub task_id : ℕ
  pub model : Option ModelConfig  -- none for a reasoner that uses no model
  pub build : Option ModelBudget → Db → Checked Context
  pub eligible : Db → List ℕ
  pub reasoning : Reasoning
  pub step : Step

-- How a round ends: the run is returned, or the loop goes on.
abbrev pub Next : Type 0
Next = Option AgentRun

abbrev pub passed_deadline : ℕ → Option ℕ → Bool
passed_deadline now none = false
passed_deadline now (some deadline) = leb deadline now

-- Why a round ends the run before anything else.
unfoldable pub limit_reached : ℕ → AgentRun → Option (AgentRunStatus × String)
limit_reached now run =
    if is_some run.cancel_requested_at
    then some (AgentRunStatus.cancelled, "USER_CANCELLED")
    else if passed_deadline now run.deadline_at
    then some (AgentRunStatus.stopped, "RUN_DEADLINE_EXCEEDED")
    else if leb run.budget.max_steps run.current_step
    then some (AgentRunStatus.stopped, "MAX_STEPS_EXHAUSTED")
    else if leb run.budget.max_tool_calls run.tool_calls_used
    then some (AgentRunStatus.stopped, "TOOL_BUDGET_EXHAUSTED")
    else none

-- The model's budget, or the code of the error that stands in the way.
abbrev pub budget_or_code : Checked ModelBudget → Option ModelBudget × Option String
budget_or_code (Checked.accepted b) = (some b, none)
budget_or_code (Checked.refused code) = (none, some code)

unfoldable pub plan_budget : Option ModelConfig → AgentRun → Option ModelBudget × Option String
unfolding budget
plan_budget none run = (none, none)
plan_budget (some config) run = budget_or_code (budget config run)

-- A context with the budget and the code that go with it, or the code to stop with.
pub record Prepared : Type 0 where
  pub context : Context
  pub model_budget : Option ModelBudget
  pub fallback_code : Option String

abbrev without_model : String → Checked Context → Checked Prepared
without_model code (Checked.accepted c) =
    Checked.accepted (record { context = c; model_budget = none; fallback_code = some code })
without_model code (Checked.refused code') = Checked.refused code'

unfoldable pub prepare :
    (Option ModelBudget → Checked Context) → Option ModelBudget × Option String → Checked Prepared
prepare build (none, code) = elim (build none) [
  | Checked.accepted c ↦
      Checked.accepted (record { context = c; model_budget = none; fallback_code = code })
  | Checked.refused code' ↦ Checked.refused code'
]
prepare build (some b, code) = elim (build (some b)) [
  | Checked.accepted c ↦
      Checked.accepted (record { context = c; model_budget = some b; fallback_code = code })
  | Checked.refused code' ↦ without_model code' (build none)
]

abbrev pub ids_json : List ℕ → Json
ids_json ks = arr (items ks)
  where
    items : List ℕ → Items
    items [] = nil
    items (k ∷ js) = item (ident k) (items js)

abbrev pub step_type_value : AgentStepType → String
step_type_value AgentStepType.call_tool = "CALL_TOOL"
step_type_value AgentStepType.complete = "COMPLETE"
step_type_value AgentStepType.ask_human = "ASK_HUMAN"
step_type_value AgentStepType.stop = "STOP"

-- `text or default`
abbrev pub text_or : Option String → String → String
text_or none default = default
text_or (some s) default = if is_empty s then default else s
