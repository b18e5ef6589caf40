-- ===== src/AgentCore/Rounding.antt =====
-- Each part of a round of app/ops_agent/agent_core.py leaves the limits of the run, and the last one
-- has counted the step.
use k8s_ops_agent.Base.{
  ℕ, ◌≡◌, refl, ◌∙◌, String, Option, none, some, List, arith, Bool-cases, Option-cases, inl, inr,
  find, update, find-update_self,
}
use k8s_ops_agent.Json.{Fields}
use k8s_ops_agent.Models.{AgentRun, Budget, Db}
use k8s_ops_agent.Session.{Result, ok, err, commit, proceed, get_agent_run}
use k8s_ops_agent.Session.Leaves.{Leaves, left}
use k8s_ops_agent.Recovery.Work.{set_agent_run}
use k8s_ops_agent.Tools.{ToolResult, ToolDefinition, Tooling}
use k8s_ops_agent.AgentCore.Store.{write_run}
use k8s_ops_agent.AgentCore.Exclusive.{runs_of}
use k8s_ops_agent.AgentCore.Budget.{ModelBudget, Checked}
use k8s_ops_agent.AgentCore.Decision.{NextDecision}
use k8s_ops_agent.AgentCore.Deciding.{
  Context, Reasoning, ModelOutcome, fall_back, or_fall_back, reserve, accounted, settle_usage,
  outcome, after_model, ask_model, decide,
}
use k8s_ops_agent.AgentCore.Calling.{
  Step, bound_target, store_result, keep_result, keep_outcome, allow_call, attempts, call_tool,
}
use k8s_ops_agent.AgentCore.Progress.{limits_rules, limits}
use k8s_ops_agent.AgentCore.Advance.{
  Advanced, Steady, Steady-begin, Steady-if, Steady-then_do, Advances, Advances-never,
  Advances-then_do, Advances-returns,
}

-- The two accounts of a model call.
module _ (r : Reasoning) (context : Context) (eligible : List ℕ) (k step_id : ℕ)
    (b : ModelBudget) where
  Leaves-reserve : Leaves (limits k) (reserve r context eligible k step_id b)
  unfolding reserve
  Leaves-reserve = search limits_rules depth 30

  accounted_budget :
      (usage : Option (ℕ × ℕ)) (run : AgentRun)
      → (accounted r context eligible b usage run).budget ≡ run.budget
  unfolding accounted
  accounted_budget none run = refl
  accounted_budget (some (i, o)) run = refl

  Leaves-settle_usage :
      (usage : Option (ℕ × ℕ)) (code : Option String)
      → Leaves (limits k) (settle_usage r context eligible k step_id b usage code)
  unfolding settle_usage
  Leaves-settle_usage usage code = search (limits_rules, accounted_budget) depth 30

  Steady-fall_back : (code : Option String) → Steady k (fall_back r context eligible code)
  unfolding fall_back
  Steady-fall_back code = record {
    at = λ d. elim (Bool-cases context.conflicting_observations) [
      | inl y ↦ rw y refl
      | inr n ↦ rw n refl
    ];
  }

  Steady-or_fall_back :
      (code : Option String) (c : Checked NextDecision)
      → Steady k (or_fall_back r context eligible code c)
  unfolding or_fall_back
  Steady-or_fall_back code (Checked.accepted d) = record { at = λ e. refl }
  Steady-or_fall_back code (Checked.refused c) = Steady-fall_back (some c)

  Steady-after_model :
      (code : Option String) (o : ModelOutcome)
      → Steady k (after_model r context eligible k step_id b code o)
  unfolding after_model
  Steady-after_model code o =
      Steady-then_do k _ _ (Steady-begin k _ (Leaves-settle_usage o.accounting _)) (λ exhausted.
        Steady-if k exhausted _ _ (record { at = λ d. refl }) (Steady-or_fall_back code o.result))

  module _ (keeps : (d : Db) → limits k (r.others d) ≡ limits k d) where
    Steady-ask_model :
        (code : Option String) → Steady k (ask_model r context eligible k step_id b code)
    unfolding ask_model
    Steady-ask_model code = Steady-then_do k _ _ (Steady-begin k _ Leaves-reserve) (λ _. record {
      at = λ d.
          (Steady-after_model code (outcome r context eligible (r.decide context))).at (r.others d)
          ∙ keeps d;
    })

pub Steady-decide :
    (r : Reasoning) (context : Context) (eligible : List ℕ) (k step_id : ℕ)
    → ((d : Db) → limits k (r.others d) ≡ limits k d)
    → (b : Option ModelBudget) (code : Option String)
    → Steady k (decide r context eligible k step_id b code)
unfolding decide
Steady-decide r context eligible k step_id keeps none code =
    Steady-fall_back r context eligible k step_id
      (record { input_limit = 0; output_tokens = 0; safety_margin = 0 }) code
Steady-decide r context eligible k step_id keeps (some b) code =
    Steady-ask_model r context eligible k step_id b keeps code

module _ (s : Step) (k incident_id : ℕ) where
  Leaves-allow_call :
      (tool_name version : String) (arguments : Fields)
      → Leaves (limits k) (allow_call s k incident_id tool_name version arguments)
  unfolding allow_call
  Leaves-allow_call tool_name version arguments = search limits_rules

  Leaves-store_result :
      (tool_name : String) (count : ℕ) (result : ToolResult)
      → Leaves runs_of (store_result s k incident_id tool_name count result)
  unfolding store_result
  Leaves-store_result tool_name count result =
      let same = λ (d e : Db) (h : e.agent_runs ≡ d.agent_runs). h in search (limits_rules, same)

  -- What is stored of a result: the step is counted.
  keep_result-Advanced :
      (b : Budget) (tool_name : String) (count : ℕ) (result : ToolResult) (d e : Db)
      → limits k d ≡ some b
      → keep_result s k incident_id tool_name count result d ≡ ok (tt, e)
      → Advanced k b s.sequence e
  unfolding keep_result write_run get_agent_run set_agent_run
  keep_result-Advanced b tool_name count result d e l h =
      elim (Option-cases (find k d.agent_runs)) [
        | inl n ↦ absurd (ground (arith, h, n))
        | inr (run, has) ↦
            let after = record run {
              current_step = s.sequence;
              target_snapshot = bound_target tool_name result.content run.target_snapshot;
            } in
            let runs =
              left runs_of (store_result s k incident_id tool_name count result)
                (record d { agent_runs = update k after d.agent_runs }) e tt
                (Leaves-store_result tool_name count result) (ground (arith, h, has)) in
            record {
              run = after;
              stored = rw runs (find-update_self k after run d.agent_runs has);
              step = refl;
              same_limits = ground (arith, l, has);
            }
      ]

  module _ (b : Budget) where
    kept :
        (d : Db) (r : Result (Unit {0} × Db)) (next : Result (Option String))
        → ((e : Db) → r ≡ ok (tt, e) → Advanced k b s.sequence e)
        → (proceed (commit d r).0 (λ _ e. (next, e)) (commit d r).1).0 ≡ ok none
        → Advanced k b s.sequence (proceed (commit d r).0 (λ _ e. (next, e)) (commit d r).1).1
    kept d (ok (x, e)) next f h = f e (ground arith)
    kept d (err x) next f h = absurd (cc h)

    keep_outcome-Advances :
        (tool_name : String) (count : ℕ) (t : Tooling ToolResult)
        → Advances k b s.sequence (keep_outcome s k incident_id tool_name count t)
    unfolding keep_outcome
    keep_outcome-Advances tool_name count (Tooling.done result) = record {
      at = λ d l h.
          kept d (keep_result s k incident_id tool_name count result d) (ok none)
            (λ e. keep_result-Advanced b tool_name count result d e l) h;
    }
    keep_outcome-Advances tool_name count (Tooling.failed error) =
        Advances-returns k b s.sequence _ (λ _. error.code)
    keep_outcome-Advances tool_name count (Tooling.crashed kind message) =
        Advances-never k b s.sequence _ (λ d h. cc h)

    pub call_tool-Advances :
        ((d : Db) → limits k (s.others d) ≡ limits k d)
        → (tool_name : String) (tool : ToolDefinition) (arguments : Fields) (timeout_seconds : ℕ)
        → Advances k b s.sequence
            (call_tool s k incident_id tool_name tool arguments timeout_seconds)
    unfolding call_tool
    call_tool-Advances keeps tool_name tool arguments timeout_seconds =
        Advances-then_do k b s.sequence _ _
          (Steady-begin k _ (Leaves-allow_call tool_name tool.version arguments))
          (λ _.
            let a = attempts s k incident_id tool_name arguments timeout_seconds in
            record {
              at = λ d l h.
                  (keep_outcome-Advances tool_name a.count a.last).at (s.others d) (keeps d ∙ l) h;
            })
