-- ===== src/AgentRuns/Bounds.antt =====
-- The limits of a run that `create_agent_run` makes.
use k8s_ops_agent.Base.{ℕ, ◌≤◌, ◌≡◌, refl, String, Option, none, some, arith, Bool-cases, inl, inr}
use k8s_ops_agent.Domain.{AgentRunMode}
use k8s_ops_agent.Json.{Number, Json, Fields, end, truthy}
use k8s_ops_agent.Models.{Budget}
use k8s_ops_agent.Session.{Result, ok, err}
use k8s_ops_agent.AgentRuns.Creation.{
  RunRequest, in_range, and_then, check_value, check_values, check_fields, check_budget, check_goal,
  first_unknown, check_request, budget_fields, unless_unknown, check_parts,
}

-- The limits that the service allows.
pub record RunLimits (b : Budget) : Type 0 where
  pub steps : (1 ≤ b.max_steps) × (b.max_steps ≤ 16)
  pub tool_calls : (1 ≤ b.max_tool_calls) × (b.max_tool_calls ≤ 12)
  pub run_timeout : (10 ≤ b.run_timeout_seconds) × (b.run_timeout_seconds ≤ 300)
  pub tool_timeout : (1 ≤ b.per_tool_timeout_seconds) × (b.per_tool_timeout_seconds ≤ 30)
  pub model_calls : b.max_model_calls ≤ 8
  pub tokens : (1000 ≤ b.max_total_tokens) × (b.max_total_tokens ≤ 100000)

and_then_ok :
    {A B : Type 0} {P : Type 0} (r : Result A) (f : A → Result B) (b : B)
    → and_then r f ≡ ok b
    → ((a : A) → r ≡ ok a → f a ≡ ok b → P)
    → P
and_then_ok (ok a) f b h go = go a refl h
and_then_ok (err e) f b h go = absurd (cc h)

in_range_ok :
    (name : String) (minimum maximum : ℕ) (range : String) (v : Option ℕ) (n : ℕ)
    → in_range name minimum maximum range v ≡ ok n
    → (minimum ≤ n) × (n ≤ maximum)
in_range_ok name minimum maximum range none n h = absurd (cc h)
in_range_ok name minimum maximum range (some m) n h = (ground (arith, h), ground (arith, h))

module _ (natural : Number → Option ℕ) where
  check_value_ok :
      (fields : Fields) (name : String) (default minimum maximum : ℕ) (range : String) (n : ℕ)
      → check_value natural fields name default minimum maximum range ≡ ok n
      → (minimum ≤ n) × (n ≤ maximum)
  unfolding check_value
  check_value_ok fields name default minimum maximum range n h =
      in_range_ok name minimum maximum range _ n h

  check_values-RunLimits :
      (fields : Fields) (b : Budget) → check_values natural fields ≡ ok b → RunLimits b
  unfolding check_values
  check_values-RunLimits fields b h =
      and_then_ok (check_value natural fields "max_steps" 8 1 16 "1 and 16") _ b h (λ steps e1 h1.
        and_then_ok (check_value natural fields "max_tool_calls" 6 1 12 "1 and 12") _ b h1
          (λ calls e2 h2.
            and_then_ok (check_value natural fields "run_timeout_seconds" 120 10 300 "10 and 300") _
              b h2
              (λ run e3 h3.
                and_then_ok
                  (check_value natural fields "per_tool_timeout_seconds" 15 1 30 "1 and 30") _ b h3
                  (λ tool e4 h4.
                    and_then_ok (check_value natural fields "max_model_calls" 4 0 8 "0 and 8") _ b
                      h4
                      (λ model e5 h5.
                        and_then_ok
                          (check_value natural fields "max_total_tokens" 20000 1000 100000
                            "1000 and 100000")
                          _ b h5
                          (λ tokens e6 h6.
                            let same : b ≡ record {
                              max_steps = steps;
                              max_tool_calls = calls;
                              run_timeout_seconds = run;
                              per_tool_timeout_seconds = tool;
                              max_model_calls = model;
                              max_total_tokens = tokens;
                            } =
                              cc h6 in
                            rw same (record {
                              steps = check_value_ok fields "max_steps" 8 1 16 "1 and 16" steps e1;
                              tool_calls =
                                  check_value_ok fields "max_tool_calls" 6 1 12 "1 and 12" calls e2;
                              run_timeout =
                                  check_value_ok fields "run_timeout_seconds" 120 10 300
                                    "10 and 300" run e3;
                              tool_timeout =
                                  check_value_ok fields "per_tool_timeout_seconds" 15 1 30
                                    "1 and 30" tool e4;
                              model_calls =
                                  (check_value_ok fields "max_model_calls" 4 0 8 "0 and 8" model
                                    e5).1;
                              tokens =
                                  check_value_ok fields "max_total_tokens" 20000 1000 100000
                                    "1000 and 100000" tokens e6;
                            })))))))

  unless_unknown-RunLimits :
      (fields : Fields) (o : Option String) (b : Budget)
      → unless_unknown natural fields o ≡ ok b
      → RunLimits b
  unless_unknown-RunLimits fields (some name) b h = absurd (cc h)
  unless_unknown-RunLimits fields none b h = check_values-RunLimits fields b h

  check_fields-RunLimits :
      (fields : Fields) (b : Budget) → check_fields natural fields ≡ ok b → RunLimits b
  unfolding check_fields
  check_fields-RunLimits fields b h = unless_unknown-RunLimits fields (first_unknown fields) b h

  check_budget-RunLimits :
      (v : Option Json) (b : Budget) → check_budget natural v ≡ ok b → RunLimits b
  unfolding check_budget
  check_budget-RunLimits none b h = check_fields-RunLimits end b h
  check_budget-RunLimits (some v) b h = elim (Bool-cases (truthy v)) [
    | inl y ↦
        and_then_ok (budget_fields v) (check_fields natural) b (rw y at h)
          (λ fields e h'. check_fields-RunLimits fields b h')
    | inr n ↦ check_fields-RunLimits end b (rw n at h)
  ]

  check_parts-RunLimits :
      (r : RunRequest) (o : Option AgentRunMode) (checked : (AgentRunMode × String) × Budget)
      → check_parts natural r o ≡ ok checked
      → RunLimits checked.1
  check_parts-RunLimits r none checked h = absurd (cc h)
  check_parts-RunLimits r (some m) checked h =
      and_then_ok (check_goal r.goal)
        (λ goal. and_then (check_budget natural r.budget) (λ b. ok ((m, goal), b))) checked h
        (λ g e1 h1.
          and_then_ok (check_budget natural r.budget) (λ b. ok ((m, g), b)) checked h1
            (λ c e2 h2. check_budget-RunLimits r.budget checked.1 (rw e2 (cc h2))))

  pub check_request-RunLimits :
      (r : RunRequest) (checked : (AgentRunMode × String) × Budget)
      → check_request natural r ≡ ok checked
      → RunLimits checked.1
  unfolding check_request
  check_request-RunLimits r checked h = check_parts-RunLimits r r.mode checked h
