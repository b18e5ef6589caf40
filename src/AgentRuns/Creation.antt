-- ===== src/AgentRuns/Creation.antt =====
-- `create_agent_run` of app/ops_agent/services.py. As with the executions, the key is unique in its
-- table, and `others` is what other workers commit between the first look and the insertion.
use Prim.Native.String.{◌++◌, compare}
use Prim.Native.Nat.{Ordering}
use k8s_ops_agent.Base.{
  ℕ, String, Bool, not, ◌&&◌, ◌||◌, Option, none, some, List, [], ◌∷◌, leb, is_in, is_empty, count,
  strip, if◌then◌else◌,
}
use k8s_ops_agent.Domain.{AgentRunMode}
use k8s_ops_agent.Json.{Number, Json, Fields, number, str, obj, end, field, get, truthy}
use k8s_ops_agent.Models.{Budget}
use k8s_ops_agent.Session.{Error, Result, ok, err}

-- The arguments of a call: the mode, if it is one that there is, and the JSON values of the goal and the
-- budget, none where they are missing.
pub record RunRequest : Type 0 where
  pub incident_id : ℕ
  pub mode : Option AgentRunMode
  pub idempotency_key : Option String
  pub enqueue : Bool
  pub goal : Option Json
  pub budget : Option Json
  pub model_name : Option String

abbrev invalid_goal : Result String
invalid_goal = err (Error.validation_error "goal must be a non-empty string up to 500 characters")

abbrev checked_text : String → Result String
checked_text s =
    if is_empty (strip s) || not (leb (count s) 500) then invalid_goal else ok (strip s)

-- `goal or "…"`, which must be a text.
abbrev checked_value : Json → Result String
checked_value (str s) = checked_text s
checked_value v = invalid_goal

unfoldable pub default_goal : String
default_goal = "Diagnose the incident from read-only evidence"

unfoldable pub check_goal : Option Json → Result String
unfolding default_goal
check_goal none = ok default_goal
check_goal (some v) = if truthy v then checked_value v else ok default_goal

unfoldable pub budget_names : List String
budget_names =
    "max_steps" ∷ "max_tool_calls" ∷ "run_timeout_seconds" ∷ "per_tool_timeout_seconds"
    ∷ "max_model_calls" ∷ "max_total_tokens" ∷ []

abbrev earlier : String → Option String → Option String
earlier s none = some s
earlier s (some t) = elim (compare s t) [ Ordering.gt ↦ some t | _ ↦ some s ]

-- `sorted(set(budget) - set(budget_spec))[0]`
unfoldable pub first_unknown : Fields → Option String
unfolding budget_names
first_unknown end = none
first_unknown (field k v fs) =
    let rest = first_unknown fs in if is_in k budget_names then rest else earlier k rest

abbrev out_of_range : String → String → Result ℕ
out_of_range name range = err (Error.validation_error (name ++ " must be between " ++ range))

abbrev pub in_range : String → ℕ → ℕ → String → Option ℕ → Result ℕ
in_range name minimum maximum range none = out_of_range name range
in_range name minimum maximum range (some n) =
    if leb minimum n && leb n maximum then ok n else out_of_range name range

abbrev pub and_then : {A B : Type 0} → Result A → (A → Result B) → Result B
and_then (ok a) f = f a
and_then (err e) f = err e

abbrev pub budget_fields : Json → Result Fields
budget_fields (obj fs) = ok fs
budget_fields v = err (Error.validation_error "budget must be an object")

-- `natural` is the value of a number that is an int and not below zero.
module _ (natural : Number → Option ℕ) where
  abbrev number_value : Json → Option ℕ
  number_value (number n) = natural n
  number_value v = none

  abbrev value_or : Option Json → ℕ → Option ℕ
  value_or none default = some default
  value_or (some v) default = number_value v

  -- One entry of `budget_spec`.
  unfoldable pub check_value : Fields → String → ℕ → ℕ → ℕ → String → Result ℕ
  unfolding get
  check_value fields name default minimum maximum range =
      in_range name minimum maximum range (value_or (get name fields) default)

  unfoldable pub check_values : Fields → Result Budget
  unfolding check_value
  check_values fields = and_then (check_value fields "max_steps" 8 1 16 "1 and 16") (λ steps.
      and_then (check_value fields "max_tool_calls" 6 1 12 "1 and 12") (λ calls.
        and_then (check_value fields "run_timeout_seconds" 120 10 300 "10 and 300") (λ run.
          and_then (check_value fields "per_tool_timeout_seconds" 15 1 30 "1 and 30") (λ tool.
            and_then (check_value fields "max_model_calls" 4 0 8 "0 and 8") (λ model.
              and_then (check_value fields "max_total_tokens" 20000 1000 100000 "1000 and 100000")
                (λ tokens. ok (record {
                  max_steps = steps;
                  max_tool_calls = calls;
                  run_timeout_seconds = run;
                  per_tool_timeout_seconds = tool;
                  max_model_calls = model;
                  max_total_tokens = tokens;
                })))))))

  abbrev pub unless_unknown : Fields → Option String → Result Budget
  unless_unknown fields (some name) =
      err (Error.validation_error ("unsupported budget field: " ++ name))
  unless_unknown fields none = check_values fields

  unfoldable pub check_fields : Fields → Result Budget
  unfolding first_unknown check_values
  check_fields fields = unless_unknown fields (first_unknown fields)

  unfoldable pub check_budget : Option Json → Result Budget
  unfolding check_fields
  check_budget none = check_fields end
  check_budget (some v) =
      if truthy v then and_then (budget_fields v) check_fields else check_fields end

  abbrev pub check_parts :
      RunRequest → Option AgentRunMode → Result ((AgentRunMode × String) × Budget)
  check_parts r none = err (Error.validation_error "unsupported agent run mode")
  check_parts r (some mode) =
      and_then (check_goal r.goal)
        (λ goal. and_then (check_budget r.budget) (λ b. ok ((mode, goal), b)))

  -- The mode, the goal and the budget, in this order.
  unfoldable pub check_request : RunRequest → Result ((AgentRunMode × String) × Budget)
  unfolding check_goal check_budget
  check_request r = check_parts r r.mode
