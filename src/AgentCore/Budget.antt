-- ===== src/AgentCore/Budget.antt =====
-- The model's budget: `OpenAIDecisionReasoner.budget` of app/ops_agent/agent_core.py.
use k8s_ops_agent.Base.{
  ℕ, ◌+◌, ◌-◌, ◌≤◌, ◌<◌, ◌≡◌, min, String, false, ◌||◌, Option, none, some, arith, Bool-cases,
  Option-cases, inl, inr, leb, if◌then◌else◌,
}
use k8s_ops_agent.Models.{AgentRun}

-- The reasoner's configuration: none where it is no integer or below zero, which is refused alike.
pub record ModelConfig : Type 0 where
  pub context_window : Option ℕ
  pub input_limit : Option ℕ
  pub output_tokens : Option ℕ
  pub safety_margin : Option ℕ

pub record ModelBudget : Type 0 where
  pub input_limit : ℕ
  pub output_tokens : ℕ
  pub safety_margin : ℕ

-- A value, or a DecisionError (its code).
pub data Checked (A : Type 0) : Type 0 where
  accepted : A → Checked A
  refused : String → Checked A

-- The three bounds on the input, none of which may be passed. The differences stop at 0 here, where
-- the code's go below it: both are refused.
unfoldable pub input_room : ℕ → ℕ → ℕ → ℕ → AgentRun → ℕ
input_room window limit output margin run =
    let remaining = run.budget.max_total_tokens - run.input_tokens_used - run.output_tokens_used in
    min (min (window - output - margin) (remaining - output - margin)) limit

unfoldable pub budget_of : ℕ → ℕ → ℕ → ℕ → AgentRun → Checked ModelBudget
unfolding input_room
budget_of window limit output margin run =
    if leb window 0 || leb limit 0 || leb output 0
    then Checked.refused "MODEL_CONFIG_INVALID"
    else if leb (input_room window limit output margin run) 0
        || leb run.budget.max_model_calls run.model_calls_used
    then Checked.refused "MODEL_BUDGET_EXHAUSTED"
    else Checked.accepted (record {
      input_limit = input_room window limit output margin run;
      output_tokens = output;
      safety_margin = margin;
    })

unfoldable pub budget : ModelConfig → AgentRun → Checked ModelBudget
unfolding budget_of
budget c run = elim c.context_window [
  | none ↦ Checked.refused "MODEL_CONFIG_INVALID"
  | some window ↦ elim c.input_limit [
    | none ↦ Checked.refused "MODEL_CONFIG_INVALID"
    | some limit ↦ elim c.output_tokens [
      | none ↦ Checked.refused "MODEL_CONFIG_INVALID"
      | some output ↦ elim c.safety_margin [
        | none ↦ Checked.refused "MODEL_CONFIG_INVALID"
        | some margin ↦ budget_of window limit output margin run
      ]
    ]
  ]
]

-- What a budget leaves room for.
pub record WithinBudget (c : ModelConfig) (run : AgentRun) (b : ModelBudget) : Type 0 where
  pub window : ℕ
  pub configured : c.context_window ≡ some window
  pub some_input : 0 < b.input_limit
  pub some_output : 0 < b.output_tokens
  pub in_window : b.input_limit + b.output_tokens + b.safety_margin ≤ window
  pub in_run :
      run.input_tokens_used
        + run.output_tokens_used
        + (b.input_limit + b.safety_margin + b.output_tokens)
      ≤ run.budget.max_total_tokens
  pub call_left : run.model_calls_used < run.budget.max_model_calls

room_bounds :
    (window limit output margin : ℕ) (run : AgentRun)
    → leb (input_room window limit output margin run) 0 ≡ false
    → (0 < input_room window limit output margin run)
      × (input_room window limit output margin run + output + margin ≤ window)
      × (run.input_tokens_used
            + run.output_tokens_used
            + (input_room window limit output margin run + margin + output)
          ≤ run.budget.max_total_tokens)
unfolding input_room
room_bounds window limit output margin run h =
    (ground (arith, h), ground (arith, h), ground (arith, h))

within :
    (c : ModelConfig) (run : AgentRun) (b : ModelBudget) (window limit output margin : ℕ)
    → c.context_window ≡ some window
    → budget_of window limit output margin run ≡ Checked.accepted b
    → WithinBudget c run b
unfolding budget_of
within c run b window limit output margin cw h =
    let room = input_room window limit output margin run in
    elim (Bool-cases (leb window 0 || leb limit 0 || leb output 0)) [
      | inl y ↦ absurd (ground (arith, h, y))
      | inr n ↦
          elim (Bool-cases (leb room 0 || leb run.budget.max_model_calls run.model_calls_used)) [
            | inl y ↦ absurd (ground (arith, h, n, y))
            | inr m ↦
                let (some_input, in_window, in_run) =
                  room_bounds window limit output margin run (ground (arith, m)) in
                let same : b ≡ record {
                  input_limit = room;
                  output_tokens = output;
                  safety_margin = margin;
                } =
                  ground (arith, h, n, m) in
                record {
                  window = window;
                  configured = cw;
                  some_input = rw same some_input;
                  some_output = rw same (ground (arith, n));
                  in_window = rw same in_window;
                  in_run = rw same in_run;
                  call_left = ground (arith, m);
                }
          ]
    ]

-- A budget that the reasoner gets leaves room: its input, its output and the margin fit the model's
-- window, all three together fit what is left of the run's tokens, and a model call is left.
pub budget-WithinBudget :
    (c : ModelConfig) (run : AgentRun) (b : ModelBudget)
    → budget c run ≡ Checked.accepted b
    → WithinBudget c run b
unfolding budget budget_of
budget-WithinBudget c run b h = elim (Option-cases c.context_window) [
  | inl e ↦ absurd (ground (arith, h, e))
  | inr (window, cw) ↦ elim (Option-cases c.input_limit) [
    | inl e ↦ absurd (ground (arith, h, e, cw))
    | inr (limit, cl) ↦ elim (Option-cases c.output_tokens) [
      | inl e ↦ absurd (ground (arith, h, e, cw, cl))
      | inr (output, co) ↦ elim (Option-cases c.safety_margin) [
        | inl e ↦ absurd (ground (arith, h, e, cw, cl, co))
        | inr (margin, cm) ↦ within c run b window limit output margin cw (rw (cw, cl, co, cm) at h)
      ]
    ]
  ]
]
