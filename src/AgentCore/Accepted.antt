-- ===== src/AgentCore/Accepted.antt =====
-- What `validate_next_decision` lets pass.
use mathlib.Core.List.{Memᴰ}
use k8s_ops_agent.Base.{
  ℕ, ◌≡◌, refl, String, true, false, none, some, List, [], ◌∷◌, arith, ◌==◌, is_empty, inl, inr,
  Bool-cases, Option-cases, List-cases,
}
use k8s_ops_agent.Domain.{AgentStepType}
use k8s_ops_agent.Json.{Fields, obj, truthy}
use k8s_ops_agent.Models.{Diagnosis}
use k8s_ops_agent.Tools.{ToolRegistry, Tooling, ToolDefinition, get_tool}
use k8s_ops_agent.AgentCore.Decision.{
  NextDecision, DecisionChecks, mem, subset, cites_same, registered, call_tool_error,
  complete_error, terminal_error, semantics_error, validate_next_decision,
}

-- What the fields of a decision of each type say together.
abbrev pub Consistent : AgentStepType → ToolRegistry → NextDecision → Type 0
Consistent AgentStepType.call_tool registry d =
    (name : String) × (tool : ToolDefinition) × (d.tool_name ≡ some name)
    × (get_tool registry name ≡ Tooling.done tool)
    × (d.diagnosis ≡ none)
    × (d.stop_reason ≡ none)
Consistent AgentStepType.complete registry d =
    (cited : ℕ) × (rest : List ℕ) × (diagnosis : Diagnosis) × (d.evidence_ids ≡ cited ∷ rest)
    × (d.diagnosis ≡ some diagnosis)
    × (cites_same (some diagnosis) d.evidence_ids ≡ true)
    × (d.tool_name ≡ none)
    × (d.arguments ≡ Fields.end)
Consistent AgentStepType.ask_human registry d =
    (reason : String) × (d.stop_reason ≡ some reason)
    × (is_empty reason ≡ false)
    × (d.diagnosis ≡ none)
    × (d.tool_name ≡ none)
    × (d.arguments ≡ Fields.end)
Consistent AgentStepType.stop registry d =
    (reason : String) × (d.stop_reason ≡ some reason)
    × (is_empty reason ≡ false)
    × (d.diagnosis ≡ none)
    × (d.tool_name ≡ none)
    × (d.arguments ≡ Fields.end)

registered_tool :
    (r : Tooling ToolDefinition)
    → registered r ≡ none
    → (tool : ToolDefinition) × (r ≡ Tooling.done tool)
registered_tool (Tooling.done t) h = (t, refl)
registered_tool (Tooling.failed e) h = absurd (cc h)
registered_tool (Tooling.crashed kind message) h = absurd (cc h)

empty_dict : (fs : Fields) → truthy (obj fs) ≡ false → fs ≡ Fields.end
empty_dict Fields.end h = refl
empty_dict (Fields.field k v fs) h = absurd (cc h)

call_tool-Consistent :
    (registry : ToolRegistry) (d : NextDecision)
    → call_tool_error registry d ≡ none
    → Consistent AgentStepType.call_tool registry d
unfolding call_tool_error
call_tool-Consistent registry d h = elim (Option-cases d.tool_name) [
  | inl e ↦ absurd (ground (arith, h, e))
  | inr (name, e) ↦
      let (tool, found) = registered_tool (get_tool registry name) (ground (arith, h, e)) in
      (name, tool, e, found, ground (arith, h, e), ground (arith, h, e))
]

terminal-Consistent :
    (registry : ToolRegistry) (d : NextDecision)
    → terminal_error d ≡ none
    → Consistent AgentStepType.stop registry d
unfolding terminal_error
terminal-Consistent registry d h = elim (Option-cases d.stop_reason) [
  | inl e ↦ absurd (ground (arith, h, e))
  | inr (reason, e) ↦ (
    reason,
    e,
    ground (arith, h, e),
    ground (arith, h, e),
    ground (arith, h, e),
    empty_dict d.arguments (ground (arith, h, e)),
  )
]

complete-Consistent :
    (registry : ToolRegistry) (d : NextDecision)
    → complete_error d ≡ none
    → Consistent AgentStepType.complete registry d
unfolding complete_error
complete-Consistent registry d h = elim (Option-cases d.diagnosis) [
  | inl e ↦ absurd (ground (arith, h, e))
  | inr (diagnosis, e) ↦ elim (List-cases d.evidence_ids) [
    | inl n ↦ absurd (ground (arith, h, e, n))
    | inr (cited, rest, c) ↦ (
      cited,
      rest,
      diagnosis,
      c,
      e,
      ground (arith, h, e, c),
      ground (arith, h, e, c),
      empty_dict d.arguments (ground (arith, h, e, c)),
    )
  ]
]

semantics-Consistent :
    (t : AgentStepType) (registry : ToolRegistry) (d : NextDecision)
    → semantics_error t registry d ≡ none
    → Consistent t registry d
unfolding semantics_error
semantics-Consistent AgentStepType.call_tool registry d h = call_tool-Consistent registry d h
semantics-Consistent AgentStepType.complete registry d h = complete-Consistent registry d h
semantics-Consistent AgentStepType.ask_human registry d h = terminal-Consistent registry d h
semantics-Consistent AgentStepType.stop registry d h = terminal-Consistent registry d h

mem-Memᴰ : (k : ℕ) (js : List ℕ) → mem k js ≡ true → Memᴰ k js
mem-Memᴰ k [] h = absurd (cc h)
mem-Memᴰ k (j ∷ js) h = elim (Bool-cases (k == j)) [
  | inl y ↦ Memᴰ.head (ground (arith, y))
  | inr n ↦ Memᴰ.tail (mem-Memᴰ k js (ground (arith, h, n)))
]

subset-Memᴰ : (ks js : List ℕ) → subset ks js ≡ true → (k : ℕ) → Memᴰ k ks → Memᴰ k js
subset-Memᴰ [] js h k m = elim m [ ]
subset-Memᴰ (i ∷ ks) js h k (Memᴰ.head e) = mem-Memᴰ k js (ground (arith, h, e))
subset-Memᴰ (i ∷ ks) js h k (Memᴰ.tail m) = subset-Memᴰ ks js (ground (arith, h)) k m

-- A decision that `validate_next_decision` accepts cites only visible evidence, and says nothing that
-- looks executable. CALL_TOOL names a registered tool, and comes with no diagnosis and no reason to
-- stop; COMPLETE brings a diagnosis that cites the same evidence, at least one, and no tool;
-- ASK_HUMAN and STOP give a reason, and neither a tool nor a diagnosis.
pub accepted-Consistent :
    (checks : DecisionChecks) (registry : ToolRegistry) (visible : List ℕ) (d : NextDecision)
    → validate_next_decision checks registry visible d ≡ none
    → Consistent d.decision_type registry d
      × ((k : ℕ) → Memᴰ k d.evidence_ids → Memᴰ k visible)
      × (checks.is_executable d.decision_summary d.arguments ≡ false)
unfolding validate_next_decision
accepted-Consistent checks registry visible d h =
    let fits : checks.fits_schema d ≡ true = ground (arith, h) in
    let cites : subset d.evidence_ids visible ≡ true = ground (arith, h, fits) in
    let plain : checks.is_executable d.decision_summary d.arguments ≡ false =
      ground (arith, h, fits, cites) in
    (
      semantics-Consistent d.decision_type registry d (ground (arith, h, fits, cites, plain)),
      subset-Memᴰ d.evidence_ids visible cites,
      plain,
    )
