-- ===== src/Domain/Paths.antt =====
-- Sequences of transitions that `validate_transition` lets through, and what they must pass.
use mathlib.Core.Path.{◌≡◌}
use mathlib.Core.List.{List, [], ◌∷◌}
use Prim.Native.Nat.{ℕ, ◌+◌}
use k8s_ops_agent.Domain.Enums.{
  IncidentStatus, TaskStatus, PlanStatus, ExecutionStatus, AgentRunStatus,
}
use k8s_ops_agent.Domain.Transitions.{Status, Verdict, validate_transition}

-- One step that the rules allow.
abbrev pub Allowed : Status → Status → Type 0
Allowed s t = validate_transition s t ≡ Verdict.valid

-- A sequence of allowed steps between two states of one kind, which `kind` embeds in `Status`.
module _ {S : Type 0} (kind : S → Status) where
  pub data Reach (s : S) : S → Type 0 where
    here : Reach s s
    next : (t u : S) → Reach s t → Allowed (kind t) (kind u) → Reach s u

  pub Reach-trans : {s t u : S} → Reach s t → Reach t u → Reach s u
  Reach-trans r here = r
  Reach-trans r (next t u q a) = next t u (Reach-trans r q) a

  -- The states that a sequence enters, the last one first.
  unfoldable pub visited : {s t : S} → Reach s t → List S
  visited here = []
  visited (next t u r a) = u ∷ visited r

  unfoldable pub steps : {s t : S} → Reach s t → ℕ
  steps here = 0
  steps (next t u r a) = steps r + 1

abbrev pub IncidentPath : IncidentStatus → IncidentStatus → Type 0
IncidentPath = Reach Status.incident

abbrev pub TaskPath : TaskStatus → TaskStatus → Type 0
TaskPath = Reach Status.task

abbrev pub PlanPath : PlanStatus → PlanStatus → Type 0
PlanPath = Reach Status.plan

abbrev pub ExecutionPath : ExecutionStatus → ExecutionStatus → Type 0
ExecutionPath = Reach Status.execution

abbrev pub AgentRunPath : AgentRunStatus → AgentRunStatus → Type 0
AgentRunPath = Reach Status.agent_run
