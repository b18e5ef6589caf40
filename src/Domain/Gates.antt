-- ===== src/Domain/Gates.antt =====
-- What TRANSITIONS of app/ops_agent/domain.py guarantees of whole sequences of transitions.
use Prim.Native.Nat.{ℕ, ◌+◌, ◌≤◌, ◌<◌}
use k8s_ops_agent.Domain.Paths
use mathlib.Core.List.{Memᴰ}
use k8s_ops_agent.Base.{◌≡◌, refl, ◌⊎◌, inl, inr, arith}
use k8s_ops_agent.Domain.Enums.{IncidentStatus, PlanStatus, ExecutionStatus, AgentRunStatus}
use k8s_ops_agent.Domain.Transitions.{Status, validate_transition}
use k8s_ops_agent.Domain.Paths.{
  Allowed, here, next, visited, steps, IncidentPath, PlanPath, ExecutionPath, AgentRunPath,
}

-- How far an incident has come, on the way to a repair, in each state.
abbrev pub stage : IncidentStatus → ℕ
stage IncidentStatus.diagnosing = 1
stage IncidentStatus.diagnosed = 2
stage IncidentStatus.plan_ready = 3
stage IncidentStatus.awaiting_approval = 4
stage IncidentStatus.remediating = 5
stage s = 0

stage_step :
    (s t : IncidentStatus) → Allowed (Status.incident s) (Status.incident t) → stage t ≤ stage s + 1
unfolding validate_transition
stage_step s t h = ground arith

stage_injective : (s t : IncidentStatus) → 0 < stage s → stage s ≡ stage t → s ≡ t
stage_injective s t h e = ground arith

next_or_same : (a b c : ℕ) → a ≤ b → b ≤ c + 1 → (a ≡ b) ⊎ (a ≤ c)
next_or_same a b c h k = omega arith

-- An incident that starts OPEN enters every earlier stage of the repair before it is in a later
-- one: to be REMEDIATING it has entered DIAGNOSING, DIAGNOSED, PLAN_READY and AWAITING_APPROVAL.
pub incident_stages :
    {t : IncidentStatus} (r : IncidentPath IncidentStatus.open_ t) (x : IncidentStatus)
    → 0 < stage x
    → stage x ≤ stage t
    → Memᴰ x (visited Status.incident r)
unfolding visited
incident_stages here x p h = absurd (omega arith)
incident_stages (next t u r a) x p h =
    elim (next_or_same (stage x) (stage u) (stage t) h (stage_step t u a)) [
      | inl e ↦ Memᴰ.head (stage_injective x u p e)
      | inr l ↦ Memᴰ.tail (incident_stages r x p l)
    ]

-- How far a plan has come towards its execution, in each state.
abbrev pub plan_stage : PlanStatus → ℕ
plan_stage PlanStatus.dry_run_ready = 1
plan_stage PlanStatus.awaiting_approval = 2
plan_stage PlanStatus.approved = 3
plan_stage PlanStatus.executable = 4
plan_stage PlanStatus.executed = 5
plan_stage s = 0

plan_stage_step :
    (s t : PlanStatus) → Allowed (Status.plan s) (Status.plan t) → plan_stage t ≤ plan_stage s + 1
unfolding validate_transition
plan_stage_step s t h = ground arith

plan_stage_injective : (s t : PlanStatus) → 0 < plan_stage s → plan_stage s ≡ plan_stage t → s ≡ t
plan_stage_injective s t h e = ground arith

-- A plan that starts as DRAFT enters every earlier stage before a later one: to be EXECUTED it has
-- entered DRY_RUN_READY, AWAITING_APPROVAL, APPROVED and EXECUTABLE.
pub plan_stages :
    {t : PlanStatus} (r : PlanPath PlanStatus.draft t) (x : PlanStatus)
    → 0 < plan_stage x
    → plan_stage x ≤ plan_stage t
    → Memᴰ x (visited Status.plan r)
unfolding visited
plan_stages here x p h = absurd (omega arith)
plan_stages (next t u r a) x p h =
    elim (next_or_same (plan_stage x) (plan_stage u) (plan_stage t) h (plan_stage_step t u a)) [
      | inl e ↦ Memᴰ.head (plan_stage_injective x u p e)
      | inr l ↦ Memᴰ.tail (plan_stages r x p l)
    ]

-- A number that every allowed step of a plan raises.
abbrev plan_rank : PlanStatus → ℕ
plan_rank PlanStatus.draft = 0
plan_rank PlanStatus.rejected = 5
plan_rank PlanStatus.cancelled = 5
plan_rank s = plan_stage s

abbrev execution_rank : ExecutionStatus → ℕ
execution_rank ExecutionStatus.prepared = 0
execution_rank ExecutionStatus.running = 1
execution_rank ExecutionStatus.succeeded = 2
execution_rank ExecutionStatus.failed = 3
execution_rank ExecutionStatus.verification_failed = 3
execution_rank ExecutionStatus.rolled_back = 4

abbrev run_rank : AgentRunStatus → ℕ
run_rank AgentRunStatus.queued = 0
run_rank AgentRunStatus.running = 2
run_rank AgentRunStatus.collecting = 1
run_rank AgentRunStatus.diagnosing = 2
run_rank AgentRunStatus.cancelled = 4
run_rank s = 3

-- A rank that every allowed step raises bounds the number of steps.
module _ {S : Type 0} (kind : S → Status) (rank : S → ℕ) where
  steps_bounded :
      ((s t : S) → Allowed (kind s) (kind t) → rank s < rank t)
      → {s t : S} (r : Paths.Reach kind s t) → steps kind r + rank s ≤ rank t
  unfolding steps
  steps_bounded up here = omega arith
  steps_bounded up (next t u r a) = omega (arith, steps_bounded up r, up t u a)

plan_rank_up :
    (s t : PlanStatus) → Allowed (Status.plan s) (Status.plan t) → plan_rank s < plan_rank t
unfolding validate_transition
plan_rank_up s t h = ground arith

execution_rank_up :
    (s t : ExecutionStatus)
    → Allowed (Status.execution s) (Status.execution t)
    → execution_rank s < execution_rank t
unfolding validate_transition
execution_rank_up s t h = ground arith

run_rank_up :
    (s t : AgentRunStatus)
    → Allowed (Status.agent_run s) (Status.agent_run t)
    → run_rank s < run_rank t
unfolding validate_transition
run_rank_up s t h = ground arith

plan_rank-le : (s : PlanStatus) → plan_rank s ≤ 5
plan_rank-le s = ground arith

execution_rank-le : (s : ExecutionStatus) → execution_rank s ≤ 4
execution_rank-le s = ground arith

run_rank-le : (s : AgentRunStatus) → run_rank s ≤ 4
run_rank-le s = ground arith

-- Plans, executions and agent runs never move in a circle: whatever states they pass, a plan makes
-- at most five transitions, an execution at most four and an agent run at most four.
pub transitions_bounded :
    {p q : PlanStatus} {x y : ExecutionStatus} {a b : AgentRunStatus} (plan : PlanPath p q)
    (execution : ExecutionPath x y) (run : AgentRunPath a b)
    → (steps Status.plan plan ≤ 5)
      × (steps Status.execution execution ≤ 4)
      × (steps Status.agent_run run ≤ 4)
transitions_bounded {q = q} {y = y} {b = b} plan execution run = (
  omega (arith, steps_bounded Status.plan plan_rank plan_rank_up plan, plan_rank-le q),
  omega (
    arith,
    steps_bounded Status.execution execution_rank execution_rank_up execution,
    execution_rank-le y,
  ),
  omega (arith, steps_bounded Status.agent_run run_rank run_rank_up run, run_rank-le b),
)

reopen :
    (s t : IncidentStatus)
    → Allowed (Status.incident s) (Status.incident t)
    → IncidentPath t IncidentStatus.closed
    → IncidentPath s IncidentStatus.closed
reopen s t a r = Paths.Reach-trans Status.incident (next s t here a) r

-- No incident is stuck: from every state some sequence of allowed transitions closes it.
pub incident_can_close : (s : IncidentStatus) → IncidentPath s IncidentStatus.closed
unfolding validate_transition
incident_can_close IncidentStatus.closed = here
incident_can_close IncidentStatus.remediating =
    reopen _ IncidentStatus.failed refl (next _ _ here refl)
incident_can_close IncidentStatus.verifying =
    reopen _ IncidentStatus.resolved refl (next _ _ here refl)
incident_can_close _ = next _ _ here refl
