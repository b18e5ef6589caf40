-- ===== src/AgentCore/Progress.antt =====
-- What the parts of a round of app/ops_agent/agent_core.py leave of the run that they work on.
use mathlib.Core.Option
use k8s_ops_agent.Base.{
  ℕ, ◌≡◌, refl, sym, ◌∙◌, String, Bool, true, false, Option, none, some, List, [], ◌∷◌, arith,
  Bool-cases, Option-cases, inl, inr, find, select, is_some, update, find-update, find-update_self,
  ◌==◌, if◌then◌else◌,
}
use k8s_ops_agent.Json.{Fields}
use k8s_ops_agent.Evidence.Redaction.{Python}
use k8s_ops_agent.Models.{AgentRun, AgentStep, ToolInvocation, Evidence, Budget, Db}
use k8s_ops_agent.Session.{Error, get_agent_run, add_audit}
use k8s_ops_agent.Session.Leaves.{
  SameAfter, Leaves, Leaves-pure, Leaves-found, Leaves-bind, Leaves-if,
}
use k8s_ops_agent.Recovery.Work.{set_agent_run}
use k8s_ops_agent.AgentCore.Store.{
  audit_run, write_run, same_step, add_step, write_step, add_invocation, write_invocation,
  same_evidence, add_evidence,
}

-- The limits of a run, as the database has them.
abbrev pub limits : ℕ → Db → Option Budget
limits k d = Option.map (λ (run : AgentRun). run.budget) (find k d.agent_runs)

-- A part of the database that only the runs decide.
module _ {B : Type 0} (part : Db → B)
    (from_runs : (d e : Db) → e.agent_runs ≡ d.agent_runs → part e ≡ part d) where
  pub Leaves-audit :
      (python : Python) (k : ℕ) (event : String) (payload : Fields)
      → Leaves part (audit_run python k event payload)
  unfolding audit_run add_audit
  Leaves-audit python k event payload = record { at = λ d. from_runs d _ refl }

  pub Leaves-add_step : (k : ℕ) (row : AgentStep) → Leaves part (add_step k row)
  unfolding add_step
  Leaves-add_step k row = record {
    at = λ d. elim (Bool-cases (is_some (select (same_step row) d.agent_steps))) [
      | inl y ↦ rw (y, SameAfter) tt
      | inr n ↦ rw (n, SameAfter) (from_runs d _ refl)
    ];
  }

  pub Leaves-write_step : (k : ℕ) (f : AgentStep → AgentStep) → Leaves part (write_step k f)
  unfolding write_step
  Leaves-write_step k f = record {
    at = λ d. elim (Option-cases (find k d.agent_steps)) [
      | inl e ↦ rw (e, SameAfter) tt
      | inr (row, e) ↦ rw (e, SameAfter) (from_runs d _ refl)
    ];
  }

  pub Leaves-add_invocation : (k : ℕ) (row : ToolInvocation) → Leaves part (add_invocation k row)
  unfolding add_invocation
  Leaves-add_invocation k row = record { at = λ d. from_runs d _ refl }

  pub Leaves-write_invocation :
      (k : ℕ) (f : ToolInvocation → ToolInvocation) → Leaves part (write_invocation k f)
  unfolding write_invocation
  Leaves-write_invocation k f = record {
    at = λ d. elim (Option-cases (find k d.tool_invocations)) [
      | inl e ↦ rw (e, SameAfter) tt
      | inr (row, e) ↦ rw (e, SameAfter) (from_runs d _ refl)
    ];
  }

  pub Leaves-store_evidence : (k : ℕ) (row : Evidence) → Leaves part (add_evidence k row)
  unfolding add_evidence
  Leaves-store_evidence k row = record {
    at = λ d. elim (Bool-cases (is_some (select (same_evidence row) d.evidence))) [
      | inl y ↦ rw (y, SameAfter) tt
      | inr n ↦ rw (n, SameAfter) (from_runs d _ refl)
    ];
  }

  pub Leaves-get_run : (k : ℕ) (e : Error) → Leaves part (get_agent_run k e)
  unfolding get_agent_run
  Leaves-get_run k e = record { at = λ d. (Leaves-found part (find k d.agent_runs) e).at d }

pub limits_from_runs : (k : ℕ) (d e : Db) → e.agent_runs ≡ d.agent_runs → limits k e ≡ limits k d
limits_from_runs k d e h = rw h refl

limits-update :
    (k : ℕ) (d : Db) (old new : AgentRun)
    → find k d.agent_runs ≡ some old
    → new.budget ≡ old.budget
    → limits k (record d { agent_runs = update k new d.agent_runs }) ≡ limits k d
limits-update k d old new has same =
    rw (find-update_self k new old d.agent_runs has, has, same) refl

-- Assignments to a run that leave its limits.
pub Leaves-write_run :
    (k : ℕ) (f : AgentRun → AgentRun)
    → ((run : AgentRun) → (f run).budget ≡ run.budget)
    → Leaves (limits k) (write_run k f)
unfolding write_run get_agent_run set_agent_run
Leaves-write_run k f keeps = record {
  at = λ d. elim (Option-cases (find k d.agent_runs)) [
    | inl e ↦ rw (e, SameAfter) tt
    | inr (run, e) ↦ rw (e, SameAfter) (limits-update k d run (f run) e (keeps run))
  ];
}

pub ruleset limits_rules = (
  Leaves-pure, Leaves-bind, Leaves-if, Leaves-audit, Leaves-add_step, Leaves-write_step,
  Leaves-add_invocation, Leaves-write_invocation, Leaves-store_evidence, Leaves-get_run,
  Leaves-write_run, limits_from_runs, refl,
)
