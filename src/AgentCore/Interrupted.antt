-- ===== src/AgentCore/Interrupted.antt =====
-- A run whose worker stopped in the middle of a step of `process` (app/ops_agent/agent_core.py).
use k8s_ops_agent.Base.{
  ℕ, ◌+◌, ◌≡◌, refl, Bool, true, none, some, [], ◌∷◌, arith, Table, find, select, is_some,
  Bool-cases, inl, inr, ◌==◌, ◌&&◌,
}
use k8s_ops_agent.Models.{AgentRun, AgentStep, Incident, Db}
use k8s_ops_agent.Session.{Error, err, get_agent_run, get_incident}
use k8s_ops_agent.AgentCore.Store.{same_step, add_step}
use k8s_ops_agent.AgentCore.Budget.{Checked}
use k8s_ops_agent.AgentCore.Process.{Round, limit_reached, plan_budget, Prepared, prepare}
use k8s_ops_agent.AgentCore.Rounds.{start_step, take_step, unless_limited, start_round, round}

-- A row that fits is selected, or an older one.
select_finds :
    {R : Type 0} (p : ℕ → R → Bool) (k : ℕ) (row : R) (t : Table R)
    → find k t ≡ some row
    → p k row ≡ true
    → is_some (select p t) ≡ true
unfolding find select
select_finds p k row [] h y = absurd (cc h)
select_finds p k row ((j, v) ∷ t) h y = elim (Bool-cases (p j v)) [
  | inl fits ↦ rw fits refl
  | inr other ↦ elim (Bool-cases (k == j)) [
    | inl e ↦
        let same_key : k ≡ j = ground arith in
        let same_row : v ≡ row = ground (arith, h, e) in absurd (cc (y, other, same_key, same_row))
    | inr n ↦ rw other (select_finds p k row t (ground (arith, h, n)) y)
  ]
]

-- If a step with the run's next number is there already, left by a worker that stopped before it could
-- count the step, a round that comes to make a step raises IntegrityError, and writes nothing: the run
-- cannot be resumed.
pub interrupted_step_blocks :
    (w : Round) (k id : ℕ) (d : Db) (run : AgentRun) (incident : Incident) (step : AgentStep)
    (p : Prepared)
    → find k d.agent_runs ≡ some run
    → find run.incident_id d.incidents ≡ some incident
    → limit_reached w.now run ≡ none
    → prepare (λ b. w.build b d) (plan_budget w.model run) ≡ Checked.accepted p
    → find id d.agent_steps ≡ some step
    → step.agent_run_id ≡ k
    → step.sequence ≡ run.current_step + 1
    → round w k d ≡ (err Error.integrity_error, d)
unfolding round start_round get_agent_run get_incident unless_limited take_step start_step add_step
    same_step
interrupted_step_blocks w k id d run incident step p has has_i free ready old of_run next =
    let there : is_some (
          select
            (λ _ (row : AgentStep). k == row.agent_run_id && run.current_step + 1 == row.sequence)
            d.agent_steps)
        ≡ true =
      select_finds _ id step d.agent_steps old (ground (arith, of_run, next)) in
    rw (has, has_i, free, ready, there) refl
