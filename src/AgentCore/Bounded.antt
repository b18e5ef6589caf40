-- ===== src/AgentCore/Bounded.antt =====
-- `process` of app/ops_agent/agent_core.py ends within as many run_rounds as the run has steps left, and
-- one more.
use k8s_ops_agent.Base.{
  ℕ, zero, suc, ◌-◌, ◌<◌, ◌≡◌, refl, ap, String, true, Option, none, some, arith, Bool-cases,
  Option-cases, inl, inr, find, is_some,
}
use k8s_ops_agent.Domain.{AgentRunStatus}
use k8s_ops_agent.Models.{AgentRun, Incident, Db}
use k8s_ops_agent.Session.{Error, Result, ok, err, commit, get_agent_run, get_incident}
use k8s_ops_agent.AgentCore.Lease.{Worker, claim}
use k8s_ops_agent.AgentCore.Exclusive.{claim-Claimed}
use k8s_ops_agent.AgentCore.Budget.{Checked}
use k8s_ops_agent.AgentCore.Advance.{Advanced}
use k8s_ops_agent.AgentCore.Process.{Round, Next, limit_reached, plan_budget, prepare, Prepared}
use k8s_ops_agent.AgentCore.Rounds.{
  take_step, unless_limited, start_round, round, went_on, run_rounds, works, claimed, process,
}
use k8s_ops_agent.AgentCore.Termination.{Undisturbed, take_step-Advances, finish_run_ends}

no_limit :
    (now : ℕ) (run : AgentRun)
    → limit_reached now run ≡ none
    → run.current_step < run.budget.max_steps
unfolding limit_reached
no_limit now run h = ground (arith, h)

-- What a round that goes on has done.
record Went (k : ℕ) (before after : Db) : Type 0 where
  pub run : AgentRun
  pub stored_before : find k before.agent_runs ≡ some run
  pub step_left : run.current_step < run.budget.max_steps
  pub advanced : Advanced k run.budget (suc run.current_step) after

module _ (w : Round) (k : ℕ) (quiet : Undisturbed k w) where
  start_round-Went :
      (before : Db) (run : AgentRun) (incident : Incident) (o : Option (AgentRunStatus × String))
      (c : Checked Prepared)
      → find k before.agent_runs ≡ some run
      → limit_reached w.now run ≡ o
      → (unless_limited w k o (take_step w k before run incident c) before).0 ≡ ok none
      → Went k before (unless_limited w k o (take_step w k before run incident c) before).1
  unfolding unless_limited
  start_round-Went before run incident (some (status, reason)) c has e h =
      absurd (finish_run_ends w k run.budget 0 quiet status reason none before h)
  start_round-Went before run incident none c has e h = record {
    run = run;
    stored_before = has;
    step_left = no_limit w.now run e;
    advanced =
        (take_step-Advances w k run.budget (suc run.current_step) quiet before run incident c
            (omega arith)).at
          before (rw has refl) h;
  }

  round_missing :
      (before : Db)
      → find k before.agent_runs ≡ none
      → round w k before ≡ (err Error.attribute_error, before)
  unfolding round get_agent_run
  round_missing before e = rw e refl

  round_orphan :
      (before : Db) (run : AgentRun)
      → find k before.agent_runs ≡ some run
      → find run.incident_id before.incidents ≡ none
      → round w k before ≡ (err Error.attribute_error, before)
  unfolding round get_agent_run get_incident
  round_orphan before run has e = rw (has, e) refl

  round_started :
      (before : Db) (run : AgentRun) (incident : Incident)
      → find k before.agent_runs ≡ some run
      → find run.incident_id before.incidents ≡ some incident
      → round w k before ≡ start_round w k before run incident before
  unfolding round get_agent_run get_incident
  round_started before run incident has i = rw (has, i) refl

  round-Went : (before : Db) → (round w k before).0 ≡ ok none → Went k before (round w k before).1
  unfolding start_round
  round-Went before h = elim (Option-cases (find k before.agent_runs)) [
    | inl e ↦ absurd (cc (h, ap (λ p. p.0) (round_missing before e)))
    | inr (run, has) ↦ elim (Option-cases (find run.incident_id before.incidents)) [
      | inl e ↦ absurd (cc (h, ap (λ p. p.0) (round_orphan before run has e)))
      | inr (incident, i) ↦
          let same = round_started before run incident has i in
          rw same (
            start_round-Went before run incident (limit_reached w.now run)
              (prepare (λ b. w.build b before) (plan_budget w.model run)) has refl (rw same at h))
    ]
  ]

-- Enough fuel for the run, if there is one.
abbrev pub Enough : ℕ → ℕ → Db → Type 0
Enough fuel k d =
    (run : AgentRun)
    → find k d.agent_runs ≡ some run
    → run.budget.max_steps - run.current_step < fuel

rounds_end :
    (fuel : ℕ) (world : ℕ → Round) (k : ℕ) (d : Db)
    → ((i : ℕ) → Undisturbed k (world i))
    → 0 < fuel
    → Enough fuel k d
    → is_some (run_rounds fuel world k d).0 ≡ true
unfolding run_rounds
rounds_end zero world k d quiet some_fuel enough = absurd (omega arith)
rounds_end (suc n) world k d quiet some_fuel enough =
    go
      (λ e some_left left.
        rounds_end n (λ i. world (suc i)) k e (λ i. quiet (suc i)) some_left left)
      (round (world 0) k d).0 refl
  where
    go :
        ((e : Db) → 0 < n → Enough n k e → is_some (run_rounds n (λ i. world (suc i)) k e).0 ≡ true)
        → (r : Result Next) → (round (world 0) k d).0 ≡ r
        → is_some (went_on r (round (world 0) k d).1 (run_rounds n (λ i. world (suc i)) k)).0 ≡ true
    go again (err e) q = refl
    go again (ok (some run)) q = refl
    go again (ok none) q =
        let w = round-Went (world 0) k (quiet 0) d q in
        let a = w.advanced in
        let fuel_left = enough w.run w.stored_before in
        again (round (world 0) k d).1 (omega (arith, fuel_left, w.step_left)) (λ run h.
          let same : run ≡ a.run = ground (arith, h, a.stored) in
          rw (same, a.same_limits, a.step) (omega (arith, fuel_left, w.step_left)))

-- A `process` with more fuel than the run has steps left returns the run or raises: it makes at most as
-- many run_rounds as there are steps left, and one more, whatever the reasoner decides and the tools answer,
-- if the limits of the run are changed by nobody else meanwhile.
pub process_ends :
    (fuel : ℕ) (worker : Worker) (world : ℕ → Round) (k : ℕ) (d : Db)
    → ((i : ℕ) → Undisturbed k (world i))
    → 0 < fuel
    → Enough fuel k d
    → is_some (process fuel worker world k d).0 ≡ true
unfolding process claimed
process_ends fuel worker world k d quiet some_fuel enough = go (claim worker k d) refl
  where
    go :
        (r : Result (AgentRun × Db))
        → claim worker k d ≡ r
        → is_some (claimed fuel worker world k (commit d r).0 (commit d r).1).0 ≡ true
    go (err e) q = refl
    go (ok (run, e)) q = elim (Bool-cases (works worker.worker_id run)) [
      | inr n ↦ rw n refl
      | inl y ↦
          let c = claim-Claimed worker k run d e q in
          rw y (
            rounds_end fuel world k e quiet some_fuel (λ run' h.
              let same : run' ≡ run = ground (arith, h, c.stored) in
              let left = enough c.before c.found_before in
              rw (same, c.same_budget, c.same_step) left))
    ]
