-- ===== src/AgentRuns/Entry.antt =====
-- What `create_agent_run` leaves for the agent core to work on.
use k8s_ops_agent.Base.{ℕ, ◌≡◌, refl, String, true, Option, none, some, arith, is_some, find}
use k8s_ops_agent.Domain.{AgentRunMode, AgentRunStatus}
use k8s_ops_agent.Json.{Number}
use k8s_ops_agent.Models.{AgentRun, Budget, Db}
use k8s_ops_agent.Session.{
  Error, Result, ok, err, begin, commit, proceed, get_incident, add_agent_run, add_audit,
  add_outbox,
}
use k8s_ops_agent.Remediation.Policy.{find-insert_new}
use k8s_ops_agent.AgentCore.Lease.{Worker}
use k8s_ops_agent.AgentCore.Process.{Round}
use k8s_ops_agent.AgentCore.Rounds.{process}
use k8s_ops_agent.AgentCore.Termination.{Undisturbed}
use k8s_ops_agent.AgentCore.Bounded.{process_ends}
use k8s_ops_agent.AgentRuns.Creation.{RunRequest, check_request}
use k8s_ops_agent.AgentRuns.Bounds.{RunLimits, check_request-RunLimits}
use k8s_ops_agent.AgentRuns.Insertion.{
  NewRun, insert_run, new_run, create_run_tx, existing_run, after_run_insertion, or_create,
  run_not_created, with_request, create_agent_run,
}

-- A run that waits for its first step, within the limits of the service.
pub record Entered (c : ℕ × AgentRun) (d : Db) : Type 0 where
  pub stored : find c.0 d.agent_runs ≡ some c.1
  pub queued : c.1.status ≡ AgentRunStatus.queued
  pub unstarted : c.1.current_step ≡ 0
  pub limits : RunLimits c.1.budget

module _ (new : NewRun) (r : RunRequest) (checked : (AgentRunMode × String) × Budget) where
  tx-Entered :
      (d e : Db) (c : ℕ × AgentRun)
      → RunLimits checked.1
      → find new.run_id d.agent_runs ≡ none
      → create_run_tx new r checked d ≡ ok (c, e)
      → Entered c e
  unfolding create_run_tx get_incident insert_run add_agent_run add_audit add_outbox new_run
  tx-Entered d e c limits fresh h = record {
    stored = ground (arith, h, fresh, find-insert_new new.run_id c.1 d.agent_runs fresh);
    queued = ground (arith, h);
    unstarted = ground (arith, h);
    limits = let same : c.1.budget ≡ checked.1 = ground (arith, h) in rw same limits;
  }

  inserted-Entered :
      (d e : Db) (c : ℕ × AgentRun)
      → RunLimits checked.1
      → find new.run_id d.agent_runs ≡ none
      → after_run_insertion r
          (begin (create_run_tx new r checked) d).0
          (begin (create_run_tx new r checked) d).1
        ≡ (ok (c, true), e)
      → Entered c e
  unfolding after_run_insertion
  inserted-Entered d e c limits fresh h = go (create_run_tx new r checked d) refl h
    where
      looked_again :
          (s : Result (Option (ℕ × AgentRun) × Db))
          → proceed (commit d s).0 (run_not_created Error.integrity_error) (commit d s).1
            ≡ (ok (c, true), e)
          → Entered c e
      looked_again (ok (none, e')) h = absurd (cc h)
      looked_again (ok (some y, e')) h = absurd (cc h)
      looked_again (err z) h = absurd (cc h)

      go :
          (s : Result ((ℕ × AgentRun) × Db))
          → create_run_tx new r checked d ≡ s
          → after_run_insertion r (commit d s).0 (commit d s).1 ≡ (ok (c, true), e)
          → Entered c e
      go (ok (y, e')) q h = tx-Entered d e c limits fresh (ground (arith, q, h))
      go (err Error.integrity_error) q h =
          looked_again (existing_run r.incident_id r.idempotency_key d) h
      go (err (Error.validation_error s)) q h = absurd (cc h)
      go (err (Error.not_found_error s)) q h = absurd (cc h)
      go (err (Error.policy_denied_error s)) q h = absurd (cc h)
      go (err (Error.invalid_state_transition s)) q h = absurd (cc h)
      go (err Error.attribute_error) q h = absurd (cc h)
      go (err (Error.external s t)) q h = absurd (cc h)

existing_same :
    (incident_id : ℕ) (key : Option String) (d e : Db)
    → existing_run incident_id key d ≡ ok (none, e)
    → e ≡ d
unfolding existing_run
existing_same incident_id none d e h = ground (arith, h)
existing_same incident_id (some key) d e h = ground (arith, h)

module _ (others : Db → Db) (new : NewRun) (r : RunRequest) where
  called-Entered :
      (s : Result ((AgentRunMode × String) × Budget)) (d e : Db) (c : ℕ × AgentRun)
      → ((checked : (AgentRunMode × String) × Budget) → s ≡ ok checked → RunLimits checked.1)
      → find new.run_id (others d).agent_runs ≡ none
      → with_request s
          (λ checked d.
            proceed
              (commit d (existing_run r.incident_id r.idempotency_key d)).0
              (or_create others new r checked)
              (commit d (existing_run r.incident_id r.idempotency_key d)).1)
          d
        ≡ (ok (c, true), e)
      → Entered c e
  unfolding or_create
  called-Entered (err z) d e c limits fresh h = absurd (cc h)
  called-Entered (ok checked) d e c limits fresh h =
      looked (existing_run r.incident_id r.idempotency_key d) refl h
    where
      looked :
          (s : Result (Option (ℕ × AgentRun) × Db))
          → existing_run r.incident_id r.idempotency_key d ≡ s
          → proceed (commit d s).0 (or_create others new r checked) (commit d s).1
            ≡ (ok (c, true), e)
          → Entered c e
      looked (ok (none, d')) q h =
          let same : d' ≡ d = existing_same r.incident_id r.idempotency_key d d' q in
          inserted-Entered new r checked (others d) e c (limits checked refl) fresh (rw same at h)
      looked (ok (some y, d')) q h = absurd (cc h)
      looked (err z) q h = absurd (cc h)

-- A run that `create_agent_run` makes keeps to the limits of the service, whatever budget was asked
-- for: it is stored under its id, waits in QUEUED before its first step, and may take from 1 to 16 steps,
-- 1 to 12 calls of tools, up to 8 calls of a model, and so on. A `process` of it with fuel for 17 rounds returns
-- or raises, whatever the reasoner decides and the tools answer. The conditions: no row had the new
-- id, and nobody else changes the limits of the run while a round of the process runs.
pub created_run_ends :
    (natural : Number → Option ℕ) (others : Db → Db) (new : NewRun) (r : RunRequest) (d e : Db)
    (c : ℕ × AgentRun) (worker : Worker) (world : ℕ → Round)
    → find new.run_id (others d).agent_runs ≡ none
    → create_agent_run natural others new r d ≡ (ok (c, true), e)
    → ((i : ℕ) → Undisturbed c.0 (world i))
    → Entered c e × (is_some (process 17 worker world c.0 e).0 ≡ true)
unfolding create_agent_run
created_run_ends natural others new r d e c worker world fresh h quiet =
    let entered =
      called-Entered others new r (check_request natural r) d e c
        (check_request-RunLimits natural r) fresh h in
    (
      entered,
      process_ends 17 worker world c.0 e quiet (omega arith) (λ run found.
          let same : run ≡ c.1 = ground (arith, found, entered.stored) in
          rw (same, entered.unstarted) (omega (arith, entered.limits.steps.1))),
    )
