-- ===== src/Recovery/Expiry.antt =====
-- What one round of each loop of recovery does.
use k8s_ops_agent.Base.{
  ℕ, ◌≡◌, refl, inl, inr, true, false, some, List, [], ◌∷◌, arith, Bool-cases, Option-cases,
  is_some, Table, find, update, find-update, ◌==◌,
}
use mathlib.Core.Path.{subst}
use k8s_ops_agent.Domain.{IncidentStatus, IncidentStatus-discrete, contains}
use k8s_ops_agent.Models.{Incident, Execution, AgentRun, Db}
use k8s_ops_agent.Session.{
  Result, ok, err, add_audit, add_task, get_incident, get_agent_run, get_execution,
  fail_incident_in, failed_incident,
}
use k8s_ops_agent.Executions.Failure.{incident_of}
use k8s_ops_agent.Recovery.Work.{
  Recovery, is_stuck_run, is_stuck_execution, is_agent_core, expired_run, expired_execution,
  set_agent_run, set_execution, report_run, expire_run, expire_execution,
}
use k8s_ops_agent.Recovery.Loop.{Ended}

-- The foreign key of an agent run: its incident is there.
abbrev pub HaveIncidents : Db → Type 0
HaveIncidents d =
    (k : ℕ) (run : AgentRun)
    → find k d.agent_runs ≡ some run
    → is_some (find run.incident_id d.incidents) ≡ true

-- What the loop over the runs keeps true.
abbrev pub Between : Table Execution → Db → Type 0
Between executions d = HaveIncidents d × (d.executions ≡ executions)

expired_run-not_stuck :
    (c : Recovery) (k : ℕ) (run : AgentRun) → is_stuck_run c k (expired_run c run) ≡ false
unfolding is_stuck_run expired_run is_agent_core
expired_run-not_stuck c k run = ground arith

expired_execution-not_stuck :
    (c : Recovery) (k : ℕ) (execution : Execution)
    → is_stuck_execution c k (expired_execution c execution) ≡ false
unfolding is_stuck_execution expired_execution
expired_execution-not_stuck c k execution = ground arith

pub expire_execution-Ended :
    (c : Recovery) (runs : Table AgentRun) (k : ℕ) (d : Db)
    → d.agent_runs ≡ runs
    → is_some (find k d.executions) ≡ true
    → Ended
        (is_stuck_execution c)
        (λ d. d.executions)
        (λ d. d.agent_runs ≡ runs)
        k
        d
        (expire_execution c k d)
unfolding expire_execution get_execution set_execution incident_of fail_incident_in add_task
    add_audit
expire_execution-Ended c runs k d s h = elim (Option-cases (find k d.executions)) [
  | inl e ↦ absurd (cc (e, h))
  | inr (row, e) ↦ go row e (expire_execution c k d) refl
]
  where
    go :
        (row : Execution)
        → find k d.executions ≡ some row
        → (r : Result (Unit {0} × Db)) → expire_execution c k d ≡ r
        → Ended (is_stuck_execution c) (λ d. d.executions) (λ d. d.agent_runs ≡ runs) k d r
    go row e (err x) q = absurd (ground (arith, e, q))
    go row e (ok (u, after)) q = record {
      after = after;
      row = expired_execution c row;
      returns = refl;
      keeps = ground (arith, e, q, s);
      replaced = ground (arith, e, q);
      not_stuck = expired_execution-not_stuck c k row;
    }

-- The incidents after `fail_incident_in`: none is missing.
record Failed (states : List IncidentStatus) (k : ℕ) (d : Db) : Type 0 where
  incidents : Table Incident
  returned : fail_incident_in states k d ≡ ok (tt, record d { incidents = incidents })
  there : (x : ℕ) → is_some (find x d.incidents) ≡ true → is_some (find x incidents) ≡ true

fail_incident_in-Failed :
    (states : List IncidentStatus) (k : ℕ) (d : Db) (i : Incident)
    → find k d.incidents ≡ some i
    → Failed states k d
unfolding fail_incident_in
fail_incident_in-Failed states k d i h =
    elim (Bool-cases (contains IncidentStatus-discrete i.status states)) [
      | inl y ↦ record {
        incidents = update k (failed_incident i) d.incidents;
        returned = ground (arith, h, y);
        there = λ x t. ground (arith, h, t, find-update k x (failed_incident i) d.incidents);
      }
      | inr n ↦ record {
        incidents = d.incidents;
        returned = ground (arith, h, n);
        there = λ x t. t;
      }
    ]

record Reported (c : Recovery) (k : ℕ) (run : AgentRun) (d : Db) : Type 0 where
  after : Db
  returned : report_run c k run d ≡ ok (tt, after)
  runs : after.agent_runs ≡ d.agent_runs
  incidents : after.incidents ≡ d.incidents
  executions : after.executions ≡ d.executions

report_run-Reported :
    (c : Recovery) (k : ℕ) (run : AgentRun) (d : Db)
    → is_some (find run.incident_id d.incidents) ≡ true
    → Reported c k run d
unfolding report_run get_incident add_task add_audit
report_run-Reported c k run d h = go (report_run c k run d) refl
  where
    go : (r : Result (Unit {0} × Db)) → report_run c k run d ≡ r → Reported c k run d
    go (err x) q = absurd (ground (arith, h, q))
    go (ok (u, after)) q = record {
      after = after;
      returned = q;
      runs = ground (arith, h, q);
      incidents = ground (arith, h, q);
      executions = ground (arith, h, q);
    }

module _ (c : Recovery) (k : ℕ) (d : Db) (run : AgentRun) (have : HaveIncidents d)
    (has_run : find k d.agent_runs ≡ some run) where
  abbrev with_run : Db
  with_run = record d { agent_runs = update k (expired_run c run) d.agent_runs }

  module _ (f : Failed (IncidentStatus.diagnosing ∷ []) run.incident_id with_run) where
    -- Every run still has its incident.
    incidents_kept :
        (after : Db)
        → after.agent_runs ≡ with_run.agent_runs
        → after.incidents ≡ f.incidents
        → HaveIncidents after
    unfolding expired_run
    incidents_kept after runs incidents j r h = rw incidents (
        f.there r.incident_id (elim (Bool-cases (j == k)) [
          | inl y ↦
              let same_incident : r.incident_id ≡ run.incident_id =
                ground
                  (arith, h, y, runs, find-update k j (expired_run c run) d.agent_runs, has_run) in
              rw same_incident (have k run has_run)
          | inr n ↦
              have j r
                (ground (arith, h, n, runs, find-update k j (expired_run c run) d.agent_runs))
        ]))

    run-Ended :
        is_some (find run.incident_id f.incidents) ≡ true
        → Ended (is_stuck_run c) (λ d. d.agent_runs) (Between d.executions) k d (expire_run c k d)
    unfolding expire_run get_agent_run set_agent_run
    run-Ended h =
        let r = report_run-Reported c k run (record with_run { incidents = f.incidents }) h in
        record {
          after = r.after;
          row = expired_run c run;
          returns = simp (has_run, f.returned, r.returned);
          keeps = (incidents_kept r.after r.runs r.incidents, r.executions);
          replaced = r.runs;
          not_stuck = expired_run-not_stuck c k run;
        }

pub expire_run-Ended :
    (c : Recovery) (executions : Table Execution) (k : ℕ) (d : Db)
    → Between executions d
    → is_some (find k d.agent_runs) ≡ true
    → Ended (is_stuck_run c) (λ d. d.agent_runs) (Between executions) k d (expire_run c k d)
expire_run-Ended c executions k d (have, same) h = elim (Option-cases (find k d.agent_runs)) [
  | inl e ↦ absurd (cc (e, h))
  | inr (run, e) ↦ elim (Option-cases (find run.incident_id d.incidents)) [
    | inl x ↦ absurd (let there = have k run e in cc (x, there))
    | inr (i, x) ↦
        let f =
          fail_incident_in-Failed (IncidentStatus.diagnosing ∷ []) run.incident_id
            (with_run c k d run have e) i x in
        subst (λ t. Ended (is_stuck_run c) (λ d. d.agent_runs) (Between t) k d (expire_run c k d))
          same (run-Ended c k d run have e f (f.there run.incident_id (rw x refl)))
  ]
]
