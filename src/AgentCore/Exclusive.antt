-- ===== src/AgentCore/Exclusive.antt =====
-- A run has one worker: the lease of app/ops_agent/agent_core.py.
use k8s_ops_agent.Base.{
  ℕ, ◌+◌, ◌<◌, ◌≡◌, ◌≢◌, ◌⊎◌, refl, String, true, false, Option, none, some, List, [], ◌∷◌, arith,
  Bool-cases, Option-cases, inl, inr, ◌is◌, eq_iff, eq_refl, Table, find, select, is_some, update,
  find-update_self,
}
use k8s_ops_agent.Domain.{IncidentStatus, AgentRunStatus, IncidentStatus-discrete, contains}
use k8s_ops_agent.Json.{Fields, str}
use k8s_ops_agent.Evidence.Redaction.{Python}
use k8s_ops_agent.Models.{Incident, AgentRun, Evidence, Db}
use k8s_ops_agent.Session.{Error, ok, pure, get_incident, get_agent_run, add_audit}
use k8s_ops_agent.Session.Leaves.{
  SameAfter, Leaves, Leaves-pure, Leaves-found, Leaves-if, Gives, Gives-pure, Gives-bind, given,
}
use k8s_ops_agent.Recovery.Work.{set_agent_run}
use k8s_ops_agent.AgentCore.Store.{
  audit_run, set_incident, with_status, move_incident, same_evidence, add_evidence, is_terminal,
  is_status,
}
use k8s_ops_agent.AgentCore.Lease.{
  Worker, is_alert_of, ensure_alert_evidence, leased_run, started_run, record_start, start_run,
  take_lease, claim, is_held, alert_evidence,
}

abbrev pub runs_of : Db → Table AgentRun
runs_of d = d.agent_runs

pub Leaves-audit_run :
    (python : Python) (k : ℕ) (event : String) (payload : Fields)
    → Leaves runs_of (audit_run python k event payload)
unfolding audit_run add_audit
Leaves-audit_run python k event payload = record { at = λ d. refl }

pub Leaves-move_incident :
    (states : List IncidentStatus) (target : IncidentStatus) (k : ℕ) (row : Incident)
    → Leaves runs_of (move_incident states target k row)
unfolding move_incident set_incident IncidentStatus-discrete
Leaves-move_incident states target k row =
    Leaves-if runs_of (contains IncidentStatus-discrete row.status states)
      (set_incident k (with_status target row)) (pure tt) (record { at = λ d. refl })
      (Leaves-pure runs_of tt)

pub Leaves-get_incident : (k : ℕ) (e : Error) → Leaves runs_of (get_incident k e)
unfolding get_incident
Leaves-get_incident k e = record { at = λ d. (Leaves-found runs_of (find k d.incidents) e).at d }

Leaves-add_evidence : (k : ℕ) (row : Evidence) → Leaves runs_of (add_evidence k row)
unfolding add_evidence
Leaves-add_evidence k row = record {
  at = λ d. elim (Bool-cases (is_some (select (same_evidence row) d.evidence))) [
    | inl y ↦ rw (y, SameAfter) tt
    | inr n ↦ rw (n, SameAfter) refl
  ];
}

Leaves-ensure_alert_evidence :
    (w : Worker) (k : ℕ) (run : AgentRun) (incident : Incident)
    → Leaves runs_of (ensure_alert_evidence w k run incident)
unfolding ensure_alert_evidence
Leaves-ensure_alert_evidence w k run incident = record {
  at = λ d. elim (Bool-cases (is_some (select (is_alert_of k) d.evidence))) [
    | inl y ↦ rw (y, SameAfter) refl
    | inr n ↦ rw n ((Leaves-add_evidence w.evidence_id (alert_evidence w k run incident)).at d)
  ];
}

Gives-record_start :
    (w : Worker) (k : ℕ) (run : AgentRun) → Gives runs_of run (record_start w k run)
unfolding record_start
Gives-record_start w k run =
    Gives-bind runs_of run _ _ (Leaves-get_incident run.incident_id Error.attribute_error)
      (λ incident.
        Gives-bind runs_of run _ _
          (Leaves-move_incident
            (IncidentStatus.open_ ∷ IncidentStatus.failed ∷ IncidentStatus.diagnosed ∷ [])
            IncidentStatus.diagnosing run.incident_id incident)
          (λ _. Gives-bind runs_of run _ _ (Leaves-ensure_alert_evidence w k run incident) (λ _.
            Gives-bind runs_of run _ _
              (Leaves-audit_run w.python k "agent_run.started"
                (Fields.field "goal" (str run.goal) Fields.end))
              (λ _. Gives-pure runs_of run))))

-- A claim that returned has left alone a run that has ended or that another worker holds, or has
-- given the run to the worker for thirty seconds.
pub record Claimed (w : Worker) (run_id : ℕ) (d : Db) (run : AgentRun) (e : Db) : Type 0 where
  pub before : AgentRun
  pub found_before : find run_id d.agent_runs ≡ some before
  pub same_budget : run.budget ≡ before.budget
  pub same_step : run.current_step ≡ before.current_step
  pub stored : find run_id e.agent_runs ≡ some run
  pub outcome :
      ((e ≡ d)
        × ((is_terminal run.status ≡ true)
            ⊎ (is_held w run.lease_expires_at run.lease_owner ≡ true)))
      ⊎ ((run.lease_owner ≡ some w.worker_id) × (run.lease_expires_at ≡ some (w.now + 30)))

take_lease-Claimed :
    (w : Worker) (k : ℕ) (old run : AgentRun) (d e : Db)
    → find k d.agent_runs ≡ some old
    → take_lease w k old d ≡ ok (run, e)
    → Claimed w k d run e
unfolding take_lease set_agent_run start_run leased_run started_run
take_lease-Claimed w k old run d e has h =
    elim (Bool-cases (is_status AgentRunStatus.queued old.status)) [
      | inl y ↦
          let (same, runs) =
            given runs_of (started_run w old) (record_start w k (started_run w old))
              (record d { agent_runs = update k (started_run w old) d.agent_runs }) e run
              (Gives-record_start w k (started_run w old)) (ground (arith, h, y)) in
          let there = find-update_self k (started_run w old) old d.agent_runs has in
          record {
            before = old;
            found_before = has;
            same_budget = rw same refl;
            same_step = rw same refl;
            stored = rw (same, runs) there;
            outcome = inr (rw same refl, rw same refl);
          }
      | inr n ↦
          let there = find-update_self k (leased_run w old) old d.agent_runs has in
          let same : run ≡ leased_run w old = ground (arith, h, n) in
          let after : e ≡ record d { agent_runs = update k (leased_run w old) d.agent_runs } =
            ground (arith, h, n) in
          record {
            before = old;
            found_before = has;
            same_budget = rw same refl;
            same_step = rw same refl;
            stored = rw (same, after) there;
            outcome = inr (rw same refl, rw same refl);
          }
    ]

pub claim-Claimed :
    (w : Worker) (k : ℕ) (run : AgentRun) (d e : Db)
    → claim w k d ≡ ok (run, e)
    → Claimed w k d run e
unfolding claim get_agent_run
claim-Claimed w k run d e h = elim (Option-cases (find k d.agent_runs)) [
  | inl m ↦ absurd (ground (arith, h, m))
  | inr (old, has) ↦ elim (Bool-cases (is_terminal old.status)) [
    | inl y ↦
        let same : run ≡ old = ground (arith, h, has, y) in
        let kept : e ≡ d = ground (arith, h, has, y) in
        record {
          before = old;
          found_before = has;
          same_budget = rw same refl;
          same_step = rw same refl;
          stored = rw (same, kept) has;
          outcome = inl (kept, inl (rw same y));
        }
    | inr n ↦ elim (Bool-cases (is_held w old.lease_expires_at old.lease_owner)) [
      | inl y ↦
          let same : run ≡ old = ground (arith, h, has, n, y) in
          let kept : e ≡ d = ground (arith, h, has, n, y) in
          record {
            before = old;
            found_before = has;
            same_budget = rw same refl;
            same_step = rw same refl;
            stored = rw (same, kept) has;
            outcome = inl (kept, inr (rw same y));
          }
      | inr f ↦ take_lease-Claimed w k old run d e has (ground (arith, h, has, n, f))
    ]
  ]
]

not_held_by_itself :
    (w : Worker) (lease : Option ℕ) (owner : Option String)
    → owner ≡ some w.worker_id
    → is_held w lease owner ≡ false
not_held_by_itself w none owner o = refl
not_held_by_itself w (some t) none o = refl
not_held_by_itself w (some t) (some s) o =
    let same : s ≡ w.worker_id = ground (arith, o) in ground (arith, same, eq_refl w.worker_id)

-- After a worker's claim has given it a run that has not ended, every claim of the run by a worker of
-- another name returns the same row and writes nothing, for thirty seconds.
pub claimed_exclusively :
    (w other : Worker) (k : ℕ) (run : AgentRun) (d e : Db)
    → claim w k d ≡ ok (run, e)
    → is_terminal run.status ≡ false
    → run.lease_owner ≡ some w.worker_id
    → other.worker_id ≢ w.worker_id
    → other.now < w.now + 30
    → claim other k e ≡ ok (run, e)
unfolding claim get_agent_run
claimed_exclusively w other k run d e h working owned distinct soon =
    let c = claim-Claimed w k run d e h in
    elim c.outcome [
      | inl (kept, inl ended) ↦ absurd (cc (ended, working))
      | inl (kept, inr held) ↦
          absurd (cc (held, not_held_by_itself w run.lease_expires_at run.lease_owner owned))
      | inr (owner, expires) ↦
          let theirs : (w.worker_id is other.worker_id) ≡ false =
            ground (arith, distinct, eq_iff w.worker_id other.worker_id) in
          let held : is_held other run.lease_expires_at run.lease_owner ≡ true =
            rw (owner, expires) (ground (arith, soon, theirs)) in
          rw (c.stored, working, held) refl
    ]
