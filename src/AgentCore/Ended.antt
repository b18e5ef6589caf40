-- ===== src/AgentCore/Ended.antt =====
-- How `_finish` of app/ops_agent/agent_core.py ends a run, and that an ended run stays as it is.
use Prim.Native.String.{◌++◌}
use mathlib.Core.Path.{subst}
use k8s_ops_agent.Base.{
  ℕ, ◌≡◌, refl, String, none, true, false, Option, some, [], ◌∷◌, arith, Bool-cases, inl, inr, find,
  update, find-update_self,
}
use k8s_ops_agent.Domain.{
  IncidentStatus, AgentRunStatus, AgentRunStatus-discrete, IncidentStatus-discrete, contains,
  agent_run_value,
}
use k8s_ops_agent.Json.{Fields, str, field, end}
use k8s_ops_agent.Evidence.Redaction.{Python}
use k8s_ops_agent.Models.{Incident, AgentRun, Diagnosis, Db}
use k8s_ops_agent.Session.{Result, ok, get_incident, get_agent_run, add_audit}
use k8s_ops_agent.Recovery.Work.{set_agent_run}
use k8s_ops_agent.AgentCore.Store.{
  audit_run, set_incident, with_status, move_incident, is_terminal, terminal_states,
}
use k8s_ops_agent.AgentCore.Handover.{HasHandover, hand_over_done}
use k8s_ops_agent.AgentCore.Finish.{finished, incident_outcome, record_end, finish}

-- The state of the incident afterwards.
abbrev pub settled : AgentRunStatus → IncidentStatus → IncidentStatus
settled AgentRunStatus.completed IncidentStatus.diagnosing = IncidentStatus.diagnosed
settled status IncidentStatus.diagnosing = IncidentStatus.failed
settled status s = s

settled-diagnosing :
    (status : AgentRunStatus) (s : IncidentStatus)
    → contains IncidentStatus-discrete s (IncidentStatus.diagnosing ∷ []) ≡ true
    → incident_outcome status ≡ settled status s
unfolding IncidentStatus-discrete
settled-diagnosing status s y = ground (arith, y)

settled-other :
    (status : AgentRunStatus) (s : IncidentStatus)
    → contains IncidentStatus-discrete s (IncidentStatus.diagnosing ∷ []) ≡ false
    → s ≡ settled status s
unfolding IncidentStatus-discrete
settled-other status s n = ground (arith, n)

-- The run as it ends: a diagnosis that comes with the end replaces the one before.
abbrev pub ended_run : ℕ → AgentRunStatus → String → Option Diagnosis → AgentRun → AgentRun
ended_run now status reason none run = record run {
  status = status;
  stop_reason = some reason;
  finished_at = some now;
  lease_owner = none;
  lease_expires_at = none;
}
ended_run now status reason (some diagnosis) run = record run {
  status = status;
  stop_reason = some reason;
  finished_at = some now;
  lease_owner = none;
  lease_expires_at = none;
  diagnosis = some diagnosis;
}

finished-ended_run :
    (now : ℕ) (status : AgentRunStatus) (reason : String) (diagnosis : Option Diagnosis)
    (run : AgentRun)
    → finished now status reason diagnosis run ≡ ended_run now status reason diagnosis run
unfolding finished
finished-ended_run now status reason none run = refl
finished-ended_run now status reason (some diagnosis) run = refl

-- The states of a run that is still to be worked on.
abbrev pub IsOpen : AgentRunStatus → Type 0
IsOpen AgentRunStatus.completed = ⊥
IsOpen AgentRunStatus.awaiting_human = ⊥
IsOpen AgentRunStatus.stopped = ⊥
IsOpen AgentRunStatus.failed = ⊥
IsOpen AgentRunStatus.cancelled = ⊥
IsOpen s = Unit

IsOpen-working : (s : AgentRunStatus) → IsOpen s → is_terminal s ≡ false
unfolding is_terminal terminal_states AgentRunStatus-discrete
IsOpen-working s h = ground (arith, h)

record Moved (k : ℕ) (status : AgentRunStatus) (i : Incident) (d : Db) (r : Result (Unit {0} × Db))
    : Type 0 where
  pub after : Db
  pub row : Incident
  pub returns : r ≡ ok (tt, after)
  pub runs : after.agent_runs ≡ d.agent_runs
  pub stored : find k after.incidents ≡ some row
  pub status_after : row.status ≡ settled status i.status

move_incident_done :
    (k : ℕ) (status : AgentRunStatus) (i : Incident) (d : Db)
    → find k d.incidents ≡ some i
    → Moved k status i d
        (move_incident (IncidentStatus.diagnosing ∷ []) (incident_outcome status) k i d)
unfolding move_incident set_incident IncidentStatus-discrete
move_incident_done k status i d has =
    elim (Bool-cases (contains IncidentStatus-discrete i.status (IncidentStatus.diagnosing ∷ []))) [
      | inl y ↦
          let moved = with_status (incident_outcome status) i in
          record {
            after = record d { incidents = update k moved d.incidents };
            row = moved;
            returns = rw y refl;
            runs = refl;
            stored = find-update_self k moved i d.incidents has;
            status_after = settled-diagnosing status i.status y;
          }
      | inr n ↦ record {
        after = d;
        row = i;
        returns = rw n refl;
        runs = refl;
        stored = has;
        status_after = settled-other status i.status n;
      }
    ]

-- An audit event touches nothing else.
record Audited (d : Db) (r : Result (Unit {0} × Db)) : Type 0 where
  pub after : Db
  pub returns : r ≡ ok (tt, after)
  pub runs : after.agent_runs ≡ d.agent_runs
  pub incidents : after.incidents ≡ d.incidents
  pub tasks : after.tasks ≡ d.tasks

audit_run_done :
    (python : Python) (k : ℕ) (event : String) (payload : Fields) (d : Db)
    → Audited d (audit_run python k event payload d)
unfolding audit_run add_audit
audit_run_done python k event payload d = record {
  after = _;
  returns = refl;
  runs = refl;
  incidents = refl;
  tasks = refl;
}

-- What `_finish` leaves of a run that had not ended.
pub record Finished (k : ℕ) (status : AgentRunStatus) (ended : AgentRun) (i : Incident)
    (r : Result (AgentRun × Db)) : Type 0 where
  pub after : Db
  pub row : Incident
  pub returns : r ≡ ok (ended, after)
  pub stored : find k after.agent_runs ≡ some ended
  pub incident : find ended.incident_id after.incidents ≡ some row
  pub incident_status : row.status ≡ settled status i.status
  pub task : status ≡ AgentRunStatus.awaiting_human → HasHandover ended.incident_id k after.tasks

finish_done :
    (python : Python) (now task_id k : ℕ) (status : AgentRunStatus) (reason : String)
    (diagnosis : Option Diagnosis) (d : Db) (run : AgentRun) (i : Incident)
    → find k d.agent_runs ≡ some run
    → find run.incident_id d.incidents ≡ some i
    → is_terminal run.status ≡ false
    → Finished k status
        (finished now status reason diagnosis run)
        i
        (finish python now task_id k status reason diagnosis d)
unfolding finish record_end set_agent_run get_agent_run get_incident finished
finish_done python now task_id k status reason diagnosis d run i has has_i working =
    let ended = finished now status reason diagnosis run in
    let d1 = record d { agent_runs = update k ended d.agent_runs } in
    let m = move_incident_done run.incident_id status i d1 has_i in
    let h = hand_over_done task_id status run.incident_id k reason m.after in
    let a =
      audit_run_done python k ("agent_run." ++ python.lower (agent_run_value status))
        (field "reason" (str reason) end) h.after in
    record {
      after = a.after;
      row = m.row;
      returns = rw (has, working, has_i, m.returns, h.returns, a.returns) refl;
      stored = rw (a.runs, h.runs, m.runs) (find-update_self k ended run d.agent_runs has);
      incident = rw (a.incidents, h.incidents) m.stored;
      incident_status = m.status_after;
      task = λ y. rw a.tasks (h.task y);
    }

-- `_finish` of a run that has not ended, and has its incident, returns. The run has the new status,
-- reason and time, no lease, the new diagnosis if there is one, and is otherwise as it was. An incident that was DIAGNOSING is DIAGNOSED if the run is
-- COMPLETED and FAILED if not, and any other keeps its status. If the run is to await a human, an
-- unfinished task about it exists.
pub finish_outcome :
    (python : Python) (now task_id k : ℕ) (status : AgentRunStatus) (reason : String)
    (diagnosis : Option Diagnosis) (d : Db) (run : AgentRun) (i : Incident)
    → find k d.agent_runs ≡ some run
    → find run.incident_id d.incidents ≡ some i
    → IsOpen run.status
    → Finished k status
        (ended_run now status reason diagnosis run)
        i
        (finish python now task_id k status reason diagnosis d)
finish_outcome python now task_id k status reason diagnosis d run i has has_i working =
    subst
      (λ ended. Finished k status ended i (finish python now task_id k status reason diagnosis d))
      (finished-ended_run now status reason diagnosis run)
      (finish_done python now task_id k status reason diagnosis d run i has has_i
        (IsOpen-working run.status working))
