-- ===== src/AgentCore/Final.antt =====
-- An agent run that has ended is not written again by app/ops_agent/agent_core.py.
use Prim.Native.String.{◌++◌}
use k8s_ops_agent.Base.{
  ℕ, ◌≡◌, refl, String, true, Option, none, some, [], ◌∷◌, arith, Bool-cases, Option-cases, inl,
  inr, find, select, update, find-update_self,
}
use k8s_ops_agent.Domain.{IncidentStatus, AgentRunStatus, agent_run_value}
use k8s_ops_agent.Json.{str, field, end}
use k8s_ops_agent.Evidence.Redaction.{Python}
use k8s_ops_agent.Models.{AgentRun, Task, Diagnosis, Db}
use k8s_ops_agent.Session.{Error, ok, pure, ◌>>=◌, get_agent_run, add_task}
use k8s_ops_agent.Session.Leaves.{
  Leaves, Leaves-pure, Leaves-if, Gives, Gives-pure, Gives-bind, given,
}
use k8s_ops_agent.Tasks.{find_task}
use k8s_ops_agent.Recovery.Work.{set_agent_run}
use k8s_ops_agent.AgentCore.Store.{is_terminal, is_status}
use k8s_ops_agent.AgentCore.Lease.{Worker, claim}
use k8s_ops_agent.AgentCore.Finish.{
  finished, is_handover_of, handover_task, hand_over, incident_outcome, record_end, finish,
  request_cancel, add_unless,
}
use k8s_ops_agent.AgentCore.Exclusive.{
  runs_of, Leaves-audit_run, Leaves-move_incident, Leaves-get_incident,
}

Leaves-add_unless :
    (o : Option (ℕ × Task)) (k : ℕ) (task : Task) → Leaves runs_of (add_unless o k task)
unfolding add_task
Leaves-add_unless (some t) k task = Leaves-pure runs_of tt
Leaves-add_unless none k task = record { at = λ d. refl }

Leaves-hand_over :
    (k : ℕ) (status : AgentRunStatus) (incident_id run_id : ℕ) (reason : String)
    → Leaves runs_of (hand_over k status incident_id run_id reason)
unfolding hand_over find_task
Leaves-hand_over k status incident_id run_id reason =
    Leaves-if runs_of (is_status AgentRunStatus.awaiting_human status)
      (find_task (is_handover_of incident_id run_id)
        >>= (λ task. add_unless task k (handover_task incident_id run_id reason)))
      (pure tt)
      (record {
        at = λ d.
            (Leaves-add_unless (select (is_handover_of incident_id run_id) d.tasks) k
                (handover_task incident_id run_id reason)).at
              d;
      })
      (Leaves-pure runs_of tt)

Gives-record_end :
    (python : Python) (task_id k : ℕ) (status : AgentRunStatus) (reason : String) (run : AgentRun)
    → Gives runs_of run (record_end python task_id k status reason run)
unfolding record_end
Gives-record_end python task_id k status reason run =
    Gives-bind runs_of run _ _ (Leaves-get_incident run.incident_id Error.attribute_error)
      (λ incident.
        Gives-bind runs_of run _ _
          (Leaves-move_incident (IncidentStatus.diagnosing ∷ []) (incident_outcome status)
            run.incident_id incident)
          (λ _.
            Gives-bind runs_of run _ _ (Leaves-hand_over task_id status run.incident_id k reason)
              (λ _.
                Gives-bind runs_of run _ _
                  (Leaves-audit_run python k ("agent_run." ++ python.lower (agent_run_value status))
                    (field "reason" (str reason) end))
                  (λ _. Gives-pure runs_of run))))

-- The row under the key is the one that was returned, and it has ended.
record EndedRow (k : ℕ) (run : AgentRun) (e : Db) : Type 0 where
  pub stored : find k e.agent_runs ≡ some run
  pub ended : is_terminal run.status ≡ true

finished_status :
    (now : ℕ) (status : AgentRunStatus) (reason : String) (diagnosis : Option Diagnosis)
    (old : AgentRun)
    → is_terminal status ≡ true
    → is_terminal (finished now status reason diagnosis old).status ≡ true
unfolding finished
finished_status now status reason diagnosis old final = final

finish-EndedRow :
    (python : Python) (now task_id k : ℕ) (status : AgentRunStatus) (reason : String)
    (diagnosis : Option Diagnosis) (d e : Db) (run : AgentRun)
    → is_terminal status ≡ true
    → finish python now task_id k status reason diagnosis d ≡ ok (run, e)
    → EndedRow k run e
unfolding finish get_agent_run set_agent_run
finish-EndedRow python now task_id k status reason diagnosis d e run final h =
    elim (Option-cases (find k d.agent_runs)) [
      | inl m ↦ absurd (ground (arith, h, m))
      | inr (old, has) ↦ elim (Bool-cases (is_terminal old.status)) [
        | inl y ↦
            let same : run ≡ old = ground (arith, h, has, y) in
            let kept : e ≡ d = ground (arith, h, has, y) in
            record { stored = rw (same, kept) has; ended = rw same y }
        | inr n ↦
            let over = finished now status reason diagnosis old in
            let (same, runs) =
              given runs_of over (record_end python task_id k status reason over)
                (record d { agent_runs = update k over d.agent_runs }) e run
                (Gives-record_end python task_id k status reason over)
                (ground (arith, h, has, n)) in
            record {
              stored = rw (same, runs) (find-update_self k over old d.agent_runs has);
              ended = rw same (finished_status now status reason diagnosis old final);
            }
      ]
    ]

-- Once `_finish` has returned a run in a state in which runs end, it stays as it is: a later `_finish`
-- with any other outcome, a claim by any worker and a request to cancel it return the same row and
-- write nothing.
pub finished_for_good :
    (python : Python) (now task_id k : ℕ) (status : AgentRunStatus) (reason : String)
    (diagnosis : Option Diagnosis) (d e : Db) (run : AgentRun)
    → is_terminal status ≡ true
    → finish python now task_id k status reason diagnosis d ≡ ok (run, e)
    → ((now' task_id' : ℕ) (status' : AgentRunStatus) (reason' : String)
          (diagnosis' : Option Diagnosis)
        → finish python now' task_id' k status' reason' diagnosis' e ≡ ok (run, e))
      × ((w : Worker) → claim w k e ≡ ok (run, e))
      × ((now' : ℕ) → request_cancel python now' k e ≡ ok (run, e))
unfolding finish claim request_cancel get_agent_run
finished_for_good python now task_id k status reason diagnosis d e run final h =
    let r = finish-EndedRow python now task_id k status reason diagnosis d e run final h in
    (
      λ now' task_id' status' reason' diagnosis'. rw (r.stored, r.ended) refl,
      λ w. rw (r.stored, r.ended) refl,
      λ now'. rw (r.stored, r.ended) refl,
    )
