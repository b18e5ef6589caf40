-- ===== src/Tests/AgentRuns.antt =====
-- The failure of the run of `Data`, and the creation of another.
use k8s_ops_agent.Base.{
  ℕ, ◌≡◌, refl, true, false, Option, some, none, [], ◌∷◌, ◌is◌, find, is_some, select, strip,
  if◌then◌else◌,
}
use k8s_ops_agent.Domain.{IncidentStatus, AgentRunMode, PlanStatus, AgentRunStatus}
use k8s_ops_agent.Json.{Number, number, str, obj, field, end}
use k8s_ops_agent.Models.{Incident, AgentRun, Db}
use k8s_ops_agent.Session.{is_err, begin, add_agent_run, add_audit, add_outbox}
use k8s_ops_agent.AgentRuns.Failure.{fail_agent_run}
use k8s_ops_agent.AgentRuns.Ending.{fail_agent_run_outcome}
use k8s_ops_agent.AgentCore.Rounds.{process}
use k8s_ops_agent.AgentRuns.Creation.{RunRequest}
use k8s_ops_agent.AgentRuns.Insertion.{create_agent_run}
use k8s_ops_agent.AgentRuns.Entry.{Entered, created_run_ends}
use k8s_ops_agent.Tests.AgentData.{queued_run, round_at, worker_at}
use k8s_ops_agent.Tests.Data.{db_in, incident_in, a_run}

abbrev at_work : Db
at_work = record (db_in IncidentStatus.diagnosing PlanStatus.draft []) {
  agent_runs = (6, a_run) ∷ [];
}

fail_agent_run_outcome_example :
    let (r, e) = begin (fail_agent_run 500 6 "the model did not answer") at_work in
    (after : Incident) × (is_err r ≡ false)
    × (find 6 e.agent_runs
        ≡ some (record a_run {
          status = AgentRunStatus.failed;
          error = some "the model did not answer";
          finished_at = some 500;
        }))
    × (find 1 e.incidents ≡ some after)
    × (after.status ≡ IncidentStatus.failed)
unfolding find
fail_agent_run_outcome_example =
    fail_agent_run_outcome 500 6 "the model did not answer" at_work a_run
      (incident_in IncidentStatus.diagnosing) refl refl

abbrev request : RunRequest
request = record {
  incident_id = 1;
  mode = some AgentRunMode.diagnose_only;
  idempotency_key = some "run-1";
  enqueue = true;
  goal = some (str " find the cause ");
  budget = some (obj (field "max_steps" (number (record { digits = "3"; is_zero = false })) end));
  model_name = none;
}

abbrev three : Number → Option ℕ
three n = if n.digits is "3" then some 3 else none

abbrev created_run : AgentRun
created_run = record queued_run {
  idempotency_key = some "run-1";
  started_at = none;
  lease_owner = none;
  budget = record queued_run.budget { max_steps = 3 };
  target_snapshot = record queued_run.target_snapshot { resource_uid = some "uid-1" };
}

abbrev after_creation : Db
unfolding create_agent_run
after_creation =
    (create_agent_run three (λ d. d) (record { run_id = 7; event_id = 8; now = 150 }) request
      at_work).1

created_run_ends_example :
    Entered (7, created_run) after_creation
    × (is_some (process 17 (worker_at "worker" 205) round_at 7 after_creation).0 ≡ true)
unfolding find after_creation create_agent_run strip select add_agent_run add_audit add_outbox
created_run_ends_example =
    created_run_ends three (λ d. d) (record { run_id = 7; event_id = 8; now = 150 }) request at_work
      after_creation (7, created_run) (worker_at "worker" 205) round_at refl refl
      (λ i. record { thinking = λ d. refl; calling = λ d. refl })
