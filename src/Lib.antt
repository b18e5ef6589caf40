-- ===== src/Lib.antt =====
-- k8s-ops-agent: an agent that watches a Kubernetes cluster, records incidents, diagnoses them, and
-- repairs Pods under a policy and with the approval of a human. This library models the core of
-- app/ops_agent and what that core promises.
--
-- The parts, and how they interact. A request or an alert makes an Incident; a plan to restart a
-- Pod is drafted for it, tried against the policy (dry run), and approved or rejected through a
-- Task; an approved plan gets an Execution under an idempotency key. The services of
-- app/ops_agent/services.py do this in transactions, and leave events in the outbox table. The
-- dispatcher (app/ops_agent/outbox.py) takes the events to RQ (app/ops_agent/queueing.py), and a
-- worker (app/ops_agent/jobs.py) runs the execution: it deletes the Pod and verifies that the
-- workload has recovered. The table TRANSITIONS of app/ops_agent/domain.py says which changes of a
-- status validate_transition lets through.
--
-- The files:
--   Base        tests on numbers and texts, tables of rows, Python's `strip` and `str`
--   Domain      app/ops_agent/domain.py: Enums has the states, Transitions the table and
--               validate_transition, Paths sequences of transitions, Gates what these must pass
--   Models      app/ops_agent/models.py: the rows, and the database Db that holds their tables
--   Session     transactions: `Tx` is the body of one, which raises or returns with the database,
--               `begin` commits it or rolls it back, and an `Action` is a call of a service that
--               commits several; `advance_plan` and its like are validate_transition with the
--               assignment that follows it. Session/Evolution, Keeps and Calls say how the
--               rows with a status may change, Retention and Aside what is removed from the other
--               tables, and Leaves which part of the database a transaction leaves
--   Adapters    how a call of the cluster ends: with a value or with an exception
--   Tasks       create_task, transition_task, and how services find and finish a task
--   Plans       Requests: create_plan; DryRun: dry_run_plan and its policy; Review: approve_plan
--               and reject_plan
--   Executions  Creation: create_execution; Processing: process_execution; Failure:
--               fail_execution; Job: process_execution_job
--   Outbox      Queue: app/ops_agent/queueing.py; Dispatch: dispatch_pending_once of
--               app/ops_agent/outbox.py
--   Recovery    Work: recover_stuck_work_once of app/ops_agent/recovery.py
--   Remediation Attempt: attempt_auto_remediation of app/ops_agent/auto_remediation.py
--   Incidents   Alerts: resolve_incident_from_alert
--   AgentRuns   Failure: fail_agent_run; Creation: the checks of create_agent_run; Insertion: its
--               transactions, and cancel_agent_run
--   Json        JSON values, as far as the code looks into them
--   Evidence    Redaction: sanitize_content of app/ops_agent/evidence.py
--   Tools       Registry: ToolRegistry of app/ops_agent/tooling.py
--   Verifier    IncidentVerifier of app/ops_agent/verification.py
--   AgentCore   app/ops_agent/agent_core.py. Decision: validate_next_decision; Policy: AgentPolicy;
--               Store: the rows; Lease: _claim; Finish: _finish and request_cancel; Budget: the
--               model's budget; Deciding: _decide; Calling: the tool call; Process and Rounds:
--               process, where a Round holds what the world does in one turn of the loop
--   Context     app/ops_agent/context_memory.py. Memory: working_memory; Selection: select_context
--   Tests       the theorems at concrete inputs
-- The other modules of a part hold proofs about it.
--
-- How the model is made. A primary key is a UUID that is only compared, so a number stands for it;
-- the ids that a call draws, and the times that it reads, are its arguments. `session.add` puts a
-- row at the end of its table, and `session.scalar(select(…))` finds the first that fits. A
-- transaction is atomic; what other workers commit between two transactions of one call is an
-- argument (`others` of create_execution, and the database that `delete_pod` and `verify_recovery`
-- of a Cluster return), which the theorems leave open, or ask to keep to the transition rules or to remove no row. The
-- version of an incident is counted; a write that SQLAlchemy refuses because the version is stale
-- cannot occur, since the transactions of the model follow one another. An inspection, a deletion and
-- a verification are answers of the cluster, returned or raised. Redis may fail at any call, before
-- a job is stored or after. `safe_error_message` is a function of the Cluster, `clean` of the
-- Dispatcher. The loop of the dispatcher is recursion on the rows, with the batch size as the
-- number of rows it may still take. Only the loop of `process` runs on fuel, one unit a round: as many
-- as the run has steps left, and one more, are enough, which process_ends shows. What a reasoner, the
-- context builder or a tool answers in a round is part of the Round, and so is what others commit
-- meanwhile. Python's `lower`, `json.dumps`, the pattern INLINE_SECRET, the hash and jsonschema are
-- parameters (`Python`, `Validator`, `DecisionChecks`).
-- So are the value of a JSON number (`natural` of create_agent_run) and the test `fits` of
-- select_context, which its caller brings.
--
-- Not modelled: the serialisers, listings and metrics of the services, since they change no state;
-- the clients of Kubernetes, Prometheus and Redis, the HTTP routes, the migrations, the demo
-- application, scripts and manifests; the making of incidents, process_diagnosis,
-- the collector of evidence, the rules and the models that diagnose, the context builder, and the
-- handlers of the tools.
pub mod Base
pub mod Domain
pub mod Json
pub mod Models
pub mod Session
pub mod Adapters
pub mod Tasks
pub mod Plans
pub mod Executions
pub mod Outbox
pub mod Recovery
pub mod Remediation
pub mod Incidents
pub mod AgentRuns
pub mod Evidence
pub mod Context
pub mod Tools
pub mod Verifier
pub mod AgentCore
mod Tests
