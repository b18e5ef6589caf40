-- ===== src/Executions/Repair.antt =====
-- What a repair ends in: the statuses after `process_execution`, by what the cluster answers.
use k8s_ops_agent.Base.{
  ℕ, ◌+◌, ◌≡◌, refl, String, Bool, true, false, some, arith, find, find-update_self,
}
use k8s_ops_agent.Domain.{ExecutionStatus, IncidentStatus, PlanStatus, validate_transition}
use k8s_ops_agent.Models.{Incident, Deletion, Verification, Plan, Execution, Db}
use k8s_ops_agent.Adapters.{Call, returned, raised}
use k8s_ops_agent.Session.{
  Result, is_err, commit, get_execution, get_plan, advance_execution, advance_incident,
  advance_plan, assign_execution, add_task, add_audit,
}
use k8s_ops_agent.Executions.Processing.{
  Cluster, start_tx, failed_tx, succeeded_tx, verified_tx, unverified_tx,
}

-- How an execution, its plan and its incident end, by what the cluster answers.
pub record Outcome : Type 0 where
  pub execution : ExecutionStatus
  pub plan : PlanStatus
  pub incident : IncidentStatus

-- After the Pod has been deleted, by the health of the workload.
abbrev pub by_health : Bool → Outcome
by_health true = record {
  execution = ExecutionStatus.succeeded;
  plan = PlanStatus.executed;
  incident = IncidentStatus.resolved;
}
by_health false = record {
  execution = ExecutionStatus.verification_failed;
  plan = PlanStatus.executed;
  incident = IncidentStatus.failed;
}

abbrev pub outcome_of : Call Deletion → Call Verification → Outcome
outcome_of (raised _ _) v = record {
  execution = ExecutionStatus.failed;
  plan = PlanStatus.executable;
  incident = IncidentStatus.failed;
}
outcome_of (returned _) (raised _ _) = by_health false
outcome_of (returned _) (returned v) = by_health v.healthy

-- A cluster that gives these answers, while no other worker commits.
abbrev pub quiet : Cluster → Call Deletion → Call Verification → Cluster
quiet c deletion verification = record c {
  delete_pod = λ t d. (deletion, d);
  verify_recovery = λ t d. (verification, d);
}

-- The execution, its plan and its incident, in these states.
pub record Rows (k plan_id incident_id : ℕ) (o : Outcome) (d : Db) : Type 0 where
  pub x : Execution
  pub p : Plan
  pub i : Incident
  pub has_x : find k d.executions ≡ some x
  pub has_p : find plan_id d.plans ≡ some p
  pub has_i : find incident_id d.incidents ≡ some i
  pub x_plan : x.plan_id ≡ plan_id
  pub p_incident : p.incident_id ≡ incident_id
  pub x_is : x.status ≡ o.execution
  pub p_is : p.status ≡ o.plan
  pub i_is : i.status ≡ o.incident

-- The transaction commits, and leaves the rows in these states.
pub record Moved {A : Type 0} (k plan_id incident_id : ℕ) (o : Outcome) (d : Db)
    (r : Result (A × Db)) : Type 0 where
  pub returns : is_err r ≡ false
  pub rows : Rows k plan_id incident_id o (commit d r).1

abbrev pub in_states : ExecutionStatus → PlanStatus → IncidentStatus → Outcome
in_states s t u = record { execution = s; plan = t; incident = u }

pub start_moves :
    (now : ℕ) (k plan_id incident_id : ℕ) (d : Db)
    → Rows k plan_id incident_id
        (in_states ExecutionStatus.prepared PlanStatus.executable IncidentStatus.awaiting_approval)
        d
    → Moved k plan_id incident_id
        (in_states ExecutionStatus.running PlanStatus.executable IncidentStatus.remediating)
        d
        (start_tx now k d)
unfolding start_tx get_execution get_plan advance_execution advance_incident advance_plan
    assign_execution add_task add_audit validate_transition
start_moves now k plan_id incident_id d r =
    let x' : Execution = record r.x { status = ExecutionStatus.running; started_at = some now } in
    let p' : Plan = r.p in
    let i' : Incident = record r.i {
      status = IncidentStatus.remediating;
      version = r.i.version + 1;
    } in
    let xs = find-update_self k x' r.x d.executions r.has_x in
    let ps = find-update_self plan_id p' r.p d.plans r.has_p in
    let is = find-update_self incident_id i' r.i d.incidents r.has_i in
    record {
      returns = ground arith;
      rows = record {
        x = x';
        p = p';
        i = i';
        has_x = ground (arith, xs);
        has_p = ground (arith, ps);
        has_i = ground (arith, is);
        x_plan = r.x_plan;
        p_incident = r.p_incident;
        x_is = refl;
        p_is = r.p_is;
        i_is = refl;
      };
    }

pub failed_moves :
    (c : Cluster) (e : String) (k plan_id incident_id : ℕ) (d : Db)
    → Rows k plan_id incident_id
        (in_states ExecutionStatus.running PlanStatus.executable IncidentStatus.remediating)
        d
    → Moved k plan_id incident_id
        (in_states ExecutionStatus.failed PlanStatus.executable IncidentStatus.failed)
        d
        (failed_tx c k e d)
unfolding failed_tx get_execution get_plan advance_execution advance_incident advance_plan
    assign_execution add_task add_audit validate_transition
failed_moves c e k plan_id incident_id d r =
    let x' : Execution = record r.x {
      status = ExecutionStatus.failed;
      error = some e;
      finished_at = some c.finished;
    } in
    let p' : Plan = r.p in
    let i' : Incident = record r.i { status = IncidentStatus.failed; version = r.i.version + 1 } in
    let xs = find-update_self k x' r.x d.executions r.has_x in
    let ps = find-update_self plan_id p' r.p d.plans r.has_p in
    let is = find-update_self incident_id i' r.i d.incidents r.has_i in
    record {
      returns = ground arith;
      rows = record {
        x = x';
        p = p';
        i = i';
        has_x = ground (arith, xs);
        has_p = ground (arith, ps);
        has_i = ground (arith, is);
        x_plan = r.x_plan;
        p_incident = r.p_incident;
        x_is = refl;
        p_is = r.p_is;
        i_is = refl;
      };
    }

pub succeeded_moves :
    (c : Cluster) (a : Deletion) (k plan_id incident_id : ℕ) (d : Db)
    → Rows k plan_id incident_id
        (in_states ExecutionStatus.running PlanStatus.executable IncidentStatus.remediating)
        d
    → Moved k plan_id incident_id
        (in_states ExecutionStatus.succeeded PlanStatus.executed IncidentStatus.verifying)
        d
        (succeeded_tx c k a d)
unfolding succeeded_tx get_execution get_plan advance_execution advance_incident advance_plan
    assign_execution add_task add_audit validate_transition
succeeded_moves c a k plan_id incident_id d r =
    let x' : Execution = record r.x {
      status = ExecutionStatus.succeeded;
      result = some a;
      finished_at = some c.finished;
    } in
    let p' : Plan = record r.p { status = PlanStatus.executed } in
    let i' : Incident = record r.i {
      status = IncidentStatus.verifying;
      version = r.i.version + 1;
    } in
    let xs = find-update_self k x' r.x d.executions r.has_x in
    let ps = find-update_self plan_id p' r.p d.plans r.has_p in
    let is = find-update_self incident_id i' r.i d.incidents r.has_i in
    record {
      returns = ground arith;
      rows = record {
        x = x';
        p = p';
        i = i';
        has_x = ground (arith, xs);
        has_p = ground (arith, ps);
        has_i = ground (arith, is);
        x_plan = r.x_plan;
        p_incident = r.p_incident;
        x_is = refl;
        p_is = refl;
        i_is = refl;
      };
    }

pub verified_moves :
    (c : Cluster) (v : Verification) (k plan_id incident_id : ℕ) (d : Db)
    → Rows k plan_id incident_id
        (in_states ExecutionStatus.succeeded PlanStatus.executed IncidentStatus.verifying)
        d
    → Moved k plan_id incident_id
        (in_states ExecutionStatus.succeeded PlanStatus.executed IncidentStatus.resolved)
        d
        (verified_tx c k v d)
unfolding verified_tx get_execution get_plan advance_execution advance_incident advance_plan
    assign_execution add_task add_audit validate_transition
verified_moves c v k plan_id incident_id d r =
    let x' : Execution = record r.x { verification_result = some v } in
    let p' : Plan = r.p in
    let i' : Incident = record r.i {
      status = IncidentStatus.resolved;
      version = r.i.version + 1;
      resolved_at = some c.resolved;
    } in
    let xs = find-update_self k x' r.x d.executions r.has_x in
    let ps = find-update_self plan_id p' r.p d.plans r.has_p in
    let is = find-update_self incident_id i' r.i d.incidents r.has_i in
    record {
      returns = ground arith;
      rows = record {
        x = x';
        p = p';
        i = i';
        has_x = ground (arith, xs);
        has_p = ground (arith, ps);
        has_i = ground (arith, is);
        x_plan = r.x_plan;
        p_incident = r.p_incident;
        x_is = r.x_is;
        p_is = r.p_is;
        i_is = refl;
      };
    }

pub unverified_moves :
    (c : Cluster) (v : Verification) (k plan_id incident_id : ℕ) (d : Db)
    → Rows k plan_id incident_id
        (in_states ExecutionStatus.succeeded PlanStatus.executed IncidentStatus.verifying)
        d
    → Moved k plan_id incident_id
        (in_states ExecutionStatus.verification_failed PlanStatus.executed IncidentStatus.failed)
        d
        (unverified_tx c k v d)
unfolding unverified_tx get_execution get_plan advance_execution advance_incident advance_plan
    assign_execution add_task add_audit validate_transition
unverified_moves c v k plan_id incident_id d r =
    let x' : Execution = record r.x {
      status = ExecutionStatus.verification_failed;
      verification_result = some v;
    } in
    let p' : Plan = r.p in
    let i' : Incident = record r.i { status = IncidentStatus.failed; version = r.i.version + 1 } in
    let xs = find-update_self k x' r.x d.executions r.has_x in
    let ps = find-update_self plan_id p' r.p d.plans r.has_p in
    let is = find-update_self incident_id i' r.i d.incidents r.has_i in
    record {
      returns = ground arith;
      rows = record {
        x = x';
        p = p';
        i = i';
        has_x = ground (arith, xs);
        has_p = ground (arith, ps);
        has_i = ground (arith, is);
        x_plan = r.x_plan;
        p_incident = r.p_incident;
        x_is = refl;
        p_is = r.p_is;
        i_is = refl;
      };
    }
