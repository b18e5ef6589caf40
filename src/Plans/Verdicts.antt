-- ===== src/Plans/Verdicts.antt =====
-- What `dry_run_plan` writes, where it lets a plan through and where it denies it.
use k8s_ops_agent.Base.{
  ℕ, ◌+◌, ◌≡◌, String, true, false, some, List, arith, find, update, find-update_self,
}
use k8s_ops_agent.Domain.{PlanStatus, IncidentStatus, validate_transition}
use k8s_ops_agent.Models.{Incident, Inspection, Target, DryRun, Plan, Db}
use k8s_ops_agent.Adapters.{Inspect}
use k8s_ops_agent.Session.{
  Error, ok, err, is_err, get_plan, assign_plan, advance_plan, advance_incident, add_task,
  add_audit,
}
use k8s_ops_agent.Plans.DryRun.{workload_of, judge, deny_plan, pass_plan, dry_run_tx, dry_run_plan}
use k8s_ops_agent.Plans.Policy.{Permitted, Permitted-judged}

module _ (task_id k : ℕ) (inspect : Inspect) (allowed : List String) (d : Db) (p : Plan)
    (i : Incident) (has_p : find k d.plans ≡ some p)
    (has_i : find p.incident_id d.incidents ≡ some i) (p_draft : p.status ≡ PlanStatus.draft)
    (i_ready : i.status ≡ IncidentStatus.plan_ready) where
  abbrev with_result : DryRun → Target → PlanStatus → Plan
  with_result r t s = record p { dry_run_result = some r; target = t; status = s }

  abbrev moved : IncidentStatus → Incident
  moved s = record i { status = s; version = i.version + 1 }

  -- For a DRAFT plan whose incident is PLAN_READY and whose Pod may be restarted, no error is raised.
  -- The plan and its incident then wait for the approval, and the plan has recorded the report that the
  -- cluster gave of the Pod, and the workload that it names.
  pub dry_run_permits :
      (permitted : Permitted allowed inspect p.target)
      → let (r, e) = dry_run_plan task_id k inspect allowed d in
        (is_err r ≡ false)
        × (find k e.plans
            ≡ some (
                with_result
                  (record {
                    allowed = true;
                    reason = "controller-managed abnormal Pod";
                    inspection = Inspection.present permitted.report;
                  })
                  (record p.target {
                    workload_kind = permitted.report.workload_kind;
                    workload_name = permitted.report.workload_name;
                  })
                  PlanStatus.awaiting_approval))
        × (find p.incident_id e.incidents ≡ some (moved IncidentStatus.awaiting_approval))
  unfolding dry_run_plan dry_run_tx pass_plan get_plan assign_plan advance_plan advance_incident
      add_task add_audit validate_transition
  dry_run_permits permitted =
      let x = Inspection.present permitted.report in
      let j = Permitted-judged allowed inspect p.target d permitted in
      let r : DryRun = record {
        allowed = true;
        reason = "controller-managed abnormal Pod";
        inspection = x;
      } in
      let q = with_result r (workload_of x p.target) in
      let first = find-update_self k (q PlanStatus.draft) p d.plans has_p in
      let second =
        find-update_self k (q PlanStatus.dry_run_ready) (q PlanStatus.draft)
          (update k (q PlanStatus.draft) d.plans) first in
      let third =
        find-update_self k (q PlanStatus.awaiting_approval) (q PlanStatus.dry_run_ready)
          (update k (q PlanStatus.dry_run_ready) (update k (q PlanStatus.draft) d.plans)) second in
      let is =
        find-update_self p.incident_id (moved IncidentStatus.awaiting_approval) i d.incidents
          has_i in
      (
        ground (arith, j, first, second, third, is),
        ground (arith, j, first, second, third, is),
        ground (arith, j, first, second, third, is),
      )

  -- A DRAFT plan whose incident is PLAN_READY, and against which the policy finds a reason, is
  -- CANCELLED and keeps that reason, its incident is DIAGNOSED again, and this is committed although
  -- PolicyDeniedError is raised.
  pub dry_run_denies :
      (reason : String) (x : Inspection)
      → judge allowed inspect p.target d ≡ ok ((some reason, x), d)
      → let (r, e) = dry_run_plan task_id k inspect allowed d in
        (r ≡ err (Error.policy_denied_error reason))
        × (find k e.plans
            ≡ some (
                with_result
                  (record { allowed = false; reason = reason; inspection = x })
                  p.target
                  PlanStatus.cancelled))
        × (find p.incident_id e.incidents ≡ some (moved IncidentStatus.diagnosed))
  unfolding dry_run_plan dry_run_tx deny_plan get_plan assign_plan advance_plan advance_incident
      add_audit validate_transition
  dry_run_denies reason x j =
      let q = with_result (record { allowed = false; reason = reason; inspection = x }) p.target in
      let first = find-update_self k (q PlanStatus.draft) p d.plans has_p in
      let second =
        find-update_self k (q PlanStatus.cancelled) (q PlanStatus.draft)
          (update k (q PlanStatus.draft) d.plans) first in
      let is =
        find-update_self p.incident_id (moved IncidentStatus.diagnosed) i d.incidents has_i in
      (
        ground (arith, j, first, second, is),
        ground (arith, j, first, second, is),
        ground (arith, j, first, second, is),
      )
