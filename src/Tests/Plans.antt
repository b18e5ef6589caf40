-- ===== src/Tests/Plans.antt =====
-- The review of a plan for the Pod of `Data`.
use k8s_ops_agent.Base.{
  ◌≡◌, refl, inl, select, true, false, String, List, some, none, [], ◌∷◌, find, arith,
}
use k8s_ops_agent.Domain.{IncidentStatus, TaskStatus, PlanStatus}
use k8s_ops_agent.Models.{Inspection}
use k8s_ops_agent.Session.{Error, err, is_err, begin}
use k8s_ops_agent.Plans.DryRun.{judge, denial, dry_run_plan}
use k8s_ops_agent.Tasks.{related_task, has_type}
use k8s_ops_agent.Plans.Review.{approve_plan, reject_plan}
use k8s_ops_agent.Plans.Policy.{Permitted, dry_run_sound}
use k8s_ops_agent.Plans.Verdicts.{dry_run_permits, dry_run_denies}
use k8s_ops_agent.Plans.Approval.{review_needs_waiting, approve_plan_outcome, reject_plan_outcome}
use k8s_ops_agent.Tests.Data.{
  pod, crashing, inspect_pod, no_pod, incident_in, plan_in, approval_in, drafted,
  waiting_for_approval,
}

abbrev allowed : List String
allowed = "demo" ∷ []

abbrev pod-Permitted : Permitted allowed inspect_pod pod
pod-Permitted = record {
  report = crashing;
  seen = refl;
  namespace_allowed = refl;
  namespace_not_system = refl;
  same_pod = refl;
  controlled = inl refl;
  abnormal = refl;
}

dry_run_permits_example :
    let (r, e) = dry_run_plan 9 2 inspect_pod allowed drafted in
    (is_err r ≡ false)
    × (find 2 e.plans
        ≡ some (record (plan_in PlanStatus.awaiting_approval) {
          dry_run_result = some (record {
            allowed = true;
            reason = "controller-managed abnormal Pod";
            inspection = Inspection.present crashing;
          });
          target = record pod {
            workload_kind = crashing.workload_kind;
            workload_name = crashing.workload_name;
          };
        }))
    × (find 1 e.incidents
        ≡ some (record (incident_in IncidentStatus.awaiting_approval) { version = 2 }))
unfolding find
dry_run_permits_example =
    dry_run_permits 9 2 inspect_pod allowed drafted (plan_in PlanStatus.draft)
      (incident_in IncidentStatus.plan_ready) refl refl refl refl pod-Permitted

dry_run_sound_example :
    ((plan_in PlanStatus.draft).status ≡ PlanStatus.draft) × Permitted allowed inspect_pod pod
unfolding find
dry_run_sound_example =
    dry_run_sound 9 2 inspect_pod allowed drafted (plan_in PlanStatus.draft) refl
      (dry_run_permits 9 2 inspect_pod allowed drafted (plan_in PlanStatus.draft)
        (incident_in IncidentStatus.plan_ready) refl refl refl refl pod-Permitted).0

dry_run_denies_example :
    let (r, e) = dry_run_plan 9 2 no_pod allowed drafted in
    (r ≡ err (Error.policy_denied_error "target Pod does not exist"))
    × (find 2 e.plans
        ≡ some (record (plan_in PlanStatus.cancelled) {
          dry_run_result = some (record {
            allowed = false;
            reason = "target Pod does not exist";
            inspection = Inspection.absent;
          });
        }))
    × (find 1 e.incidents ≡ some (record (incident_in IncidentStatus.diagnosed) { version = 2 }))
unfolding find judge denial
dry_run_denies_example =
    dry_run_denies 9 2 no_pod allowed drafted (plan_in PlanStatus.draft)
      (incident_in IncidentStatus.plan_ready) refl refl refl refl "target Pod does not exist"
      Inspection.absent refl

approve_plan_outcome_example :
    let (r, e) = begin (approve_plan 2 "alice" none) waiting_for_approval in
    (is_err r ≡ false)
    × (find 2 e.plans ≡ some (plan_in PlanStatus.executable))
    × (find 3 e.tasks ≡ some (approval_in TaskStatus.done))
    × (e.incidents ≡ waiting_for_approval.incidents)
unfolding find select related_task has_type
approve_plan_outcome_example =
    approve_plan_outcome 2 "alice" none waiting_for_approval (plan_in PlanStatus.awaiting_approval)
      refl refl 3 (approval_in TaskStatus.todo) refl refl (inl refl)

reject_plan_outcome_example :
    let (r, e) = begin (reject_plan 2 "alice" none) waiting_for_approval in
    (is_err r ≡ false)
    × (find 2 e.plans ≡ some (plan_in PlanStatus.rejected))
    × (find 3 e.tasks ≡ some (approval_in TaskStatus.cancelled))
    × (find 1 e.incidents ≡ some (record (incident_in IncidentStatus.diagnosed) { version = 2 }))
unfolding find select related_task has_type
reject_plan_outcome_example =
    reject_plan_outcome 2 "alice" none waiting_for_approval (plan_in PlanStatus.awaiting_approval)
      refl refl 3 (approval_in TaskStatus.todo) (incident_in IncidentStatus.awaiting_approval) refl
      refl refl refl (ground arith, ground arith)

review_needs_waiting_example :
    ((begin (approve_plan 2 "alice" none) drafted).1 ≡ drafted)
    × ((begin (reject_plan 2 "alice" none) drafted).1 ≡ drafted)
    × (is_err (begin (approve_plan 2 "alice" none) drafted).0 ≡ true)
    × (is_err (begin (reject_plan 2 "alice" none) drafted).0 ≡ true)
unfolding find
review_needs_waiting_example =
    review_needs_waiting 2 "alice" none drafted (plan_in PlanStatus.draft) refl (ground arith)
