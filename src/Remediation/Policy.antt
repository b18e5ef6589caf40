-- ===== src/Remediation/Policy.antt =====
-- What an automatic remediation has made sure of when it returns an execution.
use k8s_ops_agent.Base.{
  ℕ, ◌≡◌, refl, false, none, some, [], ◌∷◌, arith, eq_iff, Bool-cases, Option-cases, inl, inr,
  Table, find, insert,
}
use mathlib.Core.Path.{subst}
use k8s_ops_agent.Domain.{IncidentStatus}
use k8s_ops_agent.Models.{Incident, PodReport, Inspection, Target, Plan, Execution, Db}
use k8s_ops_agent.Adapters.{Call, returned, raised}
use k8s_ops_agent.Session.{
  Result, ok, err, is_err, commit, get_incident, advance_incident, add_plan, add_audit,
}
use k8s_ops_agent.Session.Calls.{proceeded, committed}
use k8s_ops_agent.Plans.Requests.{require_target, create_plan}
use k8s_ops_agent.Plans.DryRun.{dry_run_plan}
use k8s_ops_agent.Plans.Policy.{Permitted, dry_run_sound}
use k8s_ops_agent.Remediation.Attempt.{
  Remediation, is_candidate, can_be_restarted, plan_request, remediation_key, try_plan,
  approve_and_execute, remediate, after_sight, consider, attempt_auto_remediation,
}

-- The Pod of an incident, under the UID that was seen.
abbrev pub pod_of : Incident → PodReport → Target
pod_of i report = record {
  namespace = i.namespace;
  pod_name = i.resource_name;
  pod_uid = report.uid;
  workload_kind = none;
  workload_name = none;
}

pub find-insert_new :
    {R : Type 0} (k : ℕ) (row : R) (t : Table R)
    → find k t ≡ none
    → find k (insert k row t) ≡ some row
unfolding find insert
find-insert_new k row [] h = ground arith
find-insert_new k row ((j, r) ∷ t) h = ground (arith, h, find-insert_new k row t)

-- The plan that is created is for the Pod of the incident.
created_for :
    (plan_id k : ℕ) (i : Incident) (report : PodReport) (d e : Db) (p : Plan)
    → find plan_id d.plans ≡ none
    → create_plan plan_id k (plan_request i report) d ≡ ok (p, e)
    → (find plan_id e.plans ≡ some p) × (p.target ≡ pod_of i report)
unfolding create_plan require_target get_incident advance_incident add_plan add_audit
created_for plan_id k i report d e p h q =
    (ground (arith, h, q, find-insert_new plan_id p d.plans h), ground (arith, q))

not_err : {A : Type 0} (r : Result A) (a : A) → r ≡ ok a → is_err r ≡ false
not_err (ok b) a h = refl
not_err (err e) a h = absurd (cc h)

module _ (c : Remediation) (k : ℕ) (i : Incident) (x : ℕ × Execution) where
  -- Everything that was looked at before the plan was approved.
  pub record Justified : Type 0 where
    pub report : PodReport
    pub seen : c.first_sight i.namespace i.resource_name ≡ returned (Inspection.present report)
    pub permitted : Permitted c.allowed_namespaces c.second_sight (pod_of i report)

  remediate-Permitted :
      (report : PodReport) (d : Db)
      → find c.plan_id d.plans ≡ none
      → (remediate c k i report d).0 ≡ ok (some x)
      → Permitted c.allowed_namespaces c.second_sight (pod_of i report)
  unfolding remediate try_plan
  remediate-Permitted report d new h =
      let tx = create_plan c.plan_id k (plan_request i report) d in
      let (p, made, next) =
        proceeded (commit d tx).0 (try_plan c (remediation_key c k report)) (commit d tx).1 _ h in
      let (there, target) =
        created_for c.plan_id k i report d (commit d tx).1 p new (committed tx d p made) in
      let e = (commit d tx).1 in
      let dry = dry_run_plan c.approval_task_id c.plan_id c.second_sight c.allowed_namespaces e in
      let (q, passed, _) =
        proceeded dry.0 (approve_and_execute c (remediation_key c k report)) dry.1 _ next in
      let (_, permitted) =
        dry_run_sound c.approval_task_id c.plan_id c.second_sight c.allowed_namespaces e p there
          (not_err dry.0 q passed) in
      subst (λ t. Permitted c.allowed_namespaces c.second_sight t) target permitted

  sight_justified :
      (s : Call Inspection) (d : Db)
      → c.first_sight i.namespace i.resource_name ≡ s
      → find c.plan_id d.plans ≡ none
      → (after_sight c k i s d).0 ≡ ok (some x)
      → Justified
  unfolding after_sight
  sight_justified (raised kind message) d e new h = absurd (cc h)
  sight_justified (returned Inspection.not_inspected) d e new h = absurd (cc h)
  sight_justified (returned Inspection.absent) d e new h = absurd (cc h)
  sight_justified (returned (Inspection.present report)) d e new h =
      elim (Option-cases (can_be_restarted (Inspection.present report))) [
        | inl n ↦ absurd (ground (arith, h, n))
        | inr (r, y) ↦ record {
          report = report;
          seen = e;
          permitted = remediate-Permitted report d new (ground (arith, h, y));
        }
      ]

-- Where the id of the new plan is not in use, an automatic remediation that returns an execution
-- was for an incident that is DIAGNOSED and about a Pod in an allowed namespace; the Pod that it
-- saw first may be restarted by what was seen when the plan was tried.
pub auto_remediation_sound :
    (c : Remediation) (k : ℕ) (d : Db) (x : ℕ × Execution)
    → find c.plan_id d.plans ≡ none
    → (attempt_auto_remediation c k d).0 ≡ ok (some x)
    → (i : Incident) × (find k d.incidents ≡ some i)
      × (i.status ≡ IncidentStatus.diagnosed)
      × (i.resource_kind ≡ "Pod")
      × Justified c k i x
unfolding attempt_auto_remediation consider is_candidate get_incident
auto_remediation_sound c k d x new h = elim (Option-cases (find k d.incidents)) [
  | inl n ↦ absurd (let wrong = rw n at h in cc wrong)
  | inr (i, e) ↦
      let considered : (consider c k i d).0 ≡ ok (some x) = ground (arith, e, h) in
      elim (Bool-cases (is_candidate c i)) [
        | inl y ↦ (
          i,
          e,
          ground (arith, y),
          ground (arith, y, eq_iff i.resource_kind "Pod"),
          sight_justified c k i x (c.first_sight i.namespace i.resource_name) d refl new
              (rw y at considered),
        )
        | inr n ↦ absurd (let wrong = rw n at considered in cc wrong)
      ]
]
