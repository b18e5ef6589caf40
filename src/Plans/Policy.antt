-- ===== src/Plans/Policy.antt =====
-- The policy of `dry_run_plan`: which Pods may be restarted, and what a denial does.
use k8s_ops_agent.Base.{
  ℕ, ◌≡◌, refl, ◌⊎◌, inl, inr, String, true, false, Option, none, some, List, arith, is_in, eq_iff,
  Bool-cases, find,
}
use k8s_ops_agent.Domain.{PlanStatus}
use k8s_ops_agent.Models.{PodReport, Inspection, Target, Plan, Db}
use k8s_ops_agent.Adapters.{Call, returned, raised, Inspect}
use k8s_ops_agent.Session.{
  Result, ok, err, is_err, commit, proceed, get_plan, assign_plan, advance_plan, advance_incident,
  add_audit,
}
use k8s_ops_agent.Plans.DryRun.{
  system_namespaces, namespace_denied, is_controller, denial, judge, deny_plan, raise_denial,
  dry_run_tx, dry_run_plan,
}

-- A Pod that may be restarted: it is in an allowed namespace that is none of the system's, it is
-- still the Pod of the plan, a Deployment or a StatefulSet will recreate it, and it is abnormal.
pub record Permitted (allowed : List String) (inspect : Inspect) (target : Target) : Type 0 where
  pub report : PodReport
  pub seen : inspect target.namespace target.pod_name ≡ returned (Inspection.present report)
  pub namespace_allowed : is_in target.namespace allowed ≡ true
  pub namespace_not_system : is_in target.namespace system_namespaces ≡ false
  pub same_pod : report.uid ≡ target.pod_uid
  pub controlled :
      (report.workload_kind ≡ some "Deployment") ⊎ (report.workload_kind ≡ some "StatefulSet")
  pub abnormal : report.is_abnormal ≡ true

controller_kinds :
    (kind : Option String)
    → is_controller kind ≡ true
    → (kind ≡ some "Deployment") ⊎ (kind ≡ some "StatefulSet")
controller_kinds none h = cc
controller_kinds (some s) h = ground (arith, eq_iff s "Deployment", eq_iff s "StatefulSet")

-- No reason was found against the Pod.
present-Permitted :
    (allowed : List String) (inspect : Inspect) (t : Target) (r : PodReport)
    → inspect t.namespace t.pod_name ≡ returned (Inspection.present r)
    → namespace_denied allowed t.namespace ≡ false
    → denial (Inspection.present r) t ≡ none
    → Permitted allowed inspect t
unfolding denial
present-Permitted allowed inspect t r s n h = record {
  report = r;
  seen = s;
  namespace_allowed = ground arith;
  namespace_not_system = ground arith;
  same_pod = ground (arith, eq_iff r.uid t.pod_uid);
  controlled = controller_kinds r.workload_kind (ground arith);
  abnormal = ground arith;
}

-- The part of the policy that looks at the plan alone: the inspection is the cluster's answer.
pub Permitted-judged :
    (allowed : List String) (inspect : Inspect) (t : Target) (d : Db)
    → (p : Permitted allowed inspect t)
    → judge allowed inspect t d ≡ ok ((none, Inspection.present p.report), d)
unfolding judge denial
Permitted-judged allowed inspect t d p = ground (
  arith,
  p.seen,
  p.namespace_allowed,
  p.namespace_not_system,
  eq_iff p.report.uid t.pod_uid,
  p.same_pod,
  p.controlled,
  p.abnormal,
)

judged-Permitted :
    (allowed : List String) (inspect : Inspect) (t : Target) (d : Db) (i : Inspection) (d' : Db)
    → judge allowed inspect t d ≡ ok ((none, i), d')
    → Permitted allowed inspect t
unfolding judge
judged-Permitted allowed inspect t d i d' h =
    elim (Bool-cases (namespace_denied allowed t.namespace)) [
      | inl y ↦ absurd (let wrong = rw y at h in cc wrong)
      | inr n ↦ answered (inspect t.namespace t.pod_name) refl n
    ]
  where
    looked :
        (x : Inspection)
        → inspect t.namespace t.pod_name ≡ returned x
        → namespace_denied allowed t.namespace ≡ false
        → denial x t ≡ none
        → Permitted allowed inspect t
    looked Inspection.not_inspected s n e = absurd (unfold denial in cc e)
    looked Inspection.absent s n e = absurd (unfold denial in cc e)
    looked (Inspection.present r) s n e = present-Permitted allowed inspect t r s n e

    answered :
        (c : Call Inspection)
        → inspect t.namespace t.pod_name ≡ c
        → namespace_denied allowed t.namespace ≡ false
        → Permitted allowed inspect t
    answered (returned x) s n = looked x s n (ground (arith, h))
    answered (raised kind m) s n = absurd (ground (arith, h))

deny_raises :
    (k i : ℕ) (reason : String) (x : Inspection) (d e : Db)
    → is_err
        (proceed
          (commit e (deny_plan k i reason x d)).0
          raise_denial
          (commit e (deny_plan k i reason x d)).1).0
      ≡ true
unfolding deny_plan assign_plan advance_plan advance_incident get_plan add_audit
deny_raises k i reason x d e = ground arith

-- If `dry_run_plan` of an existing plan does not raise, the plan was DRAFT, and its Pod may be
-- restarted.
pub dry_run_sound :
    (task_id k : ℕ) (inspect : Inspect) (allowed : List String) (d : Db) (p : Plan)
    → find k d.plans ≡ some p
    → is_err (dry_run_plan task_id k inspect allowed d).0 ≡ false
    → (p.status ≡ PlanStatus.draft) × Permitted allowed inspect p.target
unfolding dry_run_plan dry_run_tx get_plan
dry_run_sound task_id k inspect allowed d p hp h =
    (ground arith, go (judge allowed inspect p.target d) refl)
  where
    go :
        (r : Result ((Option String × Inspection) × Db))
        → judge allowed inspect p.target d ≡ r
        → Permitted allowed inspect p.target
    go (ok ((none, i), e)) j = judged-Permitted allowed inspect p.target d i e j
    go (ok ((some reason, i), e)) j =
        absurd (ground (arith, j, deny_raises k p.incident_id reason i e d))
    go (err x) j = absurd (ground (arith, j))
