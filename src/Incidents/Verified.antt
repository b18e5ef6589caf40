-- ===== src/Incidents/Verified.antt =====
-- When the end of an alert resolves its incident.
use k8s_ops_agent.Base.{
  ℕ, ◌≡◌, refl, String, Bool, true, false, Option, none, some, arith, eq_iff, if◌then◌else◌,
}
use k8s_ops_agent.Domain.{IncidentStatus}
use k8s_ops_agent.Models.{Incident, Verification, Db}
use k8s_ops_agent.Adapters.{Call, returned, raised}
use k8s_ops_agent.Session.{ok, begin, commit, get_incident, advance_incident, add_task, add_audit}
use k8s_ops_agent.Session.Calls.{proceeded, committed}
use k8s_ops_agent.Tasks.{find_task}
use k8s_ops_agent.Incidents.Alerts.{
  Verifier, receive_tx, alert_verdict, recovered_tx, not_recovered_tx, settle_tx, verify_incident,
  resolve_incident_from_alert,
}

-- The verifier was asked about an incident that was found, and found it healthy.
pub record WasHealthy (c : Verifier) (fingerprint : String) (d : Db) : Type 0 where
  pub id : ℕ
  pub incident : Incident
  pub answer : Verification
  pub was_found : (begin (receive_tx fingerprint) d).0 ≡ ok (some (id, incident))
  pub asked : (c.verify id incident (begin (receive_tx fingerprint) d).1).0 ≡ returned answer
  pub healthy : answer.healthy ≡ true

not_recovered_answer :
    (c : Verifier) (k : ℕ) (v : Verification) (d e : Db) (i : Incident) (s : String)
    → not_recovered_tx c k v d ≡ ok ((i, s), e)
    → s ≡ "verification_failed"
unfolding not_recovered_tx get_incident advance_incident find_task add_task add_audit
not_recovered_answer c k v d e i s h = ground (arith, h)

recovered_answer :
    (c : Verifier) (k : ℕ) (v : Verification) (d e : Db) (i : Incident) (s : String)
    → recovered_tx c k v d ≡ ok ((i, s), e)
    → i.status ≡ IncidentStatus.resolved
unfolding recovered_tx get_incident advance_incident find_task add_audit
recovered_answer c k v d e i s h = ground (arith, h)

settle_answer :
    (c : Verifier) (k : ℕ) (v : Verification) (d e : Db) (i : Incident)
    → settle_tx c k v d ≡ ok ((i, "resolved"), e)
    → (v.healthy ≡ true) × (i.status ≡ IncidentStatus.resolved)
unfolding settle_tx
settle_answer c k v d e i h = branch v.healthy refl h
  where
    branch :
        (b : Bool)
        → v.healthy ≡ b
        → (if b then recovered_tx c k v else not_recovered_tx c k v) d ≡ ok ((i, "resolved"), e)
        → (v.healthy ≡ true) × (i.status ≡ IncidentStatus.resolved)
    branch true y h = (y, recovered_answer c k v d e i "resolved" h)
    branch false n h = absurd (
        let wrong = not_recovered_answer c k v d e i "resolved" h in
        ground (arith, wrong, eq_iff "resolved" "verification_failed"))

module _ (c : Verifier) (fingerprint : String) (d : Db) (i : Incident) where
  answered :
      (k : ℕ) (before : Incident) (x : Call Verification) (m : Db)
      → (begin (receive_tx fingerprint) d).0 ≡ ok (some (k, before))
      → (c.verify k before (begin (receive_tx fingerprint) d).1).0 ≡ x
      → (alert_verdict x).healthy ≡ true
      → WasHealthy c fingerprint d
  answered k before (raised kind message) m f e h = absurd (cc h)
  answered k before (returned w) m f e h = record {
    id = k;
    incident = before;
    answer = w;
    was_found = f;
    asked = e;
    healthy = h;
  }

  -- The end of an alert answers "resolved" only if the verifier was asked about the incident and
  -- found it healthy; the incident is then RESOLVED.
  pub resolved-WasHealthy :
      (resolve_incident_from_alert c fingerprint d).0 ≡ ok (some i, "resolved")
      → (i.status ≡ IncidentStatus.resolved) × WasHealthy c fingerprint d
  unfolding resolve_incident_from_alert verify_incident
  resolved-WasHealthy h =
      let first = begin (receive_tx fingerprint) d in
      let (x, found, next) = proceeded first.0 (verify_incident c) first.1 _ h in
      by_row x found next
    where
      by_row :
          (x : Option (ℕ × Incident))
          → (begin (receive_tx fingerprint) d).0 ≡ ok x
          → (verify_incident c x (begin (receive_tx fingerprint) d).1).0 ≡ ok (some i, "resolved")
          → (i.status ≡ IncidentStatus.resolved) × WasHealthy c fingerprint d
      by_row none found next = absurd (ground (arith, next))
      by_row (some (k, before)) found next =
          let m = (begin (receive_tx fingerprint) d).1 in
          let (answer, d') = c.verify k before m in
          let tx = settle_tx c k (alert_verdict answer) d' in
          let (done, made, same) =
            proceeded (commit d' tx).0 (λ done e. (ok (some done.0, done.1), e)) (commit d' tx).1 _
              next in
          let (healthy, status) =
            settle_answer c k (alert_verdict answer) d' (commit d' tx).1 i
              (ground (arith, committed tx d' done made, same)) in
          (status, answered k before answer m found refl healthy)
