-- ===== src/Incidents/Recovered.antt =====
-- What the end of an alert may do to an incident.
use k8s_ops_agent.Base.{ℕ, String, Option, none, some}
use k8s_ops_agent.Models.{Incident, Task, Verification, Db}
use k8s_ops_agent.Session.Calls.{Runs, Runs-begin, Runs-then_do}
use k8s_ops_agent.Session.Evolution.{Evolves, Evolves-refl, Evolves-trans}
use k8s_ops_agent.Session.Keeps.{Keeps, keeps_rules}
use k8s_ops_agent.Session.Retention.{Retains}
use k8s_ops_agent.Incidents.Retention.{IsRetainingVerifier, resolve_incident_from_alert-Retains}
use k8s_ops_agent.Tasks.Evolution.{Keeps-find_task, Keeps-finish_task}
use k8s_ops_agent.Incidents.Alerts.{
  Verifier, find_incident, start_verifying, receive_alert, receive_tx, alert_verdict,
  complete_verification, ask_for_verification, recovered_tx, not_recovered_tx, settle_tx,
  verify_incident, resolve_incident_from_alert,
}

Keeps-start_verifying : (k : ℕ) (i : Incident) → Keeps (start_verifying k i)
unfolding start_verifying
Keeps-start_verifying k i = search keeps_rules depth 30

Keeps-receive_alert :
    (fingerprint : String) (x : Option (ℕ × Incident)) → Keeps (receive_alert fingerprint x)
Keeps-receive_alert fingerprint none = search keeps_rules depth 30
Keeps-receive_alert fingerprint (some (k, i)) = search (keeps_rules, Keeps-start_verifying) depth 30

Keeps-find_incident : (fingerprint : String) → Keeps (find_incident fingerprint)
unfolding find_incident
Keeps-find_incident fingerprint = record { at = Evolves-refl }

Keeps-receive_tx : (fingerprint : String) → Keeps (receive_tx fingerprint)
unfolding receive_tx
Keeps-receive_tx fingerprint =
    search (keeps_rules, Keeps-find_incident, Keeps-receive_alert) depth 30

Keeps-complete_verification : (k : ℕ) (x : Option (ℕ × Task)) → Keeps (complete_verification k x)
Keeps-complete_verification k none = search keeps_rules depth 30
Keeps-complete_verification k (some x) = search (keeps_rules, Keeps-finish_task) depth 30

Keeps-ask_for_verification :
    (task_id k : ℕ) (x : Option (ℕ × Task)) → Keeps (ask_for_verification task_id k x)
Keeps-ask_for_verification task_id k none = search keeps_rules depth 30
Keeps-ask_for_verification task_id k (some x) = search keeps_rules depth 30

Keeps-settle_tx : (c : Verifier) (k : ℕ) (v : Verification) → Keeps (settle_tx c k v)
unfolding settle_tx recovered_tx not_recovered_tx
Keeps-settle_tx c k v =
    search (keeps_rules, Keeps-find_task, Keeps-complete_verification, Keeps-ask_for_verification)
      depth 40

-- Other workers that commit during the verification keep to the rules.
pub record IsOrderlyVerifier (c : Verifier) : Type 0 where
  pub while_verifying : (k : ℕ) (i : Incident) (d : Db) → Evolves d (c.verify k i d).1

module _ (c : Verifier) where
  Runs-verify_incident :
      IsOrderlyVerifier c → (x : Option (ℕ × Incident)) → Runs (verify_incident c x)
  unfolding verify_incident
  Runs-verify_incident o none = record { at = Evolves-refl }
  Runs-verify_incident o (some (k, i)) = record {
    at = λ d.
        let (answer, d') = c.verify k i d in
        Evolves-trans (o.while_verifying k i d) (
          (Runs-then_do _ _ (Runs-begin _ (Keeps-settle_tx c k (alert_verdict answer)))
              (λ done. record { at = Evolves-refl })).at
            d');
  }

  -- The end of an alert removes no row of any table, changes no status of an incident, task, plan,
  -- execution or agent run but along TRANSITIONS, and leaves the earlier audit events as they were,
  -- also where it raises, if the workers that commit during the verification keep to the same rules.
  pub resolve_incident_from_alert-Evolves :
      (fingerprint : String) (d : Db)
      → IsOrderlyVerifier c
      → IsRetainingVerifier c
      → Evolves d (resolve_incident_from_alert c fingerprint d).1
        × Retains d (resolve_incident_from_alert c fingerprint d).1
  unfolding resolve_incident_from_alert
  resolve_incident_from_alert-Evolves fingerprint d o retaining = (
    (Runs-then_do _ _ (Runs-begin _ (Keeps-receive_tx fingerprint)) (Runs-verify_incident o)).at d,
    resolve_incident_from_alert-Retains c retaining fingerprint d,
  )
