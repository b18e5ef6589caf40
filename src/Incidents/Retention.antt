-- ===== src/Incidents/Retention.antt =====
-- The tables that the end of an alert does not write.
use k8s_ops_agent.Base.{ℕ, refl, String, Option, none, some, List}
use k8s_ops_agent.Domain.{TaskStatus}
use k8s_ops_agent.Models.{Incident, Task, Verification, Db}
use k8s_ops_agent.Session.Leaves.{Leaves, Leaves-pure}
use k8s_ops_agent.Session.Retention.{
  aside, Retains, Retains-refl, Retains-trans, Retaining, Retaining-begin, Retaining-then_do,
}
use k8s_ops_agent.Session.Aside.{aside_rules}
use k8s_ops_agent.Tasks.{finish_task}
use k8s_ops_agent.Incidents.Alerts.{
  Verifier, find_incident, start_verifying, receive_alert, receive_tx, alert_verdict,
  complete_verification, ask_for_verification, recovered_tx, not_recovered_tx, settle_tx,
  verify_incident, resolve_incident_from_alert,
}

Aside-start_verifying : (k : ℕ) (i : Incident) → Leaves aside (start_verifying k i)
unfolding start_verifying
Aside-start_verifying k i = search aside_rules depth 30

Aside-receive_alert :
    (fingerprint : String) (x : Option (ℕ × Incident)) → Leaves aside (receive_alert fingerprint x)
Aside-receive_alert fingerprint none = search aside_rules depth 30
Aside-receive_alert fingerprint (some (k, i)) = search (aside_rules, Aside-start_verifying) depth 30

Aside-find_incident : (fingerprint : String) → Leaves aside (find_incident fingerprint)
unfolding find_incident
Aside-find_incident fingerprint = record { at = λ d. refl }

Aside-receive_tx : (fingerprint : String) → Leaves aside (receive_tx fingerprint)
unfolding receive_tx
Aside-receive_tx fingerprint =
    search (aside_rules, Aside-find_incident, Aside-receive_alert) depth 30

Aside-finish_task :
    (first : List TaskStatus) (t : Option (ℕ × Task)) → Leaves aside (finish_task first t)
unfolding finish_task
Aside-finish_task first none = Leaves-pure aside tt
Aside-finish_task first (some (k, task)) = search aside_rules depth 8

Aside-complete_verification :
    (k : ℕ) (x : Option (ℕ × Task)) → Leaves aside (complete_verification k x)
Aside-complete_verification k none = Leaves-pure aside tt
Aside-complete_verification k (some x) = search (aside_rules, Aside-finish_task) depth 30

Aside-ask_for_verification :
    (task_id k : ℕ) (x : Option (ℕ × Task)) → Leaves aside (ask_for_verification task_id k x)
Aside-ask_for_verification task_id k none = search aside_rules depth 30
Aside-ask_for_verification task_id k (some x) = Leaves-pure aside tt

Aside-settle_tx : (c : Verifier) (k : ℕ) (v : Verification) → Leaves aside (settle_tx c k v)
unfolding settle_tx recovered_tx not_recovered_tx
Aside-settle_tx c k v =
    search (aside_rules, Aside-complete_verification, Aside-ask_for_verification) depth 40

-- Other workers that commit during the verification remove none of these rows either.
pub record IsRetainingVerifier (c : Verifier) : Type 0 where
  pub while_verifying : (k : ℕ) (i : Incident) (d : Db) → Retains d (c.verify k i d).1

module _ (c : Verifier) (o : IsRetainingVerifier c) where
  Retaining-verify_incident : (x : Option (ℕ × Incident)) → Retaining (verify_incident c x)
  unfolding verify_incident
  Retaining-verify_incident none = record { at = Retains-refl }
  Retaining-verify_incident (some (k, i)) = record {
    at = λ d.
        let (answer, d') = c.verify k i d in
        Retains-trans (o.while_verifying k i d) (
          (Retaining-then_do _ _ (Retaining-begin _ (Aside-settle_tx c k (alert_verdict answer)))
              (λ done. record { at = Retains-refl })).at
            d');
  }

  pub resolve_incident_from_alert-Retains :
      (fingerprint : String) (d : Db) → Retains d (resolve_incident_from_alert c fingerprint d).1
  unfolding resolve_incident_from_alert
  resolve_incident_from_alert-Retains fingerprint d =
      (Retaining-then_do _ _ (Retaining-begin _ (Aside-receive_tx fingerprint))
          Retaining-verify_incident).at
        d
