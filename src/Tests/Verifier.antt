-- ===== src/Tests/Verifier.antt =====
-- The verifier at a healthy Pod with its metrics.
use mathlib.Core.List.{Memᴰ}
use k8s_ops_agent.Base.{◌≡◌, refl, ◌⊎◌, true, false, some, List, [], ◌∷◌, ◌is◌}
use k8s_ops_agent.Domain.{IncidentStatus}
use k8s_ops_agent.Json.{str}
use k8s_ops_agent.Models.{PodReport, Inspection}
use k8s_ops_agent.Adapters.{Call, returned}
use k8s_ops_agent.Verifier.{Query, Readings, check_pod, check_metrics, verify_by_adapters}
use k8s_ops_agent.Verifier.Soundness.{Up, SeenHealthy, verify_healthy}
use k8s_ops_agent.Tests.Data.{incident_in, crashing}

abbrev readings : Readings
readings = record { lower = λ s. "pod"; at_least_one = λ v. some true }

abbrev ready_pod : PodReport
ready_pod = record crashing { ready = true; is_abnormal = false; reason = some "Running" }

abbrev pod_ready : Query
pod_ready = record { name = "pod_ready"; samples = (str "1700000000" ∷ str "1" ∷ []) ∷ [] }

verify_healthy_example :
    (((check_pod readings
          (incident_in IncidentStatus.verifying)
          (some (returned (Inspection.present ready_pod)))).0
        ≡ some true)
      ⊎ ((check_metrics readings (some (returned (pod_ready ∷ [])))).0 ≡ some true))
    × ((call : Call Inspection)
        → some (returned (Inspection.present ready_pod)) ≡ some call
        → ("pod" is "pod") ≡ true
        → SeenHealthy readings call)
    × ((call : Call (List Query))
        → some (returned (pod_ready ∷ [])) ≡ some call
        → (queries : List Query) × (call ≡ returned queries)
          × ((q : Query) → Memᴰ q queries → Up readings q))
unfolding verify_by_adapters
verify_healthy_example =
    verify_healthy readings (incident_in IncidentStatus.verifying)
      (some (returned (Inspection.present ready_pod))) (some (returned (pod_ready ∷ []))) refl
