-- ===== src/Tests/Context.antt =====
-- A selection of one of three items, where the context has room for one.
use k8s_ops_agent.Base.{◌≡◌, String, Bool, ℕ, false, some, none, List, [], ◌∷◌, length, leb}
use k8s_ops_agent.Json.{Json, field, end, str, obj, arr, item}
use k8s_ops_agent.Context.Memory.{EvidenceItem, PastStep}
use k8s_ops_agent.Evidence.Redaction.{Python}
use k8s_ops_agent.Context.Selection.{ModelContext, observe_items, empty_context, select_context}
use k8s_ops_agent.Context.Packing.{Packed, select_context_packs}
use k8s_ops_agent.Tests.AgentData.{python}

abbrev seen_pod : ℕ → String → EvidenceItem
seen_pod id phase = record {
  id = id;
  type = "POD_STATUS";
  source = "kubernetes";
  collected_at = some 200;
  resource_uid = some "uid-1";
  uid_status = "matched";
  freshness = "fresh";
  truncated = false;
  content = field "phase" (str phase) end;
}

abbrev candidates : List EvidenceItem
candidates = seen_pod 31 "Running" ∷ seen_pod 32 "Running" ∷ seen_pod 33 "Failed" ∷ []

abbrev asked : PastStep
asked = record {
  decision_summary = some "the Pod restarts";
  evidence_ids = 31 ∷ [];
  tool_invocation = some ("get_pod", none);
}

abbrev room_for_one : ModelContext → Bool
room_for_one c = leb (length c.evidence) 1

abbrev phase_of : Json → String
phase_of (str s) = s
phase_of (obj (field k (str s) fs)) = s
phase_of (arr (item a (item b (item c (item d (item v vs)))))) = phase_of v
phase_of v = ""

abbrev phases : Python
phases = record python { compact = phase_of }

select_context_packs_example :
    let (chosen, c) = select_context phases room_for_one candidates (asked ∷ []) in
    let fixed =
      empty_context candidates (asked ∷ []) (observe_items phases candidates ([], false)).1 in
    (chosen ≡ room_for_one fixed)
    × Packed phases room_for_one candidates c
    × ((chosen ≡ false) → c.evidence ≡ [])
select_context_packs_example = select_context_packs phases room_for_one candidates (asked ∷ [])
