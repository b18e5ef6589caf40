-- ===== src/Verifier.antt =====
-- `IncidentVerifier` of app/ops_agent/verification.py: what it takes for an incident to be over. The two
-- adapters are None, or what their call comes to is an argument.
pub mod Soundness
use k8s_ops_agent.Base.{
  ℕ, suc, String, Bool, true, false, not, ◌&&◌, ◌||◌, Option, none, some, List, [], ◌∷◌, ◌++◌, ◌is◌,
  length, if◌then◌else◌,
}
use k8s_ops_agent.Json.{Json}
use k8s_ops_agent.Models.{Incident, PodReport, Inspection, not_inspected, absent, present}
use k8s_ops_agent.Adapters.{Call, returned, raised}

-- A named query with its samples, of each the list under "value".
pub record Query : Type 0 where
  pub name : String
  pub samples : List (List Json)

pub record Check : Type 0 where
  pub source : String
  pub healthy : Bool
  pub phase : Option String
  pub reason : Option String
  pub query_count : Option ℕ
  pub error_type : Option String

pub record VerifierReport : Type 0 where
  pub healthy : Bool
  pub checks : List Check
  pub reason : Option String

-- `str.lower`, and whether `float(value) >= 1`, none where `float` raises TypeError or ValueError.
pub record Readings : Type 0 where
  pub lower : String → String
  pub at_least_one : Json → Option Bool

abbrev pub pod_healthy : Inspection → Bool
pod_healthy (present report) = report.ready && not report.is_abnormal
pod_healthy i = false

abbrev pod_phase : Inspection → Option String
pod_phase (present report) = some report.phase
pod_phase i = none

abbrev pod_reason : Inspection → Option String
pod_reason (present report) = report.reason
pod_reason i = none

abbrev failed_check : String → String → Check
failed_check source type_name = record {
  source = source;
  healthy = false;
  phase = none;
  reason = none;
  query_count = none;
  error_type = some type_name;
}

-- A verdict, none where there is none, and the checks that go with it.
abbrev pub Verdicts : Type 0
Verdicts = Option Bool × List Check

unfoldable pub check_inspection : Call Inspection → Verdicts
check_inspection (returned i) = (
  some (pod_healthy i),
  record {
    source = "kubernetes";
    healthy = pod_healthy i;
    phase = pod_phase i;
    reason = pod_reason i;
    query_count = none;
    error_type = none;
  }
      ∷ [],
)
check_inspection (raised kind message) = (some false, failed_check "kubernetes" kind ∷ [])

abbrev keep_reading : Option Bool → List Bool → List Bool
keep_reading none rest = rest
keep_reading (some b) rest = b ∷ rest

abbrev pub any : List Bool → Bool
any [] = false
any (b ∷ bs) = b || any bs

abbrev pub all : List Bool → Bool
all [] = true
all (b ∷ bs) = b && all bs

abbrev pub is_decisive : Query → Bool
is_decisive q = q.name is "pod_ready" || q.name is "redis_up"

abbrev pub decide_by : Bool → List Bool → List Bool → List Bool
decide_by false values rest = rest
decide_by true [] rest = rest
decide_by true (v ∷ vs) rest = any (v ∷ vs) ∷ rest

abbrev pub metrics_verdict : List Bool → Option Bool
metrics_verdict [] = none
metrics_verdict (b ∷ bs) = some (all (b ∷ bs))

abbrev pub metrics_check : Option Bool → ℕ → Verdicts
metrics_check none count = (none, [])
metrics_check (some b) count = (
  some b,
  record {
    source = "prometheus";
    healthy = b;
    phase = none;
    reason = none;
    query_count = some count;
    error_type = none;
  }
      ∷ [],
)

abbrev pub determinate : Option Bool → Option Bool → List Bool
determinate none none = []
determinate (some a) none = a ∷ []
determinate none (some b) = b ∷ []
determinate (some a) (some b) = a ∷ b ∷ []

abbrev pub non_empty : List Bool → Bool
non_empty [] = false
non_empty (b ∷ bs) = true

module _ (readings : Readings) where
  unfoldable pub check_pod : Incident → Option (Call Inspection) → Verdicts
  unfolding check_inspection
  check_pod incident none = (none, [])
  check_pod incident (some call) =
      if readings.lower incident.resource_kind is "pod" then check_inspection call else (none, [])

  -- The readings of a query: of each sample the second value, where it is a number.
  abbrev reading : List Json → Option Bool
  reading (t ∷ v ∷ vs) = readings.at_least_one v
  reading vs = none

  unfoldable pub values_of : List (List Json) → List Bool
  values_of [] = []
  values_of (s ∷ ss) = keep_reading (reading s) (values_of ss)

  unfoldable pub decisions : List Query → List Bool
  unfolding values_of
  decisions [] = []
  decisions (q ∷ qs) = decide_by (is_decisive q) (values_of q.samples) (decisions qs)

  -- `_evaluate_metrics`
  unfoldable pub evaluate_metrics : List Query → Option Bool
  unfolding decisions
  evaluate_metrics queries = metrics_verdict (decisions queries)

  unfoldable pub check_metrics : Option (Call (List Query)) → Verdicts
  unfolding evaluate_metrics
  check_metrics none = (none, [])
  check_metrics (some (returned queries)) =
      metrics_check (evaluate_metrics queries) (length queries)
  check_metrics (some (raised kind message)) = (some false, failed_check "prometheus" kind ∷ [])

  -- `IncidentVerifier.verify`
  unfoldable pub verify_by_adapters :
      Incident → Option (Call Inspection) → Option (Call (List Query)) → VerifierReport
  unfolding check_pod check_metrics
  verify_by_adapters incident pod metrics =
      let p = check_pod incident pod in
      let m = check_metrics metrics in
      let known = determinate p.0 m.0 in
      record {
        healthy = non_empty known && all known;
        checks = p.1 ++ m.1;
        reason = if non_empty known then none else some "no verification source available";
      }
