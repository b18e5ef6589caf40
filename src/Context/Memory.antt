-- ===== src/Context/Memory.antt =====
-- `working_memory` of app/ops_agent/context_memory.py.
use k8s_ops_agent.Base.{
  ℕ, zero, suc, ◌-◌, String, Bool, true, false, not, ◌&&◌, ◌||◌, Option, none, some, List, [], ◌∷◌,
  ◌is◌, ◌==◌, is_empty, length, if◌then◌else◌,
}
use k8s_ops_agent.Json.{Fields, field, end, get}

-- What `evidence_item` returns, where this file looks at it.
pub record EvidenceItem : Type 0 where
  pub id : ℕ
  pub type : String
  pub source : String
  pub collected_at : Option ℕ
  pub resource_uid : Option String
  pub uid_status : String
  pub freshness : String
  pub truncated : Bool
  pub content : Fields

-- A step of the run, where this file looks at it: a tool's name, and its error code.
pub record PastStep : Type 0 where
  pub decision_summary : Option String
  pub evidence_ids : List ℕ
  pub tool_invocation : Option (String × Option String)

pub record Confirmed : Type 0 where
  pub observation : Fields
  pub evidence_id : ℕ

pub record Hypothesis : Type 0 where
  pub claim : String
  pub supports : List ℕ

pub record WorkingMemory : Type 0 where
  pub confirmed : List Confirmed
  pub hypotheses : List Hypothesis
  pub failed_attempts : List (String × String)
  pub missing : List String

unfoldable pub observed_keys : List String
observed_keys =
    "phase" ∷ "exists" ∷ "ready" ∷ "containers" ∷ "desired_replicas" ∷ "ready_replicas" ∷ []

-- `{key: content[key] for key in … if key in content}`
unfoldable pub pick : List String → Fields → Fields
unfolding get
pick [] content = end
pick (k ∷ ks) content = elim (get k content) [
  | none ↦ pick ks content
  | some v ↦ field k v (pick ks content)
]

abbrev with_observation : Fields → ℕ → List Confirmed → List Confirmed
with_observation end id rest = rest
with_observation (field k v fs) id rest =
    record { observation = field k v fs; evidence_id = id } ∷ rest

abbrev pub is_historical : EvidenceItem → Bool
is_historical i = not (i.freshness is "fresh") || i.uid_status is "mismatch"

unfoldable pub confirm : List EvidenceItem → List Confirmed
unfolding pick observed_keys
confirm [] = []
confirm (i ∷ more) =
    let rest = confirm more in
    if is_historical i then rest else with_observation (pick observed_keys i.content) i.id rest

abbrev pub has_id : ℕ → List EvidenceItem → Bool
has_id k [] = false
has_id k (i ∷ more) = k == i.id || has_id k more

abbrev pub all_visible : List EvidenceItem → List ℕ → Bool
all_visible items [] = true
all_visible items (k ∷ ks) = has_id k items && all_visible items ks

abbrev pub skip {ℓ} : {A : Type ℓ} → ℕ → List A → List A
skip zero xs = xs
skip (suc n) [] = []
skip (suc n) (x ∷ xs) = skip n xs

-- `xs[-3:]`
abbrev pub last_three {ℓ} : {A : Type ℓ} → List A → List A
last_three xs = skip (length xs - 3) xs

abbrev hypothesis_of :
    List EvidenceItem → Option String → List ℕ → List Hypothesis → List Hypothesis
hypothesis_of items none ids rest = rest
hypothesis_of items (some summary) ids rest =
    if not (is_empty summary) && all_visible items ids
    then record { claim = summary; supports = ids } ∷ rest
    else rest

unfoldable pub hypotheses_of : List EvidenceItem → List PastStep → List Hypothesis
hypotheses_of items [] = []
hypotheses_of items (s ∷ ss) =
    hypothesis_of items s.decision_summary s.evidence_ids (hypotheses_of items ss)

abbrev failure_of :
    Option (String × Option String) → List (String × String) → List (String × String)
failure_of (some (tool, some code)) rest = if is_empty code then rest else (tool, code) ∷ rest
failure_of (some (tool, none)) rest = rest
failure_of none rest = rest

unfoldable pub failures_of : List PastStep → List (String × String)
failures_of [] = []
failures_of (s ∷ ss) = failure_of s.tool_invocation (failures_of ss)

abbrev missing_of : List Confirmed → List String
missing_of [] = "fresh structured observations" ∷ []
missing_of (c ∷ cs) = []

unfoldable pub working_memory : List EvidenceItem → List PastStep → WorkingMemory
unfolding confirm hypotheses_of failures_of
working_memory items steps = record {
  confirmed = confirm items;
  hypotheses = hypotheses_of items (last_three steps);
  failed_attempts = last_three (failures_of steps);
  missing = missing_of (confirm items);
}
