-- ===== src/Context/Selection.antt =====
-- `select_context` of app/ops_agent/context_memory.py.
use k8s_ops_agent.Base.{
  ℕ, ◌-◌, ◌==◌, String, Bool, true, false, not, ◌&&◌, ◌||◌, Option, none, some, List, [], ◌∷◌, ◌++◌,
  ◌is◌, is_in, length, map, if◌then◌else◌,
}
use k8s_ops_agent.Json.{Json, Fields, field, end, item, nil, null, str, arr, obj, get, truthy}
use k8s_ops_agent.Evidence.Redaction.{Python}
use k8s_ops_agent.Context.Memory.{
  EvidenceItem, PastStep, WorkingMemory, working_memory, is_historical,
}

pub record Selection : Type 0 where
  pub retained : ℕ
  pub omitted : ℕ
  pub incomplete : Bool
  pub reasons : List String
  pub conflicting_observations : Bool

-- The part of the context that this file writes; the rest is inside `fits`.
pub record ModelContext : Type 0 where
  pub evidence : List EvidenceItem
  pub visible_evidence_ids : List ℕ
  pub working_memory : WorkingMemory
  pub selection : Selection

-- `(type, resource_uid, collected_at, field)`, and the text of the value.
pub record Observation : Type 0 where
  pub type : String
  pub resource_uid : Option String
  pub collected_at : Option ℕ
  pub field_name : String
  pub value : String

abbrev same_text : Option String → Option String → Bool
same_text none none = true
same_text (some s) (some t) = s is t
same_text _ _ = false

abbrev same_time : Option ℕ → Option ℕ → Bool
same_time none none = true
same_time (some s) (some t) = s == t
same_time _ _ = false

abbrev same_key : Observation → Observation → Bool
same_key o p =
    o.type is p.type
    && same_text o.resource_uid p.resource_uid
    && same_time o.collected_at p.collected_at
    && o.field_name is p.field_name

-- `key in observations and observations[key] != value`, where the last value that was stored is first.
unfoldable pub contradicts : Observation → List Observation → Bool
contradicts o [] = false
contradicts o (p ∷ ps) =
    let rest = contradicts o ps in if same_key o p then not (o.value is p.value) else rest

abbrev optional : Option String → Json
optional none = null
optional (some s) = str s

-- `fingerprint`
unfoldable pub item_fingerprint : Python → EvidenceItem → String
item_fingerprint python i = python.compact (
    arr (
      item (str i.type) (
        item (optional i.resource_uid)
          (item (str i.source) (item (str i.freshness) (item (obj i.content) nil))))))

unfoldable pub compared_fields : List String
compared_fields = "phase" ∷ "ready" ∷ "exists" ∷ "ready_replicas" ∷ []

-- One turn over the fields of an item: the observations, and whether two of them contradict each other.
unfoldable pub observe_fields :
    Python → EvidenceItem → List String → List Observation × Bool → List Observation × Bool
unfolding get contradicts
observe_fields python i [] found = found
observe_fields python i (k ∷ ks) (seen, conflict) = elim (get k i.content) [
  | none ↦ observe_fields python i ks (seen, conflict)
  | some v ↦
      let o : Observation = record {
        type = i.type;
        resource_uid = i.resource_uid;
        collected_at = i.collected_at;
        field_name = k;
        value = python.compact v;
      } in
      observe_fields python i ks (o ∷ seen, conflict || contradicts o seen)
]

unfoldable pub observe_items :
    Python → List EvidenceItem → List Observation × Bool → List Observation × Bool
unfolding observe_fields compared_fields
observe_items python [] found = found
observe_items python (i ∷ more) found = observe_items python more (
    if i.freshness is "fresh" && i.uid_status is "matched"
    then observe_fields python i compared_fields found
    else found)

abbrev pub any_item : (EvidenceItem → Bool) → List EvidenceItem → Bool
any_item f [] = false
any_item f (i ∷ more) = f i || any_item f more

abbrev pub is_any : List String → Bool
is_any [] = false
is_any (r ∷ rs) = true

abbrev reason_if : Bool → String → List String
reason_if b s = if b then s ∷ [] else []

unfoldable pub reasons_for : Bool → ℕ → List EvidenceItem → List String
reasons_for conflict omitted items =
    reason_if (not (omitted == 0)) "window_limit_duplicate_or_unusable_content"
    ++ reason_if (any_item (λ i. i.truncated) items) "excerpt"
    ++ reason_if (any_item is_historical items) "historical_or_unknown"
    ++ reason_if conflict "conflicting_observations"

-- `_refresh`, where the context has the evidence `items`.
unfoldable pub refresh : List EvidenceItem → List PastStep → Bool → List EvidenceItem → ModelContext
unfolding working_memory reasons_for
refresh candidates steps conflict items =
    let omitted = length candidates - length items in
    let reasons = reasons_for conflict omitted items in
    let memory = working_memory items steps in
    record {
      evidence = items;
      visible_evidence_ids = map (λ i. i.id) items;
      working_memory = record memory {
        missing = memory.missing ++ reason_if (is_any reasons) "complete current evidence";
      };
      selection = record {
        retained = length items;
        omitted = omitted;
        incomplete = is_any reasons;
        reasons = reasons;
        conflicting_observations = conflict;
      };
    }

abbrev some_candidate : List EvidenceItem → Bool
some_candidate [] = false
some_candidate (i ∷ more) = true

-- The context before any evidence is in it.
unfoldable pub empty_context : List EvidenceItem → List PastStep → Bool → ModelContext
unfolding working_memory
empty_context candidates steps conflict = record {
  evidence = [];
  visible_evidence_ids = [];
  working_memory = working_memory [] steps;
  selection = record {
    retained = 0;
    omitted = length candidates;
    incomplete = some_candidate candidates;
    reasons = reason_if (some_candidate candidates) "window_limit";
    conflicting_observations = conflict;
  };
}

abbrev is_marked : Option Json → Bool
is_marked none = false
is_marked (some v) = truthy v

-- `not item["content"] or item["content"].get("truncated")`
unfoldable pub is_unusable : Fields → Bool
unfolding get
is_unusable end = true
is_unusable (field k v fs) = is_marked (get "truncated" (field k v fs))

module _ (python : Python) (fits : ModelContext → Bool) (candidates : List EvidenceItem)
    (steps : List PastStep) (conflict : Bool) where
  -- A turn of the second loop over the candidates, with the fingerprints seen and the context.
  unfoldable pub turn : EvidenceItem → List String × ModelContext → List String × ModelContext
  unfolding refresh is_unusable item_fingerprint
  turn i (seen, c) =
      let longer = refresh candidates steps conflict (c.evidence ++ i ∷ []) in
      if is_unusable i.content || is_in (item_fingerprint python i) seen
      then (seen, c)
      else if fits longer
      then (item_fingerprint python i ∷ seen, longer)
      else (seen, refresh candidates steps conflict c.evidence)

  unfoldable pub pack : List EvidenceItem → List String × ModelContext → List String × ModelContext
  unfolding turn
  pack [] state = state
  pack (i ∷ more) state = pack more (turn i state)

-- `select_context`: whether the empty context fits, and the context.
unfoldable pub select_context :
    Python → (ModelContext → Bool) → List EvidenceItem → List PastStep → Bool × ModelContext
unfolding observe_items empty_context pack
select_context python fits candidates steps =
    let conflict = (observe_items python candidates ([], false)).1 in
    let fixed = empty_context candidates steps conflict in
    if fits fixed
    then (true, (pack python fits candidates steps conflict candidates ([], fixed)).1)
    else (false, fixed)
