-- ===== src/AgentCore/Permission.antt =====
-- A tool call that `AgentPolicy.evaluate` of app/ops_agent/agent_core.py allows.
use mathlib.Core.List.{Memᴰ}
use k8s_ops_agent.Base.{
  ◌<◌, ◌≡◌, refl, ◌⊎◌, inl, inr, arith, String, Bool, true, false, not, ◌&&◌, ◌||◌, Option, none,
  some, List, [], ◌∷◌, leb, ◌is◌, is_in, eq_iff, Bool-cases, Option-cases, is_empty, if◌then◌else◌,
}
use k8s_ops_agent.Domain.{PolicyDecision}
use k8s_ops_agent.Json.{Json, Fields, str, get}
use k8s_ops_agent.Evidence.Redaction.{Python}
use k8s_ops_agent.Models.{Incident, AgentRun}
use k8s_ops_agent.Tools.{
  ToolRegistry, Tooling, ToolDefinition, get_tool, registry_system_namespaces, in_set, with_tool,
}
use k8s_ops_agent.AgentCore.Policy.{
  PolicyResult, is_allow, answer, deny, invocation_fingerprint, given_text, is_given, names_another,
  target_keys, uid_unbound, text_or_empty, judge_target, judge_call, evaluate, member_of,
}

-- The values of a key that the policy lets pass: none that counts, or exactly this text.
abbrev pub OnlyText : Option Json → String → Type 0
OnlyText v s = (is_given v ≡ false) ⊎ (v ≡ some (str s))

given_text-some : (v : Option Json) (s : String) → given_text v s ≡ true → v ≡ some (str s)
given_text-some none s h = absurd (cc h)
given_text-some (some (Json.str t)) s h = ground (arith, h, eq_iff t s)
given_text-some (some Json.null) s h = absurd (cc h)
given_text-some (some (Json.bool b)) s h = absurd (cc h)
given_text-some (some (Json.number n)) s h = absurd (cc h)
given_text-some (some (Json.ident i)) s h = absurd (cc h)
given_text-some (some (Json.arr vs)) s h = absurd (cc h)
given_text-some (some (Json.obj fs)) s h = absurd (cc h)

names_another-OnlyText :
    (keys : List String) (arguments : Fields) (name : String)
    → names_another keys arguments name ≡ false
    → (key : String) → Memᴰ key keys
    → OnlyText (get key arguments) name
unfolding names_another
names_another-OnlyText [] arguments name h key m = elim m [ ]
names_another-OnlyText (k ∷ keys) arguments name h key (Memᴰ.head e) =
    rw e (elim (Bool-cases (is_given (get k arguments))) [
      | inr n ↦ inl n
      | inl y ↦ inr (given_text-some (get k arguments) name (ground (arith, h, y)))
    ])
names_another-OnlyText (k ∷ keys) arguments name h key (Memᴰ.tail m) =
    names_another-OnlyText keys arguments name (ground (arith, h)) key m

-- What an allowed call of a tool is.
pub record Permitted (python : Python) (run : AgentRun) (incident : Incident)
    (registry : ToolRegistry) (tool_name : String) (arguments : Fields)
    (previous_fingerprints : List String) : Type 0 where
  pub tool : ToolDefinition
  pub registered : get_tool registry tool_name ≡ Tooling.done tool
  pub autonomy : run.autonomy_level ≡ "L2"
  pub reads : tool.read_only ≡ true
  pub needs_no_approval : tool.requires_approval ≡ false
  pub cluster_given : get "cluster" arguments ≡ some (str incident.cluster)
  pub cluster_allowed : is_in incident.cluster tool.allowed_clusters ≡ true
  pub namespace_given : get "namespace" arguments ≡ some (str incident.namespace)
  pub namespace_allowed : is_in incident.namespace tool.allowed_namespaces ≡ true
  pub not_of_the_system : is_in incident.namespace registry_system_namespaces ≡ false
  pub targets :
      (key : String) → Memᴰ key target_keys → OnlyText (get key arguments) incident.resource_name
  pub uid :
      (is_given (get "resource_uid" arguments) ≡ false)
      ⊎ ((uid : String) × (run.target_snapshot.resource_uid ≡ some uid)
          × (is_empty uid ≡ false)
          × (get "resource_uid" arguments ≡ some (str uid)))
  pub budget_left : run.tool_calls_used < run.budget.max_tool_calls
  pub not_made_before :
      is_in (invocation_fingerprint python tool_name arguments) previous_fingerprints ≡ false

abbrev allows : Tooling PolicyResult → Bool
allows (Tooling.done r) = is_allow r.decision
allows t = false

-- A call that is allowed has passed the test.
passed :
    (b : Bool) (d : PolicyDecision) (reason_code : String) (t : Tooling PolicyResult)
    → is_allow d ≡ false
    → allows (if b then answer d reason_code else t) ≡ true
    → (b ≡ false) × (allows t ≡ true)
passed true d reason_code t refuses h = absurd (cc (refuses, h))
passed false d reason_code t refuses h = (refl, h)

passed_member :
    (m : Option Bool) (reason_code : String) (t : Tooling PolicyResult)
    → allows (member_of m (deny reason_code) t) ≡ true
    → (m ≡ some false) × (allows t ≡ true)
passed_member none reason_code t h = absurd (cc h)
passed_member (some true) reason_code t h = absurd (cc h)
passed_member (some false) reason_code t h = (refl, h)

module _ (python : Python) (run : AgentRun) (incident : Incident) (tool : ToolDefinition)
    (tool_name : String) (arguments : Fields) (previous_fingerprints : List String) where
  -- What the policy asks of the target, the budget and the history.
  record PermittedTarget : Type 0 where
    pub targets :
        (key : String) → Memᴰ key target_keys → OnlyText (get key arguments) incident.resource_name
    pub uid :
        (is_given (get "resource_uid" arguments) ≡ false)
        ⊎ ((uid : String) × (run.target_snapshot.resource_uid ≡ some uid)
            × (is_empty uid ≡ false)
            × (get "resource_uid" arguments ≡ some (str uid)))
    pub budget_left : run.tool_calls_used < run.budget.max_tool_calls
    pub not_made_before :
        is_in (invocation_fingerprint python tool_name arguments) previous_fingerprints ≡ false

  judged_uid :
      is_given (get "resource_uid" arguments) && uid_unbound run.target_snapshot.resource_uid
        ≡ false
      → is_given (get "resource_uid" arguments)
          && not (
              given_text
                (get "resource_uid" arguments)
                (text_or_empty run.target_snapshot.resource_uid))
        ≡ false
      → (is_given (get "resource_uid" arguments) ≡ false)
        ⊎ ((uid : String) × (run.target_snapshot.resource_uid ≡ some uid)
            × (is_empty uid ≡ false)
            × (get "resource_uid" arguments ≡ some (str uid)))
  judged_uid bound same = elim (Bool-cases (is_given (get "resource_uid" arguments))) [
    | inl y ↦ elim (Option-cases run.target_snapshot.resource_uid) [
      | inl e ↦ absurd (ground (arith, bound, y, e))
      | inr (s, e) ↦ inr (
        s,
        e,
        ground (arith, bound, y, e),
        given_text-some (get "resource_uid" arguments) s (ground (arith, same, y, e)),
      )
    ]
    | inr n ↦ inl n
  ]

  judged_target :
      allows (judge_target python run incident tool tool_name arguments previous_fingerprints)
        ≡ true
      → PermittedTarget
  unfolding judge_target
  judged_target h =
      let uid = get "resource_uid" arguments in
      let expected_uid = run.target_snapshot.resource_uid in
      let (names, h1) =
        passed (names_another target_keys arguments incident.resource_name) PolicyDecision.ask_human
          _ _ refl h in
      let (bound, h2) =
        passed (is_given uid && uid_unbound expected_uid) PolicyDecision.ask_human _ _ refl h1 in
      let (same, h3) =
        passed (is_given uid && not (given_text uid (text_or_empty expected_uid)))
          PolicyDecision.ask_human _ _ refl h2 in
      let (left, h4) =
        passed (leb run.budget.max_tool_calls run.tool_calls_used) PolicyDecision.deny _ _ refl
          h3 in
      let (new, h5) =
        passed (is_in (invocation_fingerprint python tool_name arguments) previous_fingerprints)
          PolicyDecision.deny "DUPLICATE_TOOL_CALL" (answer PolicyDecision.allow "POLICY_ALLOWED")
          refl h4 in
      record {
        targets = names_another-OnlyText target_keys arguments incident.resource_name names;
        uid = judged_uid bound same;
        budget_left = ground (arith, left);
        not_made_before = new;
      }

  -- What the policy asks of the run, the tool and the scope.
  record PermittedCall : Type 0 where
    pub autonomy : run.autonomy_level ≡ "L2"
    pub reads : tool.read_only ≡ true
    pub needs_no_approval : tool.requires_approval ≡ false
    pub cluster_given : get "cluster" arguments ≡ some (str incident.cluster)
    pub cluster_allowed : is_in incident.cluster tool.allowed_clusters ≡ true
    pub namespace_given : get "namespace" arguments ≡ some (str incident.namespace)
    pub namespace_allowed : is_in incident.namespace tool.allowed_namespaces ≡ true
    pub not_of_the_system : is_in incident.namespace registry_system_namespaces ≡ false
    pub target : PermittedTarget

  judged_call :
      allows (judge_call python run incident tool tool_name arguments previous_fingerprints) ≡ true
      → PermittedCall
  unfolding judge_call
  judged_call h =
      let namespace = get "namespace" arguments in
      let (level, h1) = passed (not (run.autonomy_level is "L2")) PolicyDecision.deny _ _ refl h in
      let (writes, h2) =
        passed (not tool.read_only || tool.requires_approval) PolicyDecision.deny _ _ refl h1 in
      let (outside, h3) =
        passed
          (not (given_text (get "cluster" arguments) incident.cluster)
            || not (is_in incident.cluster tool.allowed_clusters))
          PolicyDecision.deny _ _ refl h2 in
      let (system, h4) = passed_member (in_set namespace registry_system_namespaces) _ _ h3 in
      let (elsewhere, h5) =
        passed
          (not (given_text namespace incident.namespace)
            || not (is_in incident.namespace tool.allowed_namespaces))
          PolicyDecision.deny _
          (judge_target python run incident tool tool_name arguments previous_fingerprints) refl
          h4 in
      let namespace_given =
        given_text-some (get "namespace" arguments) incident.namespace
          (ground (arith, elsewhere)) in
      record {
        autonomy = ground (arith, level, eq_iff run.autonomy_level "L2");
        reads = ground (arith, writes);
        needs_no_approval = ground (arith, writes);
        cluster_given =
            given_text-some (get "cluster" arguments) incident.cluster (ground (arith, outside));
        cluster_allowed = ground (arith, outside);
        namespace_given = namespace_given;
        namespace_allowed = ground (arith, elsewhere);
        not_of_the_system = ground (arith, system, namespace_given);
        target = judged_target h5;
      }

-- `AgentPolicy.evaluate` allows a call only of a registered tool that reads and needs no approval, for a
-- run of level L2, in the incident's cluster and namespace, both of which the tool allows, and no
-- namespace of the system; each target that the arguments name is the incident's resource, and the
-- UID, if one is given, is the one that the run is bound to; a tool call is left in the run's budget,
-- and the same call was not made before.
pub allowed-Permitted :
    (python : Python) (run : AgentRun) (incident : Incident) (registry : ToolRegistry)
    (tool_name : String) (arguments : Fields) (previous_fingerprints : List String)
    (result : PolicyResult)
    → evaluate python run incident registry tool_name arguments previous_fingerprints
      ≡ Tooling.done result
    → result.decision ≡ PolicyDecision.allow
    → Permitted python run incident registry tool_name arguments previous_fingerprints
unfolding evaluate
allowed-Permitted python run incident registry tool_name arguments previous_fingerprints result h
      a =
    go (get_tool registry tool_name) refl h
  where
    go :
        (t : Tooling ToolDefinition)
        → get_tool registry tool_name ≡ t
        → with_tool t (λ definition.
          judge_call python run incident definition tool_name arguments previous_fingerprints)
          ≡ Tooling.done result
        → Permitted python run incident registry tool_name arguments previous_fingerprints
    go (Tooling.failed e) found k = absurd (cc k)
    go (Tooling.crashed kind message) found k = absurd (cc k)
    go (Tooling.done tool) found k =
        let p =
          judged_call python run incident tool tool_name arguments previous_fingerprints
            (rw (k, a) refl) in
        record {
          tool = tool;
          registered = found;
          autonomy = p.autonomy;
          reads = p.reads;
          needs_no_approval = p.needs_no_approval;
          cluster_given = p.cluster_given;
          cluster_allowed = p.cluster_allowed;
          namespace_given = p.namespace_given;
          namespace_allowed = p.namespace_allowed;
          not_of_the_system = p.not_of_the_system;
          targets = p.target.targets;
          uid = p.target.uid;
          budget_left = p.target.budget_left;
          not_made_before = p.target.not_made_before;
        }
