-- ===== src/Tools/Scope.antt =====
-- A handler runs only within the scope of its tool.
use k8s_ops_agent.Base.{
  ℕ, ◌≡◌, refl, ◌⊎◌, String, true, false, Option, none, some, List, inl, inr, arith, min, is_in,
  Bool-cases, Option-cases,
}
use k8s_ops_agent.Json.{Json, Fields, str, get}
use k8s_ops_agent.Evidence.Redaction.{Python}
use k8s_ops_agent.Tools.Registry.{
  ToolDefinition, Handler, Validator, in_set, registry_system_namespaces, after_handler,
  invoke_tool,
}

in_set_text :
    (v : Option Json) (texts : List String)
    → in_set v texts ≡ some true
    → (s : String) × (v ≡ some (str s)) × (is_in s texts ≡ true)
in_set_text (some (str s)) texts h = (s, refl, ground (arith, h))
in_set_text none texts h = absurd (cc h)
in_set_text (some Json.null) texts h = absurd (cc h)
in_set_text (some (Json.bool b)) texts h = absurd (cc h)
in_set_text (some (Json.number n)) texts h = absurd (cc h)
in_set_text (some (Json.ident i)) texts h = absurd (cc h)
in_set_text (some (Json.arr vs)) texts h = absurd (cc h)
in_set_text (some (Json.obj fs)) texts h = absurd (cc h)

-- The arguments of a call lie within the scope of a tool that only reads and needs no approval.
pub record InScope (validator : Validator) (definition : ToolDefinition) (arguments : Fields)
    : Type 0 where
  pub cluster : String
  pub namespace : String
  pub reads : definition.read_only ≡ true
  pub needs_no_approval : definition.requires_approval ≡ false
  pub fits_schema : validator.first_error_by_path definition.input_schema arguments ≡ none
  pub cluster_given : get "cluster" arguments ≡ some (str cluster)
  pub cluster_allowed : is_in cluster definition.allowed_clusters ≡ true
  pub namespace_given : get "namespace" arguments ≡ some (str namespace)
  pub namespace_allowed : is_in namespace definition.allowed_namespaces ≡ true
  pub not_of_the_system : is_in namespace registry_system_namespaces ≡ false

scope_cases :
    (v : Option Json) (texts : List String)
    → ((s : String) × (v ≡ some (str s)) × (is_in s texts ≡ true))
      ⊎ ((in_set v texts ≡ none) ⊎ (in_set v texts ≡ some false))
scope_cases v texts = elim (Option-cases (in_set v texts)) [
  | inl e ↦ inr (inl e)
  | inr (true, e) ↦ inl (in_set_text v texts e)
  | inr (false, e) ↦ inr (inr e)
]

module _ (python : Python) (validator : Validator) (definition : ToolDefinition) (call : ℕ)
    (arguments : Fields) (timeout_seconds : ℕ) where
  -- The handler was asked once, within its time limit, and its answer decides.
  abbrev pub Answers : Type 0
  Answers =
      invoke_tool python validator definition call arguments timeout_seconds
      ≡ after_handler python validator definition
          (definition.handler call arguments (min timeout_seconds definition.timeout_seconds))

  -- The handler was not asked: with any other one the call ends the same.
  abbrev pub Refuses : Type 0
  Refuses =
      (h : Handler)
      → invoke_tool python validator (record definition { handler = h }) call arguments
          timeout_seconds
        ≡ invoke_tool python validator definition call arguments timeout_seconds

  in_namespace :
      (cluster : String)
      → definition.read_only ≡ true
      → definition.requires_approval ≡ false
      → validator.first_error_by_path definition.input_schema arguments ≡ none
      → get "cluster" arguments ≡ some (str cluster)
      → is_in cluster definition.allowed_clusters ≡ true
      → (InScope validator definition arguments × Answers) ⊎ Refuses
  unfolding invoke_tool
  in_namespace cluster r a v c c' =
      elim (scope_cases (get "namespace" arguments) registry_system_namespaces) [
        | inl (s, e, y) ↦ inr (λ h. rw (r, a, v, c, c', e, y) refl)
        | inr (inl e) ↦ inr (λ h. rw (r, a, v, c, c', e) refl)
        | inr (inr e) ↦
            elim (scope_cases (get "namespace" arguments) definition.allowed_namespaces) [
              | inl (s, given, y) ↦
                  let outside : is_in s registry_system_namespaces ≡ false =
                    ground (arith, e, given) in
                  inl (
                    record {
                      cluster = cluster;
                      namespace = s;
                      reads = r;
                      needs_no_approval = a;
                      fits_schema = v;
                      cluster_given = c;
                      cluster_allowed = c';
                      namespace_given = given;
                      namespace_allowed = y;
                      not_of_the_system = outside;
                    },
                    rw (r, a, v, c, c', given, outside, y) refl,
                  )
              | inr (inl n) ↦ inr (λ h. rw (r, a, v, c, c', e, n) refl)
              | inr (inr n) ↦ inr (λ h. rw (r, a, v, c, c', e, n) refl)
            ]
      ]

  in_cluster :
      definition.read_only ≡ true
      → definition.requires_approval ≡ false
      → validator.first_error_by_path definition.input_schema arguments ≡ none
      → (InScope validator definition arguments × Answers) ⊎ Refuses
  unfolding invoke_tool
  in_cluster r a v = elim (scope_cases (get "cluster" arguments) definition.allowed_clusters) [
    | inl (s, e, y) ↦ in_namespace s r a v e y
    | inr (inl e) ↦ inr (λ h. rw (r, a, v, e) refl)
    | inr (inr e) ↦ inr (λ h. rw (r, a, v, e) refl)
  ]

  -- The registry asks a handler only for a tool that reads and needs no approval, with arguments that
  -- fit the tool's schema, in one of its clusters, and in one of its namespaces that is none of the
  -- system's; the time limit is the smaller of the caller's and the tool's, and the answer decides how
  -- the call ends. Otherwise the call ends as it would with any other handler.
  pub invoke_tool_scoped : (InScope validator definition arguments × Answers) ⊎ Refuses
  unfolding invoke_tool
  invoke_tool_scoped = elim (Bool-cases definition.read_only) [
    | inr r ↦ inr (λ h. rw r refl)
    | inl r ↦ elim (Bool-cases definition.requires_approval) [
      | inl a ↦ inr (λ h. rw (r, a) refl)
      | inr a ↦
          elim (Option-cases (validator.first_error_by_path definition.input_schema arguments)) [
            | inl v ↦ in_cluster r a v
            | inr (message, v) ↦ inr (λ h. rw (r, a, v) refl)
          ]
    ]
  ]
