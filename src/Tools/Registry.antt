-- ===== src/Tools/Registry.antt =====
-- `ToolDefinition`, `ToolError`, `ToolResult` and `ToolRegistry` of app/ops_agent/tooling.py.
use Prim.Native.String.{◌++◌ as append}
use k8s_ops_agent.Base.{
  ℕ, String, Bool, true, false, not, ◌||◌, Option, none, some, List, [], ◌∷◌, ◌++◌, min, ◌is◌,
  is_in, if◌then◌else◌,
}
use k8s_ops_agent.Domain.{EvidenceType}
use k8s_ops_agent.Json.{Json, Fields, str, arr, obj, get}
use k8s_ops_agent.Evidence.Redaction.{Python, sanitize_content, default_max_evidence_bytes}

pub record ToolError : Type 0 where
  pub code : String
  pub message : String
  pub retryable : Bool

pub record ToolResult : Type 0 where
  pub evidence_type : EvidenceType
  pub source : String
  pub content : Fields
  pub redacted : Bool

-- How a handler ends: it returns, or raises a ToolError, a TimeoutError or a ConnectionError, or any
-- other exception (its type).
pub data HandlerCall : Type 0 where
  returned : ToolResult → HandlerCall
  tool_error : ToolError → HandlerCall
  transient : HandlerCall
  raised : String → HandlerCall

-- The handler is not under the control of the registry: it answers its n-th call as it likes.
abbrev pub Handler : Type 0
Handler = ℕ → Fields → ℕ → HandlerCall

pub record ToolDefinition : Type 0 where
  pub name : String
  pub version : String
  pub input_schema : Fields
  pub output_schema : Fields
  pub read_only : Bool
  pub requires_approval : Bool
  pub timeout_seconds : ℕ
  pub allowed_clusters : List String
  pub allowed_namespaces : List String
  pub handler : Handler

-- What jsonschema finds: the first error of a schema, and that of a value for a schema (its message),
-- in the validator's order and in the order of the paths.
pub record Validator : Type 0 where
  pub check_schema : Fields → Option String
  pub first_error : Fields → Fields → Option String
  pub first_error_by_path : Fields → Fields → Option String

abbrev pub ToolRegistry : Type 0
ToolRegistry = List ToolDefinition

-- How a method of the registry ends: it returns, it raises a ToolError, or it raises another
-- exception (its type and its text).
pub data Tooling (A : Type 0) : Type 0 where
  done : A → Tooling A
  failed : ToolError → Tooling A
  crashed : String → String → Tooling A

unfoldable pub lookup : String → ToolRegistry → Option ToolDefinition
lookup name [] = none
lookup name (t ∷ ts) = let rest = lookup name ts in if t.name is name then some t else rest

abbrev pub tool_failure : String → String → ToolError
tool_failure code message = record { code = code; message = message; retryable = false }

abbrev pub or_unregistered : Option ToolDefinition → Tooling ToolDefinition
or_unregistered none = Tooling.failed (tool_failure "TOOL_NOT_REGISTERED" "tool is not registered")
or_unregistered (some t) = Tooling.done t

-- `ToolRegistry.get`
unfoldable pub get_tool : ToolRegistry → String → Tooling ToolDefinition
unfolding lookup
get_tool registry name = or_unregistered (lookup name registry)

abbrev schema_error : Option String → Tooling ToolRegistry → Tooling ToolRegistry
schema_error none rest = rest
schema_error (some message) rest = Tooling.crashed "SchemaError" message

abbrev duplicate : Option ToolDefinition → String → Tooling ToolRegistry → Tooling ToolRegistry
duplicate none name rest = rest
duplicate (some t) name rest = Tooling.crashed "ValueError" (append "duplicate tool: " name)

-- `ToolRegistry.register`: the registry afterwards, unless it raises.
unfoldable pub register : Validator → ToolDefinition → ToolRegistry → Tooling ToolRegistry
unfolding lookup
register validator definition registry =
    if not definition.read_only
    then Tooling.crashed "ValueError" "v0.3 registry accepts read-only tools only"
    else duplicate (lookup definition.name registry) definition.name (
        schema_error (validator.check_schema definition.input_schema) (
          schema_error (validator.check_schema definition.output_schema)
            (Tooling.done (registry ++ definition ∷ []))))

unfoldable pub registry_system_namespaces : List String
registry_system_namespaces = "kube-system" ∷ "kube-public" ∷ "kube-node-lease" ∷ []

-- Whether the value of a key, None if it is missing, is in a set of texts; a list or a dict cannot be
-- hashed.
abbrev pub in_set : Option Json → List String → Option Bool
in_set none texts = some false
in_set (some (str s)) texts = some (is_in s texts)
in_set (some (arr vs)) texts = none
in_set (some (obj fs)) texts = none
in_set (some v) texts = some false

abbrev scope : Option Bool → {A : Type 0} → Tooling A → Tooling A → Tooling A
scope none inside outside = Tooling.crashed "TypeError" "unhashable type"
scope (some true) inside outside = inside
scope (some false) inside outside = outside

abbrev scope_error : String → String → Tooling ToolResult
scope_error code message = Tooling.failed (tool_failure code message)

abbrev rejected : Option String → String → Tooling ToolResult → Tooling ToolResult
rejected none code rest = rest
rejected (some message) code rest = scope_error code message

abbrev pub with_tool :
    {A : Type 0} → Tooling ToolDefinition → (ToolDefinition → Tooling A) → Tooling A
with_tool (Tooling.done t) f = f t
with_tool (Tooling.failed e) f = Tooling.failed e
with_tool (Tooling.crashed kind message) f = Tooling.crashed kind message

module _ (python : Python) (validator : Validator) where
  -- The result with its content redacted and limited.
  abbrev pub sanitized : ToolResult → ToolResult
  unfolding sanitize_content default_max_evidence_bytes
  sanitized result =
      let clean = sanitize_content python result.content default_max_evidence_bytes in
      record result { content = clean.0; redacted = result.redacted || clean.1 }

  unfoldable pub after_handler : ToolDefinition → HandlerCall → Tooling ToolResult
  unfolding sanitized
  after_handler definition (returned result) =
      rejected (validator.first_error definition.output_schema result.content) "INVALID_TOOL_OUTPUT"
        (Tooling.done (sanitized result))
  after_handler definition (tool_error e) = Tooling.failed e
  after_handler definition transient = Tooling.failed (record {
    code = "TOOL_TRANSIENT_ERROR";
    message = "read-only tool timed out";
    retryable = true;
  })
  after_handler definition (raised type_name) = scope_error "TOOL_EXECUTION_ERROR" type_name

  -- `ToolRegistry.invoke`, once it has the definition.
  unfoldable pub invoke_tool : ToolDefinition → ℕ → Fields → ℕ → Tooling ToolResult
  unfolding after_handler registry_system_namespaces get
  invoke_tool definition call arguments timeout_seconds =
      if not definition.read_only || definition.requires_approval
      then scope_error "WRITE_TOOL_DENIED" "tool is not permitted in Agent Core"
      else rejected (validator.first_error_by_path definition.input_schema arguments)
          "INVALID_TOOL_ARGUMENTS"
          (scope (in_set (get "cluster" arguments) definition.allowed_clusters)
            (scope (in_set (get "namespace" arguments) registry_system_namespaces)
              (scope_error "NAMESPACE_SCOPE_DENIED" "namespace is outside the tool scope")
              (scope (in_set (get "namespace" arguments) definition.allowed_namespaces)
                (after_handler definition (
                  definition.handler call arguments
                    (min timeout_seconds definition.timeout_seconds)))
                (scope_error "NAMESPACE_SCOPE_DENIED" "namespace is outside the tool scope")))
            (scope_error "CLUSTER_SCOPE_DENIED" "cluster is outside the tool scope"))

  -- `ToolRegistry.invoke`
  unfoldable pub invoke : ToolRegistry → String → ℕ → Fields → ℕ → Tooling ToolResult
  unfolding invoke_tool get_tool
  invoke registry name call arguments timeout_seconds =
      with_tool (get_tool registry name)
        (λ definition. invoke_tool definition call arguments timeout_seconds)
