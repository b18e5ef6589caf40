-- ===== src/Adapters.antt =====
-- Calls of the adapters of app/ops_agent/kubernetes_adapter.py, which talk to a cluster: how a call
-- ends is an argument of the operation that makes it.
use k8s_ops_agent.Base.{String}
use k8s_ops_agent.Models.{Inspection}
use k8s_ops_agent.Session.{Error, Tx, pure, raise}

-- How a call of an adapter ends: with a value, or with an exception (its type and its text).
pub data Call (A : Type 0) : Type 0 where
  returned : A → Call A
  raised : String → String → Call A

-- An exception of an adapter ends the transaction that made the call.
abbrev pub lift : {A : Type 0} → Call A → Tx A
lift (returned a) = pure a
lift (raised kind message) = raise (Error.external kind message)

-- What `inspect_pod` answers for a namespace and a name.
abbrev pub Inspect : Type 0
Inspect = String → String → Call Inspection
