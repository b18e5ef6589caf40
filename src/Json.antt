-- ===== src/Json.antt =====
-- The JSON values that the tools, the evidence and the audit trail hold (Python's dict, list, str,
-- int, float, bool and None), and what the code asks of them.
use k8s_ops_agent.Base.{
  ℕ, String, Bool, true, false, not, Option, none, some, List, [], ◌∷◌, ◌is◌, is_empty,
  if◌then◌else◌,
}

-- A number is printed, and asked whether it is zero; nothing else is done to it.
pub record Number : Type 0 where
  pub digits : String
  pub is_zero : Bool

-- The text of a UUID, which is a number here, has a constructor of its own.
mutual
  pub data Json : Type 0 where
    null : Json
    bool : Bool → Json
    number : Number → Json
    str : String → Json
    ident : ℕ → Json
    arr : Items → Json
    obj : Fields → Json

  pub data Items : Type 0 where
    nil : Items
    item : Json → Items → Items

  pub data Fields : Type 0 where
    end : Fields
    field : String → Json → Fields → Fields

-- `d.get(key)`
unfoldable pub get : String → Fields → Option Json
get key end = none
get key (field k v fs) = let rest = get key fs in if key is k then some v else rest

-- `d[key] = value`
unfoldable pub set : String → Json → Fields → Fields
set key value end = field key value end
set key value (field k v fs) =
    let rest = set key value fs in if key is k then field k value fs else field k v rest

-- `bool(value)`
abbrev pub truthy : Json → Bool
truthy null = false
truthy (bool b) = b
truthy (number n) = not n.is_zero
truthy (str s) = not (is_empty s)
truthy (ident i) = true
truthy (arr nil) = false
truthy (arr (item v vs)) = true
truthy (obj end) = false
truthy (obj (field k v fs)) = true

-- `value == text`
abbrev pub is_text : String → Json → Bool
is_text t (str s) = s is t
is_text t v = false

-- `key in d`, of the values that can be hashed: a list or a dict raises TypeError.
abbrev pub hashable : Json → Bool
hashable (arr vs) = false
hashable (obj fs) = false
hashable v = true

-- A dict of JSON values, as a list of its items.
abbrev pub entries : Fields → List (String × Json)
entries end = []
entries (field k v fs) = (k, v) ∷ entries fs

-- A dict with these items.
abbrev pub dict : List (String × Json) → Fields
dict [] = end
dict ((k, v) ∷ kvs) = field k v (dict kvs)
