-- ===== src/Evidence/Redaction.antt =====
-- `_redact`, `_truncate_utf8` and `sanitize_content` of app/ops_agent/evidence.py.
use Prim.Native.Char.{Char, code}
use k8s_ops_agent.Base.{
  ℕ, ◌+◌, ◌-◌, String, Bool, true, false, ◌||◌, List, [], ◌∷◌, leb, is_in, if◌then◌else◌,
}
use k8s_ops_agent.Json.{Json, Items, Fields, null, bool, number, str, ident, arr, obj}
use k8s_ops_agent.Json.{nil, item, end, field}

-- What the code asks of Python: `str.lower`, `INLINE_SECRET.subn` (with the new text, whether
-- there was a match), `json.dumps`, the text of an integer, and `sha256(…).hexdigest()`.
pub record Python : Type 0 where
  pub lower : String → String
  pub hide_inline : String → String × Bool
  pub dumps : Json → String  -- with the keys sorted
  pub compact : Json → String  -- with the shortest separators, too
  pub compact_ascii : Json → String  -- and without `ensure_ascii=False`
  pub digits : ℕ → String
  pub sha256 : String → String

unfoldable pub sensitive_keys : List String
sensitive_keys =
    "authorization" ∷ "cookie" ∷ "set-cookie" ∷ "password" ∷ "passwd" ∷ "pwd" ∷ "token"
    ∷ "access_token" ∷ "refresh_token" ∷ "api_key" ∷ "apikey" ∷ "secret" ∷ "client_secret" ∷ []

-- `str(key).lower() in SENSITIVE_KEYS`
unfoldable pub is_sensitive : Python → String → Bool
unfolding sensitive_keys
is_sensitive python key = is_in (python.lower key) sensitive_keys

-- The number of bytes of a character in UTF-8.
abbrev pub char_bytes : Char → ℕ
char_bytes c =
    if leb (code c) 127
    then 1
    else if leb (code c) 2047
    then 2
    else if leb (code c) 65535
    then 3
    else 4

-- `len(s.encode("utf-8"))`
unfoldable pub byte_length : String → ℕ
byte_length String.[] = 0
byte_length (String.◌∷◌ c s) = char_bytes c + byte_length s

-- The characters that lie in the first `room` bytes; one that is cut is dropped.
unfoldable pub fitting : ℕ → String → String
fitting room String.[] = String.[]
fitting room (String.◌∷◌ c s) =
    let rest = fitting (room - char_bytes c) s in
    if leb (char_bytes c) room then String.◌∷◌ c rest else String.[]

unfoldable pub truncate_utf8 : String → ℕ → String
unfolding byte_length fitting
truncate_utf8 value max_bytes =
    if leb (byte_length value) max_bytes then value else fitting max_bytes value

-- One entry of a dict: the value of a sensitive key is hidden whole.
abbrev pub redacted_field : Bool → String → Json × Bool → Fields × Bool → Fields × Bool
redacted_field true k v fs = (field k (str "[REDACTED]") fs.0, true)
redacted_field false k v fs = (field k v.0 fs.0, v.1 || fs.1)

module _ (python : Python) where
  unfoldable mutual
    pub redact : Json → Json × Bool
    redact null = (null, false)
    redact (bool b) = (bool b, false)
    redact (number n) = (number n, false)
    redact (ident i) = (ident i, false)
    redact (str s) = (str (python.hide_inline s).0, (python.hide_inline s).1)
    redact (arr vs) = (arr (redact_items vs).0, (redact_items vs).1)
    redact (obj fs) = (obj (redact_fields fs).0, (redact_fields fs).1)

    pub redact_items : Items → Items × Bool
    redact_items nil = (nil, false)
    redact_items (item v vs) =
        (item (redact v).0 (redact_items vs).0, (redact v).1 || (redact_items vs).1)

    pub redact_fields : Fields → Fields × Bool
    redact_fields end = (end, false)
    redact_fields (field k v fs) =
        redacted_field (is_sensitive python k) k (redact v) (redact_fields fs)

  -- The dict that stands for content that is too long.
  abbrev pub envelope : String → ℕ → Fields
  envelope content original_bytes = field "data" (str content) (
      field "truncated" (bool true) (
        field "original_bytes"
          (number
            (record { digits = python.digits original_bytes; is_zero = leb original_bytes 0 }))
          end))

  unfoldable pub limited : ℕ → Fields → Fields
  unfolding byte_length truncate_utf8
  limited max_bytes clean =
      let rendered = python.dumps (obj clean) in
      let original_bytes = byte_length rendered in
      if leb original_bytes max_bytes
      then clean
      else envelope (truncate_utf8 rendered (max_bytes - 128)) original_bytes

  unfoldable pub sanitize_content : Fields → ℕ → Fields × Bool
  unfolding redact limited
  sanitize_content content max_bytes =
      (limited max_bytes (redact_fields content).0, (redact_fields content).1)

unfoldable pub default_max_evidence_bytes : ℕ
default_max_evidence_bytes = 131072
