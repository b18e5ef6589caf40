-- ===== src/Base/Text.antt =====
-- Python's `str.strip`, and the text fields of a JSON body.
use Prim.Native.Char.{Char, code}
use Prim.Native.String.{String}
use mathlib.Core.Bool.{Bool, true, false, ◌&&◌, ◌||◌}
use k8s_ops_agent.Base.Tests.{leb, ◌==◌, if◌then◌else◌}

-- `str.isspace` of one character.
abbrev pub is_space : Char → Bool
is_space c =
    let n = code c in
    (leb 9 n && leb n 13)
    || (leb 28 n && leb n 32)
    || n == 133
    || n == 160
    || n == 5760
    || (leb 8192 n && leb n 8202)
    || n == 8232
    || n == 8233
    || n == 8239
    || n == 8287
    || n == 12288

abbrev pub is_empty : String → Bool
is_empty String.[] = true
is_empty (String.◌∷◌ c s) = false

pub lstrip : String → String
lstrip String.[] = String.[]
lstrip (String.◌∷◌ c s) = if is_space c then lstrip s else String.◌∷◌ c s

pub rstrip : String → String
rstrip String.[] = String.[]
rstrip (String.◌∷◌ c s) =
    let rest = rstrip s in if is_space c && is_empty rest then String.[] else String.◌∷◌ c rest

unfoldable pub strip : String → String
unfolding lstrip rstrip
strip s = rstrip (lstrip s)

-- A field of a request body whose values are texts: it may be missing, or null.
pub data Field : Type 0 where
  missing : Field
  null : Field
  given : String → Field

-- `str(data.get(field, ""))`: the text of None is "None".
abbrev pub py_str : Field → String
py_str missing = ""
py_str null = "None"
py_str (given s) = s
