-- ===== src/Config/Flags.antt =====
-- The flag package, as far as cmd/server/config.go uses it: string and duration flags, and the flags that
-- were set. Parsing stops at the first argument that is no flag, and fails at a flag it does not know.
use novagate.Base.{
  Bool, true, false, not, ◌||◌, Option, none, some, List, [], ◌∷◌, ◌++◌, ◌==◌, if◌then◌else◌,
}
use novagate.Base.Key.{GoMap, put, bytes_key}
use novagate.Protocol.Bytes.{Bytes}

-- What an argument is: the end of the flags, bad syntax, a flag alone, or a flag with `=` and a value.
pub data Token : Type 0 where
  no_flag bad_syntax : Token
  bare : Bytes → Token
  with_value : Bytes → Bytes → Token

-- The name up to the first `=` behind its first byte.
unfoldable pub split_value : Bytes → Bytes → Token
split_value name [] = bare name
split_value name (c ∷ rest) =
    let longer = split_value (name ++ (c ∷ [])) rest in
    if c == b'=' then with_value name rest else longer

unfoldable pub name_token : Bytes → Token
unfolding split_value
name_token [] = bad_syntax
name_token (c ∷ rest) = if c == b'-' || c == b'=' then bad_syntax else split_value (c ∷ []) rest

-- One or two minus signs begin a flag; two alone end the flags.
unfoldable pub token : Bytes → Token
unfolding name_token
token [] = no_flag
token (a ∷ []) = no_flag
token (a ∷ b ∷ name) =
    if not (a == b'-')
    then no_flag
    else if not (b == b'-')
    then name_token (b ∷ name)
    else elim name [ [] ↦ no_flag | c ∷ rest ↦ name_token (c ∷ rest) ]

-- The flags that were set, and whether parsing failed.
abbrev pub Parsed : Type 0
Parsed = GoMap Bytes Bytes × Bool

-- `sets name value`: is the flag defined, and does it take the value?
unfoldable pub flags_loop : (Bytes → Bytes → Bool) → List Bytes → GoMap Bytes Bytes → Parsed
flags_loop sets [] set = (set, false)
flags_loop sets (arg ∷ []) set = elim (token arg) [
  | no_flag ↦ (set, false)
  | bad_syntax ↦ (set, true)
  | bare name ↦ (set, true)
  | with_value name value ↦ if sets name value then (put set name value, false) else (set, true)
]
flags_loop sets (arg ∷ next ∷ args) set = elim (token arg) [
  | no_flag ↦ (set, false)
  | bad_syntax ↦ (set, true)
  | bare name ↦ if sets name next then flags_loop sets args (put set name next) else (set, true)
  | with_value name value ↦
      if sets name value then flags_loop sets (next ∷ args) (put set name value) else (set, true)
]

unfoldable pub flag_parse : (Bytes → Bytes → Bool) → List Bytes → Parsed
flag_parse sets args = flags_loop sets args []

abbrev pub value_or : Option Bytes → Bytes → Bytes
value_or none default_value = default_value
value_or (some v) default_value = v
