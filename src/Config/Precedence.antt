-- ===== src/Config/Precedence.antt =====
-- cmd/server/config.go: where each value of the configuration comes from, and which file is read.
use novagate.Base.{
  ◌≡◌, ◌≢◌, refl, Bool, true, false, Option, none, some, List, [], ◌∷◌, arith, ◌⊎◌, inl, inr,
}
use novagate.Base.Key.{get, bytes_key, bytes_beq, beq_ne}
use novagate.Protocol.Bytes.{Bytes}
use novagate.Server.Registry.{ascii}
use novagate.Config.Flags.{
  Token, no_flag, bad_syntax, bare, with_value, token, flags_loop, flag_parse,
}
use novagate.Config.{
  ConfigSource, source_default, source_file, source_env, source_flag, parse_config_path,
}

-- The value that a source names.
abbrev pub value_from {ℓ} :
    {A : Type ℓ} → ConfigSource → Option A → Option A → Option A → A → Option A
value_from source_default flag env file default_value = some default_value
value_from source_file flag env file default_value = file
value_from source_env flag env file default_value = env
value_from source_flag flag env file default_value = flag

-- An argument that is a flag of the given name.
abbrev pub names : Token → Option Bytes
names (bare name) = some name
names (with_value name v) = some name
names no_flag = none
names bad_syntax = none

names_cases :
    (t : Token) (name : Bytes)
    → names t ≡ some name
    → (t ≡ bare name) ⊎ ((v : Bytes) × (t ≡ with_value name v))
names_cases (bare n) name e = inl (ground arith)
names_cases (with_value n v) name e = inr (v, ground arith)
names_cases no_flag name e = cc
names_cases bad_syntax name e = cc

loop_stops :
    (sets : Bytes → Bytes → Bool) (arg : Bytes) (args : List Bytes) (name : Bytes)
    → names (token arg) ≡ some name
    → ((v : Bytes) → sets name v ≡ false)
    → flags_loop sets (arg ∷ args) [] ≡ ([], true)
unfolding flags_loop
loop_stops sets arg [] name e unknown = elim (names_cases (token arg) name e) [
  | inl alone ↦ rw (alone, flags_loop)
  | inr (v, both) ↦ rw (both, flags_loop, unknown v)
]
loop_stops sets arg (next ∷ args) name e unknown = elim (names_cases (token arg) name e) [
  | inl alone ↦ rw (alone, flags_loop, unknown next)
  | inr (v, both) ↦ rw (both, flags_loop, unknown v)
]

-- Behind any other flag the path of the configuration is not seen: a `-config` that follows, say, an
-- `-addr` is ignored, and the default file is read in its place.
parse_config_path_ignored :
    (arg : Bytes) (args : List Bytes) (name default_value : Bytes)
    → names (token arg) ≡ some name
    → name ≢ ascii "config"
    → parse_config_path (arg ∷ args) default_value ≡ (default_value, false)
unfolding parse_config_path flag_parse
parse_config_path_ignored arg args name default_value e other =
    rw
      (loop_stops (λ n value. bytes_beq n (ascii "config")) arg args name e
        (λ v. beq_ne name (ascii "config") other))
      (unfold get in refl)
