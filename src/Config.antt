-- ===== src/Config.antt =====
-- cmd/server/config.go: the server's configuration, out of flags, environment, a YAML file and
-- defaults. A text is its bytes; time.ParseDuration is a parameter, and so is what the file holds.
pub mod Flags
pub mod Precedence
pub mod Tests
use novagate.Base.{
  ℕ, ◌*◌, Bool, true, false, not, ◌||◌, Option, none, some, List, [], ◌∷◌, Result, ok, err, ◌>>=◌,
  ◌==◌, ◌++◌, if◌then◌else◌,
}
use novagate.Base.Int.{ℤ, pos}
use novagate.Base.Key.{GoMap, is_there, get, bytes_beq, bytes_key}
use novagate.Protocol.Bytes.{Bytes}
use novagate.Server.Context.{second}
use novagate.Server.Registry.{ascii}
use novagate.Config.Flags.{Parsed, flag_parse, value_or}

pub data ConfigSource : Type 0 where
  source_default source_file source_env source_flag : ConfigSource

-- A YAML value: a text, another scalar or a list, or a map. Only a key that is a text can be asked for.
mutual
  pub data Yaml : Type 0 where
    yaml_text : Bytes → Yaml
    yaml_other : Yaml
    yaml_map : YamlMap → Yaml

  pub data YamlMap : Type 0 where
    no_entries : YamlMap
    entry : Bytes → Yaml → YamlMap → YamlMap

pub data ConfigError : Type 0 where
  must_be_string is_empty invalid_duration : Bytes → ConfigError
  no_config_file unreadable_config exited : ConfigError

abbrev pub lookup : YamlMap → Bytes → Option Yaml
lookup no_entries p = none
lookup (entry k v m) p = if bytes_beq k p then some v else lookup m p

-- strings.Split(path, "."), behind the bytes of the first part.
unfoldable pub split_path : Bytes → Bytes → List Bytes
split_path part [] = part ∷ []
split_path part (c ∷ path) =
    let next = split_path [] path in
    let longer = split_path (part ++ (c ∷ [])) path in if c == b'.' then part ∷ next else longer

unfoldable pub walk : Yaml → List Bytes → Option Yaml
walk cur [] = some cur
walk (yaml_map m) (p ∷ parts) = elim (lookup m p) [ none ↦ none | some v ↦ walk v parts ]
walk (yaml_text s) (p ∷ parts) = none
walk yaml_other (p ∷ parts) = none

-- `none` is a nil configuration.
unfoldable pub get_yaml : Option YamlMap → Bytes → Option Yaml
unfolding walk split_path
get_yaml none path = none
get_yaml (some m) path = if bytes_beq path [] then none else walk (yaml_map m) (split_path [] path)

-- The value of a key, `none` if it is missing.
unfoldable pub get_string : Option YamlMap → Bytes → Result ConfigError (Option Bytes)
unfolding get_yaml
get_string yc path = elim (get_yaml yc path) [
  | none ↦ ok none
  | some (yaml_text s) ↦ if bytes_beq s [] then err (is_empty path) else ok (some s)
  | some yaml_other ↦ err (must_be_string path)
  | some (yaml_map m) ↦ err (must_be_string path)
]

unfoldable pub string_compat : Option YamlMap → Bytes → Bytes → Result ConfigError (Option Bytes)
string_compat none primary legacy = ok none
string_compat (some m) primary legacy = do
  v ← get_string (some m) primary
  elim v [
    | some x ↦ ok (some x)
    | none ↦ if bytes_beq legacy [] then ok none else get_string (some m) legacy
  ]

-- The variable of the environment, which must not be empty.
unfoldable pub getenv_string : (Bytes → Option Bytes) → Bytes → Result ConfigError (Option Bytes)
getenv_string env key = elim (env key) [
  | none ↦ ok none
  | some v ↦ if bytes_beq v [] then err (is_empty key) else ok (some v)
]

-- fileValues and envValues: a value, or `none` where its OK is false.
pub record Values : Type 0 where
  pub addr : Option Bytes
  pub idle_timeout : Option ℤ
  pub write_timeout : Option ℤ

abbrev pub default_addr : Bytes
default_addr = b':' ∷ b'9' ∷ b'0' ∷ b'0' ∷ b'0' ∷ []

-- The environment's value, else the file's, else the default.
abbrev pub first_of {ℓ} : {A : Type ℓ} → Option A → Option A → A → A
first_of (some v) file default_value = v
first_of none (some v) default_value = v
first_of none none default_value = default_value

unfoldable pub compute_defaults : Values → Values → Bytes × ℤ × ℤ
compute_defaults file env = (
  first_of env.addr file.addr default_addr,
  first_of env.idle_timeout file.idle_timeout (pos (5 * 60 * second)),
  first_of env.write_timeout file.write_timeout (pos (10 * second)),
)

unfoldable pub pick_source : Bool → Bool → Bool → ConfigSource
pick_source flag_set env_ok file_ok =
    if flag_set
    then source_flag
    else if env_ok
    then source_env
    else if file_ok
    then source_file
    else source_default

-- `-config` alone is known here, so any other flag before it ends the parsing.
unfoldable pub parse_config_path : List Bytes → Bytes → Bytes × Bool
parse_config_path args default_value =
    let path =
      get (flag_parse (λ name value. bytes_beq name (ascii "config")) args).0 (ascii "config") in
    (value_or path default_value, is_there path)

-- What reading a file gives: its map, no file, or another error.
pub data ReadYaml : Type 0 where
  read_map : YamlMap → ReadYaml
  not_exist unreadable : ReadYaml

unfoldable pub resolve_yaml :
    (Bytes → ReadYaml) → List Bytes → Result ConfigError (Option YamlMap × Bytes)
resolve_yaml files args =
    let default_path = ascii "novagate.yaml" in
    let (given, explicit) = parse_config_path args default_path in
    let path = if bytes_beq given [] then default_path else given in
    elim (files path) [
      | read_map m ↦ ok (some m, path)
      | not_exist ↦ if explicit then err no_config_file else ok (none, path)
      | unreadable ↦ err unreadable_config
    ]

pub record ServerConfig : Type 0 where
  pub addr : Bytes
  pub idle_timeout : ℤ
  pub write_timeout : ℤ
  pub addr_source : ConfigSource
  pub idle_timeout_source : ConfigSource
  pub write_timeout_source : ConfigSource
  pub config_path : Bytes
  pub config_loaded : Bool

module _ (parse_duration : Bytes → Option ℤ) where
  duration_of : Bytes → Option Bytes → Result ConfigError (Option ℤ)
  duration_of key none = ok none
  duration_of key (some s) = elim (parse_duration s) [
    | none ↦ err (invalid_duration key)
    | some d ↦ ok (some d)
  ]

  unfoldable pub get_duration : Option YamlMap → Bytes → Result ConfigError (Option ℤ)
  unfolding duration_of
  get_duration yc path = do s ← get_string yc path; duration_of path s

  unfoldable pub duration_compat : Option YamlMap → Bytes → Bytes → Result ConfigError (Option ℤ)
  duration_compat none primary legacy = ok none
  duration_compat (some m) primary legacy = do
    v ← get_duration (some m) primary
    elim v [
      | some d ↦ ok (some d)
      | none ↦ if bytes_beq legacy [] then ok none else get_duration (some m) legacy
    ]

  unfoldable pub read_file_values : Option YamlMap → Result ConfigError Values
  read_file_values yc = do
    addr ← string_compat yc (ascii "server.addr") (ascii "addr")
    idle ← duration_compat yc (ascii "timeouts.idle") (ascii "idle_timeout")
    write ← duration_compat yc (ascii "timeouts.write") (ascii "write_timeout")
    ok (record { addr = addr; idle_timeout = idle; write_timeout = write })

  unfoldable pub getenv_duration : (Bytes → Option Bytes) → Bytes → Result ConfigError (Option ℤ)
  unfolding duration_of
  getenv_duration env key = do v ← getenv_string env key; duration_of key v

  unfoldable pub read_env_values : (Bytes → Option Bytes) → Result ConfigError Values
  read_env_values env = do
    addr ← getenv_string env (ascii "NOVAGATE_ADDR")
    idle ← getenv_duration env (ascii "NOVAGATE_IDLE_TIMEOUT")
    write ← getenv_duration env (ascii "NOVAGATE_WRITE_TIMEOUT")
    ok (record { addr = addr; idle_timeout = idle; write_timeout = write })

  -- The flags of loadConfig, and the values that they take.
  unfoldable pub takes : Bytes → Bytes → Bool
  takes name value =
      if bytes_beq name (ascii "config") || bytes_beq name (ascii "addr")
      then true
      else if bytes_beq name (ascii "idle-timeout") || bytes_beq name (ascii "write-timeout")
      then is_there (parse_duration value)
      else false

  unfoldable pub duration_or : Option Bytes → ℤ → ℤ
  duration_or none default_value = default_value
  duration_or (some text) default_value = elim (parse_duration text) [
    | none ↦ default_value
    | some d ↦ d
  ]

  -- The values of loadConfig, once file, environment and flags are read.
  unfoldable pub config_of :
      Option YamlMap × Bytes → Values → Values → GoMap Bytes Bytes → ServerConfig
  unfolding duration_or compute_defaults pick_source
  config_of (yc, path) file env set =
      let (addr, idle, write) = compute_defaults file env in
      let addr_flag = get set (ascii "addr") in
      let idle_flag = get set (ascii "idle-timeout") in
      let write_flag = get set (ascii "write-timeout") in
      record {
        addr = value_or addr_flag addr;
        idle_timeout = duration_or idle_flag idle;
        write_timeout = duration_or write_flag write;
        addr_source = pick_source (is_there addr_flag) (is_there env.addr) (is_there file.addr);
        idle_timeout_source =
            pick_source (is_there idle_flag) (is_there env.idle_timeout)
              (is_there file.idle_timeout);
        write_timeout_source =
            pick_source (is_there write_flag) (is_there env.write_timeout)
              (is_there file.write_timeout);
        config_path = value_or (get set (ascii "config")) path;
        config_loaded = is_there yc;
      }

  unfoldable pub exit_or : Parsed → ServerConfig → Result ConfigError ServerConfig
  exit_or (set, failed) c = if failed then err exited else ok c

  -- `env` is the environment behind the .env file. A flag error ends the process.
  unfoldable pub load_config :
      (Bytes → ReadYaml) → (Bytes → Option Bytes) → List Bytes → Result ConfigError ServerConfig
  unfolding exit_or
  load_config files env args = do
    resolved ← resolve_yaml files args
    file_values ← read_file_values resolved.0
    env_values ← read_env_values env
    exit_or (flag_parse takes args)
        (config_of resolved file_values env_values (flag_parse takes args).0)
