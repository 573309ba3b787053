-- ===== src/Config/Tests.antt =====
-- cmd/server/config.go: small command lines.
use novagate.Base.{false, Option, none, List, [], ◌∷◌, ◌*◌}
use novagate.Base.Int.{ℤ, pos}
use novagate.Base.Key.{bytes_key}
use novagate.Protocol.Bytes.{Bytes}
use novagate.Server.Context.{second}
use novagate.Server.Registry.{ascii}
use novagate.Config.{source_default, source_flag, ServerConfig, ReadYaml, not_exist}

-- No duration, no file, no environment.
abbrev no_duration : Bytes → Option ℤ
no_duration s = none

abbrev no_files : Bytes → ReadYaml
no_files path = not_exist

abbrev no_env : Bytes → Option Bytes
no_env key = none

abbrev addr_args : List Bytes
addr_args = ascii "-addr" ∷ ascii ":80" ∷ []

abbrev addr_config : ServerConfig
addr_config = record {
  addr = ascii ":80";
  idle_timeout = pos (5 * 60 * second);
  write_timeout = pos (10 * second);
  addr_source = source_flag;
  idle_timeout_source = source_default;
  write_timeout_source = source_default;
  config_path = ascii "novagate.yaml";
  config_loaded = false;
}
