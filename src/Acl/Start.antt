-- ===== src/Acl/Start.antt =====
-- services/acl: config.go, and main.go up to the choice of the store. Reading a file, yaml.Unmarshal,
-- time.ParseDuration and the ping of a Redis server are parameters; the path stands for the -config flag.
pub mod Chosen
use text.Mathlib.Text.{◌==◌ as str_eq}
use text.Mathlib.TextEquality.{eq_iff}
use novagate.Base.{
  ℕ, String, ◌≡◌, ◌≢◌, refl, ◌⊎◌, inl, inr, Bool, true, false, not, Option, none, some, Result, ok,
  err, ◌>>=◌, map_err, if◌then◌else◌, arith, Bool-cases, List, [], ◌∷◌,
}
use novagate.Base.Int.{ℤ, pos}
use novagate.Protocol.Bytes.{Bytes}
use novagate.Acl.Memory.{InMemoryStore, new_in_memory_store}
use novagate.Acl.RedisStore.{new_redis_store}

pub record RedisConfig : Type 0 where
  pub addr : String
  pub password : String
  pub db : ℤ
  pub key_prefix : String
  pub dial_timeout : String
  pub read_timeout : String
  pub write_timeout : String

pub record ServiceConfig : Type 0 where
  pub server_addr : String
  pub enable_stats : Bool
  pub redis : RedisConfig

unfoldable pub default_config : ServiceConfig
default_config = record {
  server_addr = ":8888";
  enable_stats = false;
  redis = record {
    addr = "";
    password = "";
    db = pos 0;
    key_prefix = "acl:";
    dial_timeout = "1s";
    read_timeout = "1s";
    write_timeout = "1s";
  };
}

pub data ReadError : Type 0 where
  not_exist : ReadError
  read_failed : String → ReadError

pub data StartError : Type 0 where
  unreadable : String → StartError
  parse_failed : (path failure : String) → StartError
  bad_timeout : (field failure : String) → StartError
  ping_failed : String → StartError

-- `if s == "" { s = d }`
abbrev pub or_default : String → String → String
or_default s d = if str_eq s "" then d else s

-- The defaults of what the file leaves empty.
unfoldable pub fill : ServiceConfig → ServiceConfig
fill cfg = record cfg {
  server_addr = or_default cfg.server_addr default_config.server_addr;
  redis = record cfg.redis {
    key_prefix = or_default cfg.redis.key_prefix default_config.redis.key_prefix;
    dial_timeout = or_default cfg.redis.dial_timeout default_config.redis.dial_timeout;
    read_timeout = or_default cfg.redis.read_timeout default_config.redis.read_timeout;
    write_timeout = or_default cfg.redis.write_timeout default_config.redis.write_timeout;
  };
}

-- redis.Options
pub record RedisOptions : Type 0 where
  pub addr : String
  pub password : String
  pub db : ℤ
  pub dial : ℤ
  pub read : ℤ
  pub write : ℤ

-- The store that SetStore is given; a store in Redis by its client's options and its prefix.
pub data Backend : Type 0 where
  in_memory : InMemoryStore → Backend
  in_redis : RedisOptions → (prefix : String) → Backend

-- What main sets up before the server runs; no address is hertz's default.
pub record Started : Type 0 where
  pub stats_enabled : Bool
  pub host_port : Option String
  pub backend : Backend

-- What the process finds around it.
pub record Outside : Type 0 where
  pub read_file : String → Result ReadError Bytes
  pub unmarshal : Bytes → ServiceConfig → Result String ServiceConfig
  pub parse_duration : String → Result String ℤ
  pub ping : RedisOptions → Option String

module _ (o : Outside) where
  -- With whether a file was loaded.
  unfoldable pub load_config : String → Result StartError (ServiceConfig × Bool)
  unfolding fill
  load_config path =
      if str_eq path "" then ok (default_config, false) else elim (o.read_file path) [
        | err not_exist ↦ ok (default_config, false)
        | err (read_failed e) ↦ err (unreadable e)
        | ok text ↦ do
          cfg ← map_err (parse_failed path) (o.unmarshal text default_config)
          ok (fill cfg, true)
      ]

  unfoldable pub redis_timeouts : ServiceConfig → Result StartError (ℤ × ℤ × ℤ)
  redis_timeouts cfg = do
    dial ← map_err (bad_timeout "redis.dial_timeout") (o.parse_duration cfg.redis.dial_timeout)
    read ← map_err (bad_timeout "redis.read_timeout") (o.parse_duration cfg.redis.read_timeout)
    write ← map_err (bad_timeout "redis.write_timeout") (o.parse_duration cfg.redis.write_timeout)
    ok (dial, read, write)

  abbrev pub options_of : ServiceConfig → ℤ × ℤ × ℤ → RedisOptions
  options_of cfg (dial, read, write) = record {
    addr = cfg.redis.addr;
    password = cfg.redis.password;
    db = cfg.redis.db;
    dial = dial;
    read = read;
    write = write;
  }

  unfoldable pub connect : ServiceConfig → ℤ × ℤ × ℤ → Result StartError Backend
  connect cfg timeouts = elim (o.ping (options_of cfg timeouts)) [
    | some e ↦ err (ping_failed e)
    | none ↦ ok (in_redis (options_of cfg timeouts) (new_redis_store cfg.redis.key_prefix))
  ]

  unfoldable pub redis_backend : ServiceConfig → Result StartError Backend
  unfolding redis_timeouts connect
  redis_backend cfg = redis_timeouts cfg >>= connect cfg

  unfoldable pub choose_backend : ServiceConfig → Result StartError Backend
  unfolding redis_backend
  choose_backend cfg =
      if str_eq cfg.redis.addr "" then ok (in_memory new_in_memory_store) else redis_backend cfg

  abbrev pub started_by : ServiceConfig → Backend → Started
  started_by cfg backend = record {
    stats_enabled = cfg.enable_stats;
    host_port = if str_eq cfg.server_addr "" then none else some cfg.server_addr;
    backend = backend;
  }

  unfoldable pub start : String → Result StartError Started
  unfolding load_config choose_backend
  start path = do
    (cfg, loaded) ← load_config path
    backend ← choose_backend cfg
    ok (started_by cfg backend)
