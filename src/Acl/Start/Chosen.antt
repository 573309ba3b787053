-- ===== src/Acl/Start/Chosen.antt =====
-- services/acl/main.go: which store the service runs on.
use mathlib.Core.Path.{subst}
use text.Mathlib.Text.{◌==◌ as str_eq}
use text.Mathlib.TextEquality.{eq_iff}
use novagate.Base.{
  String, ◌≡◌, ◌≢◌, refl, ap, ◌∙◌, ◌⊎◌, inl, inr, Bool, true, false, none, some, Result, ok, err,
  ◌>>=◌, map_err, arith, Bool-cases, >>=-eq-ok, ok-injective,
}
use novagate.Acl.Memory.{new_in_memory_store}
use novagate.Acl.RedisStore.{new_redis_store}
use novagate.Base.Int.{ℤ}
use novagate.Protocol.Bytes.{Bytes}
use novagate.Acl.Start.{
  ServiceConfig, ReadError, not_exist, read_failed, RedisOptions, Backend, in_memory, in_redis,
  Started, Outside, or_default, default_config, fill, load_config, redis_timeouts, redis_backend,
  choose_backend, start, started_by, options_of, connect, parse_failed,
}

or_default-ne : (s d : String) → d ≢ "" → or_default s d ≢ ""
or_default-ne s d h = ground (arith, eq_iff s "")

-- What loading leaves: an address to listen at and a prefix for the keys.
pub record IsFilled (cfg : ServiceConfig) : Type 0 where
  pub listens : cfg.server_addr ≢ ""
  pub prefixed : cfg.redis.key_prefix ≢ ""

fill-IsFilled : (cfg : ServiceConfig) → IsFilled (fill cfg)
unfolding fill default_config
fill-IsFilled cfg = record {
  listens = or_default-ne cfg.server_addr ":8888" (λ p. ground (arith, eq_iff ":8888" ""));
  prefixed = or_default-ne cfg.redis.key_prefix "acl:" (λ p. ground (arith, eq_iff "acl:" ""));
}

default-IsFilled : IsFilled default_config
unfolding default_config
default-IsFilled = record {
  listens = λ p. ground (arith, eq_iff ":8888" "");
  prefixed = λ p. ground (arith, eq_iff "acl:" "");
}

module _ (o : Outside) where
  -- What the read of a file makes of the configuration.
  load_read :
      (path : String) (r : Result ReadError Bytes) {cfg : ServiceConfig} {loaded : Bool}
      → str_eq path "" ≡ false
      → o.read_file path ≡ r
      → load_config o path ≡ ok (cfg, loaded)
      → IsFilled cfg
  unfolding load_config
  load_read path (err not_exist) named e h = ground (arith, default-IsFilled, rw (named, e) at h)
  load_read path (err (read_failed m)) named e h = ground (arith, rw (named, e) at h)
  load_read path (ok text) named e h =
      let (c, p, q) =
        >>=-eq-ok (map_err (parse_failed path) (o.unmarshal text default_config))
          (λ c. ok (fill c, true)) (rw (named, e, load_config) at h) in
      ground (arith, fill-IsFilled c, q)

  load_config-IsFilled :
      (path : String) {cfg : ServiceConfig} {loaded : Bool}
      → load_config o path ≡ ok (cfg, loaded)
      → IsFilled cfg
  unfolding load_config
  load_config-IsFilled path e = elim (Bool-cases (str_eq path "")) [
    | inl nameless ↦ ground (arith, default-IsFilled, rw (nameless, load_config) at e)
    | inr named ↦ load_read path (o.read_file path) named refl e
  ]

  connect_lem :
      (cfg : ServiceConfig) (t : ℤ × ℤ × ℤ) {b : Backend}
      → connect o cfg t ≡ ok b
      → (o.ping (options_of o cfg t) ≡ none)
        × (b ≡ in_redis (options_of o cfg t) (new_redis_store cfg.redis.key_prefix))
  unfolding connect
  connect_lem cfg t e = ground arith

  -- What the service runs on, by its configuration.
  abbrev RunsOn : ServiceConfig → Backend → Type 0
  RunsOn cfg b =
      ((cfg.redis.addr ≡ "") × (b ≡ in_memory new_in_memory_store))
      ⊎ ((options : RedisOptions) × (cfg.redis.addr ≢ "")
          × (options.addr ≡ cfg.redis.addr)
          × (o.ping options ≡ none)
          × (b ≡ in_redis options cfg.redis.key_prefix))

  backend_cases :
      (cfg : ServiceConfig) {b : Backend}
      → IsFilled cfg
      → choose_backend o cfg ≡ ok b
      → RunsOn cfg b
  unfolding choose_backend redis_backend new_redis_store
  backend_cases cfg full e = elim (Bool-cases (str_eq cfg.redis.addr "")) [
    | inl nowhere ↦ inl ((eq_iff cfg.redis.addr "").0 nowhere, ground (arith, rw nowhere at e))
    | inr somewhere ↦
        let (t, read, connected) =
          >>=-eq-ok (redis_timeouts o cfg) (connect o cfg) (rw somewhere at e) in
        let (pinged, kept) = connect_lem cfg t connected in
        inr (
          options_of o cfg t,
          ground (arith, eq_iff cfg.redis.addr ""),
          refl,
          pinged,
          kept
              ∙ ap (in_redis (options_of o cfg t))
                  (ground (arith, eq_iff cfg.redis.key_prefix "", full.prefixed)),
        )
  ]

  -- Where the service starts, it listens at the address of its configuration, which is not empty. It runs
  -- on an empty store in memory if the configuration names no Redis server, and else on that server, which
  -- answered a ping, under the configured prefix, and never falls back.
  pub start_backend :
      (path : String) {st : Started}
      → start o path ≡ ok st
      → (cfg : ServiceConfig) × (loaded : Bool) × (load_config o path ≡ ok (cfg, loaded))
        × (st.host_port ≡ some cfg.server_addr)
        × (st.stats_enabled ≡ cfg.enable_stats)
        × (((cfg.redis.addr ≡ "") × (st.backend ≡ in_memory new_in_memory_store))
            ⊎ ((options : RedisOptions) × (cfg.redis.addr ≢ "")
                × (options.addr ≡ cfg.redis.addr)
                × (o.ping options ≡ none)
                × (st.backend ≡ in_redis options cfg.redis.key_prefix)))
  unfolding start
  start_backend path {st} e =
      let ((cfg, loaded), p, q) =
        >>=-eq-ok (load_config o path)
          (λ c. choose_backend o c.0 >>= (λ b. ok (started_by o c.0 b))) e in
      let (b, chosen, done) = >>=-eq-ok (choose_backend o cfg) (λ b. ok (started_by o cfg b)) q in
      let full = load_config-IsFilled path p in
      let same : b ≡ st.backend = ap (λ (x : Started). x.backend) (ok-injective done) in
      (
        cfg,
        loaded,
        p,
        ground (arith, eq_iff cfg.server_addr "", full.listens, done),
        ground (arith, done),
        subst (λ x. RunsOn cfg x) same (backend_cases cfg full chosen),
      )
