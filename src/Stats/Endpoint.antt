-- ===== src/Stats/Endpoint.antt =====
-- stats.go: ACLStats.
use novagate.Base.{ℕ, Bool, true, false, Option, none, some, [], Result, ok, err}
use novagate.Base.Int.{ℤ}
use novagate.Base.Key.{GoMap, bytes_key}
use novagate.Protocol.Bytes.{Bytes}
use novagate.Server.Registry.{ascii}
use novagate.Acl.Memory.{InMemoryStore, InMemoryStats, stats as memory_stats}
use novagate.Stats.{parse_redis_info, Query}
use novagate.Stats.Keys.{Sampled}
use novagate.Stats.Sample.{Float64, PrefixEstimate, maybe_estimate_prefix_keys}

module _ (f : Float64) where
  -- The store that SetStore was given: in Redis, with a client or without; in memory; or another.
  pub record StatsClient : Type 0 where
    pub prefix : Bytes
    pub db_size : Result Bytes ℤ
    pub info : Bytes → Result Bytes Bytes
    pub sampled : ℤ → ℤ → Sampled
    pub elapsed : ℤ

  pub data StatsStore : Type 0 where
    on_redis : Option StatsClient → StatsStore
    in_memory : InMemoryStore → StatsStore
    other_store : StatsStore

  pub record RedisStats : Type 0 where
    pub prefix : Bytes
    pub dbsize : ℤ
    pub memory : GoMap Bytes Bytes
    pub keyspace : GoMap Bytes Bytes
    pub stats : GoMap Bytes Bytes
    pub estimate : Option (PrefixEstimate f)

  -- 404, 503 with an error, and 200 with the time and what is known of the store.
  pub data StatsReply : Type 0 where
    not_found : StatsReply
    unavailable : Bytes → StatsReply
    redis_body : Bytes → RedisStats → StatsReply
    memory_body : Bytes → InMemoryStats → StatsReply
    unknown_body : Bytes → StatsReply

  abbrev text_or_empty : Result Bytes Bytes → Bytes
  text_or_empty (err e) = []
  text_or_empty (ok t) = t

  -- none is the end of the sampling loop's fuel.
  unfoldable pub redis_reply : ℕ → Bytes → Query → StatsClient → Option StatsReply
  unfolding maybe_estimate_prefix_keys parse_redis_info
  redis_reply fuel now q client = elim client.db_size [
    | err e ↦ some (unavailable e)
    | ok dbsize ↦
        elim (maybe_estimate_prefix_keys f client.sampled client.elapsed fuel client.prefix dbsize
          q) [
            | none ↦ none
            | some estimate ↦ some (
                redis_body now (record {
                  prefix = client.prefix;
                  dbsize = dbsize;
                  memory = parse_redis_info (text_or_empty (client.info (ascii "memory")));
                  keyspace = parse_redis_info (text_or_empty (client.info (ascii "keyspace")));
                  stats = parse_redis_info (text_or_empty (client.info (ascii "stats")));
                  estimate = estimate;
                }))
          ]
  ]

  unfoldable pub acl_stats : ℕ → Bool → Bytes → Query → StatsStore → Option StatsReply
  unfolding redis_reply
  acl_stats fuel false now q store = some not_found
  acl_stats fuel true now q (on_redis none) =
      some (unavailable (ascii "redis client not initialized"))
  acl_stats fuel true now q (on_redis (some client)) = redis_reply fuel now q client
  acl_stats fuel true now q (in_memory s) = some (memory_body now (memory_stats s))
  acl_stats fuel true now q other_store = some (unknown_body now)
