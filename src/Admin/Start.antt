-- ===== src/Admin/Start.antt =====
-- internal/admin: NewService and NewSearchService. What a dial of Milvus and a ping of Redis answer are
-- arguments; a search service that cannot be had is none.
use novagate.Base.{◌≡◌, arith, Option, none, some, [], ◌++◌, Result, ok, err, if◌then◌else◌}
use novagate.Base.Key.{bytes_beq}
use novagate.Protocol.Bytes.{Bytes}
use novagate.Server.Registry.{ascii}
use novagate.Acl.RedisServer.{RedisError}
use novagate.Admin.Search.Embedding.{Floats}
use novagate.Admin.Search.{Milvus, SearchError}
use novagate.Admin.Search.Collections.{init_collections}
use novagate.Admin.Env.{Env, World}

module _ (f : Floats) (m : Milvus f) (dial : Bytes → Result SearchError m.Server) where
  ready : m.Server × Option SearchError → Result SearchError m.Server
  ready (s, some e) = err (ascii "failed to initialize collections: " ++ e)
  ready (s, none) = ok s

  unfoldable pub new_search_service : Bytes → Result SearchError m.Server
  unfolding ready
  new_search_service milvus_addr = elim (dial milvus_addr) [
    | err e ↦ err (ascii "failed to connect to Milvus: " ++ e)
    | ok s ↦ ready (init_collections f m s)
  ]

module _ (env : Env) (dial : Bytes → Result SearchError env.milvus.Server) where
  abbrev or_no_search : Result SearchError env.milvus.Server → Option env.milvus.Server
  or_no_search (err e) = none
  or_no_search (ok s) = some s

  -- The client of Redis with what its ping answers, none where it is fine.
  unfoldable pub new_service :
      env.redis.Server → Option RedisError → Bytes → Result RedisError (World env)
  unfolding new_search_service
  new_service client (some e) milvus_addr = err e
  new_service client none milvus_addr = ok (record {
    redis = client;
    search =
        if bytes_beq milvus_addr []
        then none
        else or_no_search (new_search_service env.floats env.milvus dial milvus_addr);
  })

  -- Where Redis answers its ping, a failure of the search service leaves a service without one.
  new_service_lem :
      (client : env.redis.Server) (milvus_addr : Bytes) (e : SearchError)
      → new_search_service env.floats env.milvus dial milvus_addr ≡ err e
      → new_service client none milvus_addr ≡ ok (record { redis = client; search = none })
  unfolding new_service
  new_service_lem client milvus_addr e failed = ground (arith, failed)
