-- ===== src/Acl/RedisServer.antt =====
-- What redis_store.go uses of go-redis and of a Redis server. Both are parameters: `Redis` is what the
-- client answers, and `IsRedis` what Redis documents of the commands that the store sends.
use novagate.Base.{
  String, Bool, true, false, not, ◌&&◌, ◌||◌, Option, none, some, List, [], ◌∷◌, Result, ok, ◌≡◌,
  if◌then◌else◌,
}
use novagate.Base.Int.{ℤ, leb_ℤ}
use novagate.Base.Key.{◌==◌, string_key}

abbrev pub RedisError : Type 0
RedisError = String

-- A command that a pipeline sends. `zremrangebyscore` removes from "-inf" to the score, and
-- `run_script` is a Lua script with one key and one argument.
pub data Command : Type 0 where
  del : List String → Command
  set sadd srem zrem : String → String → Command
  zadd : String → String → ℤ → Command
  zremrangebyscore : String → ℤ → Command
  run_script : String → String → String → Command

-- Reads answer or fail; redis.Nil is `ok none`. A pipeline of writes leaves a server and an error.
pub record Redis : Type 1 where
  pub Server : Type 0
  pub read_string : Server → String → Result RedisError (Option String)
  pub is_member : Server → String → String → Result RedisError Bool
  pub score_of : Server → String → String → Result RedisError (Option ℤ)
  pub members : Server → String → Result RedisError (List String)
  pub ranked : Server → String → Result RedisError (List String)
  pub ranked_above : Server → String → ℤ → Result RedisError (List String)
  pub exec : Server → List Command → Server × Option RedisError

-- redisScriptSRemDelIfEmpty and redisScriptZRemDelIfEmpty
abbrev pub srem_script : String
srem_script =
    "redis.call('SREM', KEYS[1], ARGV[1]); if redis.call('SCARD', KEYS[1]) == 0 then redis.call('DEL', KEYS[1]); end; return 1"

abbrev pub zrem_script : String
zrem_script =
    "redis.call('ZREM', KEYS[1], ARGV[1]); if redis.call('ZCARD', KEYS[1]) == 0 then redis.call('DEL', KEYS[1]); end; return 1"

-- What a server holds: texts, sets, and sorted sets. An empty set is no key.
pub record Keyspace : Type 0 where
  pub text : String → Option String
  pub has : String → String → Bool
  pub score : String → String → Option ℤ

abbrev pub one_of : List String → String → Bool
one_of [] k = false
one_of (x ∷ xs) k = x == k || one_of xs k

abbrev at_most : ℤ → Option ℤ → Bool
at_most limit none = false
at_most limit (some x) = leb_ℤ x limit

abbrev removed_from_set : String → String → Keyspace → Keyspace
removed_from_set key member h = record h { has = λ k u. not (key == k && member == u) && h.has k u }

abbrev removed_from_ranked : String → String → Keyspace → Keyspace
removed_from_ranked key member h = record h {
  score = λ k u. if key == k && member == u then none else h.score k u;
}

-- The documented effect of a command. DEL of an empty set changes nothing that is held.
unfoldable pub effect : Command → Keyspace → Keyspace
effect (del keys) h = record {
  text = λ k. if one_of keys k then none else h.text k;
  has = λ k u. not (one_of keys k) && h.has k u;
  score = λ k u. if one_of keys k then none else h.score k u;
}
effect (set key v) h = record h { text = λ k. if key == k then some v else h.text k }
effect (sadd key member) h = record h { has = λ k u. (key == k && member == u) || h.has k u }
effect (srem key member) h = removed_from_set key member h
effect (zrem key member) h = removed_from_ranked key member h
effect (zadd key member x) h = record h {
  score = λ k u. if key == k && member == u then some x else h.score k u;
}
effect (zremrangebyscore key limit) h = record h {
  score = λ k u. if key == k && at_most limit (h.score k u) then none else h.score k u;
}
effect (run_script script key arg) h =
    if script == srem_script
    then removed_from_set key arg h
    else if script == zrem_script
    then removed_from_ranked key arg h
    else h

unfoldable pub effects : List Command → Keyspace → Keyspace
unfolding effect
effects [] h = h
effects (c ∷ cs) h = effects cs (effect c h)

-- The commands that a mask of Booleans keeps.
unfoldable pub some_of : List Bool → List Command → List Command
some_of [] cs = []
some_of (b ∷ mask) [] = []
some_of (true ∷ mask) (c ∷ cs) = c ∷ some_of mask cs
some_of (false ∷ mask) (c ∷ cs) = some_of mask cs

-- A pipeline without an error has had the effects of its commands, in order; any pipeline has had
-- those of some of its commands.
pub record IsRedis (r : Redis) : Type 0 where
  pub holds : r.Server → Keyspace
  pub exec_ok :
      (s s' : r.Server) (cs : List Command)
      → r.exec s cs ≡ (s', none)
      → holds s' ≡ effects cs (holds s)
  pub exec_some :
      (s : r.Server) (cs : List Command)
      → (mask : List Bool) × (holds (r.exec s cs).0 ≡ effects (some_of mask cs) (holds s))

-- A server whose reads do not fail: they answer what it holds.
pub record IsUp (r : Redis) (h : IsRedis r) (s : r.Server) : Type 0 where
  pub texts : (k : String) → r.read_string s k ≡ ok ((h.holds s).text k)
  pub sets : (k u : String) → r.is_member s k u ≡ ok ((h.holds s).has k u)
  pub scores : (k u : String) → r.score_of s k u ≡ ok ((h.holds s).score k u)
