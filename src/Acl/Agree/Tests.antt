-- ===== src/Acl/Agree/Tests.antt =====
-- The two stores of services/acl on one grant.
use novagate.Base.{◌*◌, ◌+◌, ◌≡◌, refl, String, some, List, [], ◌∷◌, ok, arith, not}
use novagate.Base.Key.{get, put, ◌==◌, string_key}
use novagate.Acl.Model.{
  Time, nanos, or_now, bad_range, is_zero, zero_time, visibility_public, validate_grant_args,
}
use novagate.Acl.Nested.{remove_user, add_user, edit_users, users_of}
use novagate.Acl.Docs.{contains}
use novagate.Acl.Memory.{
  InMemoryStore, new_in_memory_store, check_batch, grant, cleanup, visibility_of_locked,
}
use novagate.Acl.RedisServer.{Keyspace, effect, effects}
use novagate.Acl.RedisStore.{
  grant_commands, cleanup_commands, grant as redis_grant, check_batch as redis_check_batch,
  and_clean, key_visibility,
}
use novagate.Acl.RedisStore.Check.{is_restricted}
use novagate.Acl.RedisStore.Tests.{empty, steady, steady_is_redis, steady-IsUp}
use novagate.Acl.Agree.{until_second, in_memory, in_redis, epoch, IsUnix, stores_answer_alike}

abbrev end : Time
end = (epoch + 100) * nanos

abbrev now : Time
now = (epoch + 99) * nanos + 5

-- The document is restricted in both.
abbrev memory : InMemoryStore
memory = record new_in_memory_store { visibility = ("t", ("d", "restricted") ∷ []) ∷ [] }

abbrev keyspace : Keyspace
keyspace = record empty { text = λ k. some "restricted" }

abbrev in_redis_after : Keyspace
in_redis_after =
    effects (cleanup_commands "acl:" "t" "d" "u" (some end))
      (effects (grant_commands "acl:" now "t" "d" "u" (some end)) keyspace)

in_redis_done :
    in_redis steady "acl:" (until_second now (epoch + 100)) now keyspace "t" "d" "u"
    ≡ (ok tt, in_redis_after)
unfolding redis_grant and_clean bad_range is_zero zero_time
in_redis_done = refl

abbrev in_memory_after : InMemoryStore
in_memory_after = record {
  visibility = ("t", ("d", "restricted") ∷ []) ∷ [];
  permanent = [];
  expiring = ("t", ("d", ("u", end) ∷ []) ∷ []) ∷ [];
}

in_memory_done :
    in_memory (until_second now (epoch + 100)) now memory "t" "d" "u" ≡ ok in_memory_after
unfolding grant validate_grant_args bad_range is_zero zero_time cleanup remove_user add_user
    edit_users users_of put get
in_memory_done = refl

public_alike :
    (visibility_of_locked in_memory_after "t" "d" == visibility_public)
    ≡ not (is_restricted (in_redis_after.text (key_visibility "acl:" "t" "d")))
unfolding get visibility_of_locked effects effect grant_commands cleanup_commands key_visibility
public_alike = refl

now-IsUnix : IsUnix (or_now now now)
unfolding or_now is_zero zero_time
now-IsUnix = (omega arith, omega arith)

stores_answer_alike_example :
    (xs : List String) × (ys : List String) × (check_batch now in_memory_after "t" "u"
        ("d" ∷ [])
        now
      ≡ some xs)
    × (redis_check_batch steady "acl:" now in_redis_after "t" "u" ("d" ∷ []) now ≡ some ys)
    × (contains xs "d" ≡ contains ys "d")
stores_answer_alike_example =
    stores_answer_alike steady "acl:" steady_is_redis (until_second now (epoch + 100)) now now now
      memory in_memory_after keyspace in_redis_after "t" "d" "u" ("d" ∷ []) in_memory_done
      in_redis_done (steady-IsUp in_redis_after) (omega arith, omega arith) now-IsUnix refl
      public_alike
