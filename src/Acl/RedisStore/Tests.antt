-- ===== src/Acl/RedisStore/Tests.antt =====
-- redis_store.go: the store over a server that never fails, and over one that is down.
use novagate.Base.{
  ◌≡◌, refl, sym, ap, String, false, not, ◌&&◌, none, some, List, [], ◌∷◌, ok, err, true, Bool,
}
use novagate.Base.Key.{◌==◌, string_key}
use novagate.Acl.Model.{missing3, bad_range, or_now}
use novagate.Acl.Docs.{contains}
use novagate.Acl.RedisServer.{some_of, Command, Redis, IsRedis, IsUp, Keyspace, effects}
use novagate.Acl.RedisStore.{
  unix, grant, revoke, check_batch, grant_commands, cleanup_commands, revoke_commands,
  key_visibility, and_clean,
}
use novagate.Acl.RedisStore.Effect.{held, granted, held-grant}
use novagate.Acl.RedisStore.Check.{permits_held, check_batch-IsUp}

abbrev pub empty : Keyspace
empty = record { text = λ k. none; has = λ k u. false; score = λ k u. none }

pub every : List Command → List Bool
every [] = []
every (c ∷ cs) = true ∷ every cs

pub some_of-every : (cs : List Command) → some_of (every cs) cs ≡ cs
unfolding every some_of
some_of-every [] = refl
some_of-every (c ∷ cs) = ap (λ ds. c ∷ ds) (some_of-every cs)

-- A server that is its contents. It does not list its sets.
abbrev pub steady : Redis
steady = record {
  Server = Keyspace;
  read_string = λ s k. ok (s.text k);
  is_member = λ s k u. ok (s.has k u);
  score_of = λ s k u. ok (s.score k u);
  members = λ s k. err "not listed";
  ranked = λ s k. err "not listed";
  ranked_above = λ s k x. err "not listed";
  exec = λ s cs. (effects cs s, none);
}

abbrev pub steady_is_redis : IsRedis steady
steady_is_redis = record {
  holds = λ s. s;
  exec_ok = λ s s' cs e. ap (λ p. p.0) (sym e);
  exec_some = λ s cs. (every cs, ap (λ front. effects front s) (sym (some_of-every cs)));
}

abbrev after_grant : Keyspace
after_grant =
    effects (cleanup_commands "acl:" "t" "d" "u" none)
      (effects (grant_commands "acl:" 5 "t" "d" "u" none) empty)

grant-steady : grant steady "acl:" 5 empty "t" "d" "u" 5 none ≡ (ok tt, after_grant)
unfolding grant and_clean bad_range
grant-steady = refl

held-grant_example :
    (missing3 "t" "d" "u" ≡ false)
    × (bad_range 5 none ≡ false)
    × (held "acl:" (steady_is_redis.holds after_grant) "t" "d" "u" ≡ granted none)
held-grant_example =
    held-grant steady "acl:" steady_is_redis 5 empty after_grant "t" "d" "u" 5 none grant-steady

abbrev after_revoke : Keyspace
after_revoke = effects (revoke_commands "acl:" "t" "d" "u") after_grant

revoke-steady : revoke steady "acl:" after_grant "t" "d" "u" ≡ (ok tt, after_revoke)
unfolding revoke
revoke-steady = refl

pub steady-IsUp : (s : Keyspace) → IsUp steady steady_is_redis s
steady-IsUp s = record { texts = λ k. refl; sets = λ k u. refl; scores = λ k u. refl }

check_batch-IsUp_example :
    (allowed : List String) × (check_batch steady "acl:" 5 empty "t" "u" ("d" ∷ []) 6
      ≡ some allowed)
    × ((d : String)
        → contains allowed d ≡ (
            contains ("d" ∷ []) d
            && (not (d == "")
                && permits_held
                    ((steady_is_redis.holds empty).text (key_visibility "acl:" "t" d))
                    (held "acl:" (steady_is_redis.holds empty) "t" d "u")
                    (unix (or_now 5 6)))))
check_batch-IsUp_example =
    check_batch-IsUp steady "acl:" steady_is_redis 5 empty "t" "u" ("d" ∷ []) 6 (steady-IsUp empty)
      refl

-- A server whose reads fail.
abbrev pub down : Redis
down = record steady {
  Server = Keyspace;
  read_string = λ s k. err "connection refused";
  is_member = λ s k u. err "connection refused";
  score_of = λ s k u. err "connection refused";
  members = λ s k. err "connection refused";
  ranked = λ s k. err "connection refused";
  ranked_above = λ s k x. err "connection refused";
  exec = λ s cs. (s, some "connection refused");
}

-- Ids with colons: two tenants share a key.
key_visibility-colons : key_visibility "acl:" "a:doc:b" "c" ≡ key_visibility "acl:" "a" "b:doc:c"
unfolding key_visibility
key_visibility-colons = refl
