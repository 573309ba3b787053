-- ===== src/Acl/RedisStore.antt =====
-- services/acl/internal/acl/redis_store.go: the store in Redis. A call takes the server as it finds it
-- and leaves one; the reads of a call see one server. Unix seconds are compared as int64; a score is a
-- float64, which holds them exactly below 2^53.
pub mod Effect
pub mod Check
pub mod Tests
use text.Mathlib.Text.{◌==◌ as str_eq}
use Prim.Native.String.{◌++◌}
use novagate.Base.{
  ℕ, ◌+◌, ◌*◌, ◌/◌, ◌^◌, String, Bool, true, false, not, Option, none, some, List, [], ◌∷◌, Result,
  ok, err, if◌then◌else◌,
}
use novagate.Base.Int.{ℤ, pos, ◌-ℤ◌, wrap64, ltb_ℤ}
use novagate.Base.Key.{GoMap, put, string_key}
use novagate.Acl.Model.{
  Time, nanos, Visibility, visibility_public, visibility_restricted, AclError, invalid_visibility,
  id_required, invalid_range, missing2, missing3, is_visibility, bad_range, or_now,
}
use novagate.Acl.Docs.{keep_if, keys}
use novagate.Acl.RedisServer.{
  RedisError, Command, del, set, sadd, srem, zrem, zadd, zremrangebyscore, run_script, Redis,
  srem_script, zrem_script,
}

pub data StoreError : Type 0 where
  refused : AclError → StoreError
  redis_failed : RedisError → StoreError

-- The prefix that NewRedisStore keeps.
unfoldable pub new_redis_store : String → String
new_redis_store key_prefix = if str_eq key_prefix "" then "acl:" else key_prefix

-- time.Time's Unix: 1970 is 62135596800 seconds after the zero Time.
unfoldable pub unix : Time → ℤ
unix t = wrap64 (pos (t / nanos) -ℤ pos (2 ^ 63 + 62135596800))

module _ (prefix : String) where
  unfoldable pub key_visibility : String → String → String
  key_visibility tenant doc = prefix ++ "t:" ++ tenant ++ ":doc:" ++ doc ++ ":vis"

  unfoldable pub key_permanent : String → String → String
  key_permanent tenant doc = prefix ++ "t:" ++ tenant ++ ":doc:" ++ doc ++ ":perm"

  unfoldable pub key_expiring : String → String → String
  key_expiring tenant doc = prefix ++ "t:" ++ tenant ++ ":doc:" ++ doc ++ ":exp"

  unfoldable pub key_user_permanent : String → String → String
  key_user_permanent tenant user = prefix ++ "t:" ++ tenant ++ ":u:" ++ user ++ ":perm"

  unfoldable pub key_user_expiring : String → String → String
  key_user_expiring tenant user = prefix ++ "t:" ++ tenant ++ ":u:" ++ user ++ ":exp"

-- A missing key means public, and so does an error.
unfoldable pub visibility_from_cmd : Result RedisError (Option String) → Visibility
visibility_from_cmd (err e) = visibility_public
visibility_from_cmd (ok none) = visibility_public
visibility_from_cmd (ok (some vv)) =
    if str_eq vv visibility_restricted then visibility_restricted else visibility_public

said_yes : Result RedisError Bool → Bool
said_yes (err e) = false
said_yes (ok b) = b

lies_before : ℤ → Result RedisError (Option ℤ) → Bool
lies_before now (err e) = false
lies_before now (ok none) = false
lies_before now (ok (some score)) = ltb_ℤ now score

unfoldable pub is_allowed_restricted :
    Result RedisError Bool → Result RedisError (Option ℤ) → ℤ → Bool
unfolding said_yes lies_before
is_allowed_restricted perm exp now = if said_yes perm then true else lies_before now exp

-- The loops that collect names, without the empty one.
add_named : List String → GoMap String (Unit {0}) → GoMap String (Unit {0})
add_named [] seen = seen
add_named (d ∷ ds) seen = add_named ds (if not (str_eq d "") then put seen d tt else seen)

abbrev pub reply {ℓ} : {S : Type ℓ} → S × Option RedisError → Result StoreError (Unit {0}) × S
reply (s, none) = (ok tt, s)
reply (s, some e) = (err (redis_failed e), s)

-- The pipeline of Grant, and the one that follows a success, whose errors are ignored.
module _ (prefix : String) where
  unfoldable pub grant_commands : Time → String → String → String → Option Time → List Command
  unfolding key_permanent key_expiring key_user_permanent key_user_expiring
  grant_commands clock tenant doc user none =
      sadd (key_permanent prefix tenant doc) user
      ∷ sadd (key_user_permanent prefix tenant user) doc
      ∷ zrem (key_expiring prefix tenant doc) user
      ∷ zrem (key_user_expiring prefix tenant user) doc
      ∷ []
  grant_commands clock tenant doc user (some valid_to) =
      zremrangebyscore (key_expiring prefix tenant doc) (unix clock)
      ∷ zremrangebyscore (key_user_expiring prefix tenant user) (unix clock)
      ∷ zadd (key_expiring prefix tenant doc) user (unix valid_to)
      ∷ zadd (key_user_expiring prefix tenant user) doc (unix valid_to)
      ∷ srem (key_permanent prefix tenant doc) user
      ∷ srem (key_user_permanent prefix tenant user) doc
      ∷ []

  unfoldable pub cleanup_commands : String → String → String → Option Time → List Command
  cleanup_commands tenant doc user none =
      run_script zrem_script (key_expiring prefix tenant doc) user
      ∷ run_script zrem_script (key_user_expiring prefix tenant user) doc
      ∷ []
  cleanup_commands tenant doc user (some valid_to) =
      run_script srem_script (key_permanent prefix tenant doc) user
      ∷ run_script srem_script (key_user_permanent prefix tenant user) doc
      ∷ []

  unfoldable pub revoke_commands : String → String → String → List Command
  revoke_commands tenant doc user =
      run_script srem_script (key_permanent prefix tenant doc) user
      ∷ run_script zrem_script (key_expiring prefix tenant doc) user
      ∷ run_script srem_script (key_user_permanent prefix tenant user) doc
      ∷ run_script zrem_script (key_user_expiring prefix tenant user) doc
      ∷ []

  -- One pair of scripts for each document that the user holds, then the user's two keys.
  unfoldable pub revoke_all_commands : String → String → List String → List Command
  revoke_all_commands tenant user [] =
      del (key_user_permanent prefix tenant user ∷ key_user_expiring prefix tenant user ∷ []) ∷ []
  revoke_all_commands tenant user (doc ∷ docs) =
      run_script srem_script (key_permanent prefix tenant doc) user
      ∷ run_script zrem_script (key_expiring prefix tenant doc) user
      ∷ revoke_all_commands tenant user docs

module _ (r : Redis) (prefix : String) where
  abbrev pub StoreResult : Type 0
  StoreResult = Result StoreError (Unit {0}) × r.Server

  unfoldable pub set_visibility : r.Server → String → String → Visibility → StoreResult
  set_visibility s tenant doc v =
      if not (is_visibility v)
      then (err (refused invalid_visibility), s)
      else if missing2 tenant doc
      then (err (refused id_required), s)
      else if str_eq v visibility_public
      then reply (r.exec s (del (key_visibility prefix tenant doc ∷ []) ∷ []))
      else reply (r.exec s (set (key_visibility prefix tenant doc) v ∷ []))

  -- After a success the second pipeline runs; what it answers is not looked at.
  unfoldable pub and_clean : r.Server × Option RedisError → List Command → StoreResult
  and_clean (s, some e) cs = (err (redis_failed e), s)
  and_clean (s, none) cs = (ok tt, (r.exec s cs).0)

  unfoldable pub grant :
      Time → r.Server → String → String → String → Time → Option Time → StoreResult
  unfolding and_clean
  grant clock s tenant doc user valid_from valid_to =
      if missing3 tenant doc user
      then (err (refused id_required), s)
      else if bad_range valid_from valid_to
      then (err (refused invalid_range), s)
      else and_clean (r.exec s (grant_commands prefix clock tenant doc user valid_to))
          (cleanup_commands prefix tenant doc user valid_to)

  unfoldable pub revoke : r.Server → String → String → String → StoreResult
  revoke s tenant doc user =
      if missing3 tenant doc user
      then (err (refused id_required), s)
      else reply (r.exec s (revoke_commands prefix tenant doc user))

  -- The body of CheckBatch's second loop.
  unfoldable pub is_allowed : r.Server → String → String → ℤ → String → Bool
  is_allowed s tenant user now doc =
      if str_eq (visibility_from_cmd (r.read_string s (key_visibility prefix tenant doc)))
        visibility_public
      then true
      else is_allowed_restricted (r.is_member s (key_user_permanent prefix tenant user) doc)
          (r.score_of s (key_user_expiring prefix tenant user) doc) now

  unfoldable pub check_batch :
      Time → r.Server → String → String → List String → Time → Option (List String)
  check_batch clock s tenant user docs now =
      if missing2 tenant user
      then none
      else some (
          keep_if (is_allowed s tenant user (unix (or_now clock now)))
            (keep_if (λ d. not (str_eq d "")) docs))

  unfoldable pub list_grants : Time → r.Server → String → String → Time → Option (List String)
  unfolding add_named
  list_grants clock s tenant user now =
      if missing2 tenant user
      then none
      else elim (r.members s (key_user_permanent prefix tenant user)) [
        | err e ↦ none
        | ok perm ↦
            elim (r.ranked_above s (key_user_expiring prefix tenant user)
              (unix (or_now clock now))) [
                | err e ↦ some perm
                | ok exp ↦ some (keys (add_named exp (add_named perm [])))
              ]
      ]

  unfoldable pub revoke_all_user : r.Server → String → String → StoreResult
  unfolding add_named
  revoke_all_user s tenant user =
      if missing2 tenant user
      then (err (refused id_required), s)
      else elim (r.members s (key_user_permanent prefix tenant user)) [
        | err e ↦ (err (redis_failed e), s)
        | ok perm ↦ elim (r.ranked s (key_user_expiring prefix tenant user)) [
          | err e ↦ (err (redis_failed e), s)
          | ok exp ↦ reply (
              r.exec s
                (revoke_all_commands prefix tenant user (keys (add_named exp (add_named perm [])))))
        ]
      ]
