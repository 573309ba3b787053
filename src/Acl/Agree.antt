-- ===== src/Acl/Agree.antt =====
-- The two stores of services/acl side by side: the same write, and then the same question.
pub mod Tests
use novagate.Base.{
  ℕ, ◌+◌, ◌-◌, ◌*◌, ◌/◌, ◌^◌, ◌≤◌, ◌<◌, ◌≡◌, refl, sym, ap, ◌∙◌, String, Bool, true, false, not,
  ◌&&◌, ◌||◌, Option, none, some, List, Result, ok, err, arith, ltb,
}
use novagate.Base.Int.{ℤ, pos, ◌-ℤ◌, wrap64, wrap64-pos, pos--ℤ, ltb_ℤ}
use novagate.Base.Key.{◌==◌, string_key, beq_refl}
use novagate.Acl.Model.{
  Time, nanos, AclError, Visibility, visibility_public, missing2, missing3, bad_range, or_now,
}
use novagate.Acl.Nested.{is_there}
use novagate.Acl.Docs.{contains}
use novagate.Acl.Memory.{InMemoryStore, is_live, visibility_of_locked, check_batch, grant, revoke}
use novagate.Acl.Memory.Effect.{Access, access, no_access, granted, access-grant, access-revoke}
use novagate.Acl.Memory.Check.{permits, contains-check_batch}
use novagate.Acl.RedisServer.{Redis, IsRedis, IsUp, Keyspace}
use novagate.Acl.RedisStore.{
  unix, key_visibility, StoreResult, check_batch as redis_check_batch, grant as redis_grant,
  revoke as redis_revoke,
}
use novagate.Acl.RedisStore.Effect.{Held, held, granted as redis_granted, held-grant, held-revoke}
use novagate.Acl.RedisStore.Check.{is_restricted, ends_after, permits_held, check_batch-IsUp}

-- The seconds of 1970.
abbrev pub epoch : ℕ
epoch = 2 ^ 63 + 62135596800

-- From 1970 on, and in seconds that int64 holds.
abbrev pub IsUnix : Time → Type 0
IsUnix t = (epoch ≤ t / nanos) × (t / nanos < epoch + 2 ^ 63)

unix_lem : (t : Time) → IsUnix t → unix t ≡ pos (t / nanos - epoch)
unfolding unix
unix_lem t (low, high) =
    ap wrap64 (pos--ℤ (t / nanos) epoch low) ∙ wrap64-pos (t / nanos - epoch) (omega arith)

later_second : (k : ℕ) (now : Time) → ltb now (k * nanos) ≡ ltb (now / nanos) k
later_second k now = ground arith

whole_div : (k : ℕ) → k * nanos / nanos ≡ k
whole_div k = omega arith

-- A write of one user's right on one document: a grant until an end in whole seconds, a grant without an
-- end, or a revocation.
pub data Change : Type 0 where
  until_second : (valid_from : Time) (k : ℕ) → Change
  forever : (valid_from : Time) → Change
  revoked : Change

-- Its end can be told in the seconds of a Unix time.
abbrev pub IsDated : Change → Type 0
IsDated (until_second valid_from k) = IsUnix (k * nanos)
IsDated (forever valid_from) = Unit {0}
IsDated revoked = Unit {0}

abbrev pub in_memory :
    Change → Time → InMemoryStore → String → String → String → Result AclError InMemoryStore
in_memory (until_second valid_from k) clock s tenant doc user =
    grant clock s tenant doc user valid_from (some (k * nanos))
in_memory (forever valid_from) clock s tenant doc user =
    grant clock s tenant doc user valid_from none
in_memory revoked clock s tenant doc user = revoke s tenant doc user

abbrev left_in_memory : Change → Access
left_in_memory (until_second valid_from k) = granted (some (k * nanos))
left_in_memory (forever valid_from) = granted none
left_in_memory revoked = no_access

granted_self :
    (clock : Time) (s s' : InMemoryStore) (tenant doc user : String) (valid_from : Time)
    (valid_to : Option Time)
    → grant clock s tenant doc user valid_from valid_to ≡ ok s'
    → access s' tenant doc user ≡ granted valid_to
granted_self clock s s' tenant doc user valid_from valid_to e =
    let (_, _, left) =
      access-grant clock s s' tenant doc user valid_from valid_to tenant doc user e in
    left ∙ rw (beq_refl tenant, beq_refl doc, beq_refl user) refl

access-in_memory :
    (c : Change) (clock : Time) (s s' : InMemoryStore) (tenant doc user : String)
    → in_memory c clock s tenant doc user ≡ ok s'
    → access s' tenant doc user ≡ left_in_memory c
access-in_memory (until_second valid_from k) clock s s' tenant doc user e =
    granted_self clock s s' tenant doc user valid_from (some (k * nanos)) e
access-in_memory (forever valid_from) clock s s' tenant doc user e =
    granted_self clock s s' tenant doc user valid_from none e
access-in_memory revoked clock s s' tenant doc user e =
    (access-revoke s s' tenant doc user tenant doc user e).1
    ∙ rw (beq_refl tenant, beq_refl doc, beq_refl user) refl

abbrev left_in_redis : Change → Held
left_in_redis (until_second valid_from k) = redis_granted (some (k * nanos))
left_in_redis (forever valid_from) = redis_granted none
left_in_redis revoked = (false, none)

-- Either store then says the same of any instant, to the nanosecond.
right_alike :
    (c : Change) (now : Time)
    → IsDated c
    → IsUnix now
    → (is_there (left_in_memory c).0 || is_live now (left_in_memory c).1)
      ≡ ((left_in_redis c).0 || ends_after (unix now) (left_in_redis c).1)
unfolding is_live
right_alike (until_second valid_from k) now dated unixy =
    let whole = whole_div k in
    let later = later_second k now in
    rw (unix_lem now unixy, unix_lem (k * nanos) dated) (ground (arith, whole, later))
right_alike (forever valid_from) now dated unixy = refl
right_alike revoked now dated unixy = refl

or_alike : (a b c x y z : Bool) → a ≡ x → (b || c) ≡ (y || z) → ((a || b) || c) ≡ ((x || y) || z)
or_alike a b c x y z first rest = ground arith

permits_alike :
    (v : Visibility) (o : Option String) (a : Access) (h : Held) (now : Time) (second : ℤ)
    → (v == visibility_public) ≡ not (is_restricted o)
    → (is_there a.0 || is_live now a.1) ≡ (h.0 || ends_after second h.1)
    → permits v a now ≡ permits_held o h second
permits_alike v o a h now second public right =
    or_alike (v == visibility_public) (is_there a.0) (is_live now a.1) (not (is_restricted o)) h.0
      (ends_after second h.1) public right

module _ (r : Redis) (prefix : String) where
  abbrev pub in_redis : Change → Time → r.Server → String → String → String → StoreResult r prefix
  in_redis (until_second valid_from k) clock s tenant doc user =
      redis_grant r prefix clock s tenant doc user valid_from (some (k * nanos))
  in_redis (forever valid_from) clock s tenant doc user =
      redis_grant r prefix clock s tenant doc user valid_from none
  in_redis revoked clock s tenant doc user = redis_revoke r prefix s tenant doc user

  held-in_redis :
      (law : IsRedis r) (c : Change) (clock : Time) (s s' : r.Server) (tenant doc user : String)
      → in_redis c clock s tenant doc user ≡ (ok tt, s')
      → held prefix (law.holds s') tenant doc user ≡ left_in_redis c
  held-in_redis law (until_second valid_from k) clock s s' tenant doc user e =
      (held-grant r prefix law clock s s' tenant doc user valid_from (some (k * nanos)) e).2
  held-in_redis law (forever valid_from) clock s s' tenant doc user e =
      (held-grant r prefix law clock s s' tenant doc user valid_from none e).2
  held-in_redis law revoked clock s s' tenant doc user e =
      (held-revoke r prefix law s s' tenant doc user e).1

  -- The store in memory and the one in Redis answer alike: after the same grant or revocation has
  -- succeeded on both, whatever they held before and whatever their clocks read then, and on a Redis server
  -- that keeps the documented effects and answers, CheckBatch at one time gives the document to its user
  -- on both or on neither. That time (the clock's, if a zero time is given) and the grant's end lie in the
  -- years from 1970 on that int64 holds, the end is a whole number of seconds, and the two stores agree on
  -- whether the document is public.
  pub stores_answer_alike :
      (law : IsRedis r) (c : Change) (clock clock' now : Time) (s s' : InMemoryStore)
      (t t' : r.Server) (tenant doc user : String) (docs : List String)
      → in_memory c clock s tenant doc user ≡ ok s'
      → in_redis c clock' t tenant doc user ≡ (ok tt, t')
      → IsUp r law t'
      → IsDated c
      → IsUnix (or_now clock now)
      → missing2 tenant user ≡ false
      → (visibility_of_locked s' tenant doc == visibility_public)
        ≡ not (is_restricted ((law.holds t').text (key_visibility prefix tenant doc)))
      → (xs : List String) × (ys : List String) × (check_batch clock s' tenant user docs now
          ≡ some xs)
        × (redis_check_batch r prefix clock t' tenant user docs now ≡ some ys)
        × (contains xs doc ≡ contains ys doc)
  stores_answer_alike law c clock clock' now s s' t t' tenant doc user docs m e up dated unixy given
        public =
      let (xs, first, x_lem) = contains-check_batch clock s' tenant user docs now given in
      let (ys, second, y_lem) =
        check_batch-IsUp r prefix law clock t' tenant user docs now up given in
      let left = access-in_memory c clock s s' tenant doc user m in
      let right = held-in_redis law c clock' t t' tenant doc user e in
      let n = or_now clock now in
      let right_same =
        ap (λ (a : Access). is_there a.0 || is_live n a.1) left
        ∙ right_alike c n dated unixy
        ∙ sym (ap (λ (h : Held). h.0 || ends_after (unix n) h.1) right) in
      (
        xs,
        ys,
        first,
        second,
        x_lem doc
            ∙ ap (λ b. contains docs doc && (not (doc == "") && b))
                (permits_alike (visibility_of_locked s' tenant doc)
                  ((law.holds t').text (key_visibility prefix tenant doc))
                  (access s' tenant doc user) (held prefix (law.holds t') tenant doc user)
                  (or_now clock now) (unix (or_now clock now)) public right_same)
            ∙ sym (y_lem doc),
      )
