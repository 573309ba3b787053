-- ===== src/Acl/Memory/Effect.antt =====
-- inmemory_store.go: what its writes do, read by read, for every tenant, document and user.
use novagate.Base.{
  String, ◌≡◌, refl, true, false, ◌&&◌, Option, none, some, ok, arith, if◌then◌else◌, guard_ok, not,
  ok-injective, >>=-eq-ok,
}
use novagate.Base.Key.{◌==◌, get, put, get-put, string_key}
use novagate.Acl.Model.{
  Time, Visibility, id_required, invalid_visibility, missing2, missing3, is_visibility,
  validate_grant_args, bad_range,
}
use novagate.Acl.Nested.{or_empty, user_of, purge, edit_users}
use novagate.Acl.Nested.Laws.{unexpired, user_of-remove, user_of-add, user_of-revoke, user_of-purge}
use novagate.Acl.Memory.{
  InMemoryStore, set_visibility, grant_permanent_locked, grant_expiring_locked, grant_locked,
  cleanup, grant, revoke, revoke_all_user, visibility_of_locked,
}

-- What a user holds on a document: a permanent grant, and the end of an expiring one.
abbrev pub Access : Type 0
Access = Option (Unit {0}) × Option Time

abbrev pub access : InMemoryStore → String → String → String → Access
access s t d u = (user_of s.permanent t d u, user_of s.expiring t d u)

abbrev pub no_access : Access
no_access = (none, none)

-- What Grant leaves for its user.
abbrev pub granted : Option Time → Access
granted none = (some tt, none)
granted (some valid_to) = (none, some valid_to)

access-grant_locked :
    (now : Time) (s : InMemoryStore) (tenant doc user : String) (valid_to : Option Time)
    (t d u : String)
    → access (grant_locked (cleanup now s tenant doc) tenant doc user valid_to) t d u ≡ (
        if tenant == t && doc == d
        then if user == u
          then granted valid_to
          else ((access s t d u).0, unexpired now (access s t d u).1)
        else access s t d u)
unfolding grant_locked grant_permanent_locked grant_expiring_locked cleanup
access-grant_locked now s tenant doc user none t d u = ground (
  arith,
  user_of-add s.permanent tenant doc user t d u tt,
  user_of-remove (edit_users (purge now) s.expiring tenant doc) tenant doc user t d u,
  user_of-purge s.expiring now tenant doc t d u,
)
access-grant_locked now s tenant doc user (some v) t d u = ground (
  arith,
  user_of-add (edit_users (purge now) s.expiring tenant doc) tenant doc user t d u v,
  user_of-remove s.permanent tenant doc user t d u,
  user_of-purge s.expiring now tenant doc t d u,
)

-- validateGrantArgs passes where every id is given and the range is not reversed.
validate_ok :
    (tenant doc user : String) (valid_from : Time) (valid_to : Option Time) (x : Unit {0})
    → validate_grant_args tenant doc user valid_from valid_to ≡ ok x
    → (missing3 tenant doc user ≡ false) × (bad_range valid_from valid_to ≡ false)
unfolding validate_grant_args
validate_ok tenant doc user valid_from valid_to x e = ground arith

-- Where a grant succeeds, and what it then is.
pub grant_done :
    (now : Time) (s s' : InMemoryStore) (tenant doc user : String) (valid_from : Time)
    (valid_to : Option Time)
    → grant now s tenant doc user valid_from valid_to ≡ ok s'
    → (missing3 tenant doc user ≡ false)
      × (bad_range valid_from valid_to ≡ false)
      × (grant_locked (cleanup now s tenant doc) tenant doc user valid_to ≡ s')
unfolding grant
grant_done now s s' tenant doc user valid_from valid_to e =
    let (checked, valid, done) =
      >>=-eq-ok (validate_grant_args tenant doc user valid_from valid_to)
        (λ _. ok (grant_locked (cleanup now s tenant doc) tenant doc user valid_to)) e in
    let (given, in_order) = validate_ok tenant doc user valid_from valid_to checked valid in
    (given, in_order, ok-injective done)

-- A grant leaves every visibility as it was.
pub visibility-grant :
    (now : Time) (s s' : InMemoryStore) (tenant doc user : String) (valid_from : Time)
    (valid_to : Option Time)
    → grant now s tenant doc user valid_from valid_to ≡ ok s'
    → (t d : String) → visibility_of_locked s' t d ≡ visibility_of_locked s t d
visibility-grant now s s' tenant doc user valid_from valid_to e t d =
    let (_, _, same) = grant_done now s s' tenant doc user valid_from valid_to e in
    rw (← same) (locked valid_to)
  where
    locked :
        (v : Option Time)
        → visibility_of_locked (grant_locked (cleanup now s tenant doc) tenant doc user v) t d
          ≡ visibility_of_locked s t d
    locked none = unfold grant_locked grant_permanent_locked cleanup visibility_of_locked in refl
    locked (some v) = unfold grant_locked grant_expiring_locked cleanup visibility_of_locked in refl

-- A grant that succeeds had all three ids and no reversed range. Afterwards its user holds on its
-- document exactly what was granted, permanent or until the end given, whatever was there before. The
-- other users of that document keep their permanent grants and lose only the expiring ones whose end
-- lies before the clock. No other document changes.
pub access-grant :
    (now : Time) (s s' : InMemoryStore) (tenant doc user : String) (valid_from : Time)
    (valid_to : Option Time) (t d u : String)
    → grant now s tenant doc user valid_from valid_to ≡ ok s'
    → (missing3 tenant doc user ≡ false)
      × (bad_range valid_from valid_to ≡ false)
      × (access s' t d u ≡ (
          if tenant == t && doc == d
          then if user == u
            then granted valid_to
            else ((access s t d u).0, unexpired now (access s t d u).1)
          else access s t d u))
access-grant now s s' tenant doc user valid_from valid_to t d u e =
    let (given, in_order, same) = grant_done now s s' tenant doc user valid_from valid_to e in
    (given, in_order, rw (← same) (access-grant_locked now s tenant doc user valid_to t d u))

-- A revocation that succeeds had all three ids. Afterwards the user holds nothing on the document, and
-- every other pair of document and user is as before.
pub access-revoke :
    (s s' : InMemoryStore) (tenant doc user t d u : String)
    → revoke s tenant doc user ≡ ok s'
    → (missing3 tenant doc user ≡ false)
      × (access s' t d u
          ≡ (if tenant == t && doc == d && user == u then no_access else access s t d u))
unfolding revoke
access-revoke s s' tenant doc user t d u e =
    let (given, done) = guard_ok (missing3 tenant doc user) id_required _ e in
    let same = ok-injective done in
    (
      given,
      rw (← same) (
          ground (
            arith,
            user_of-remove s.permanent tenant doc user t d u,
            user_of-remove s.expiring tenant doc user t d u,
          )),
    )

-- RevokeAllUser, where it succeeds, had both ids. Afterwards the user holds nothing on any document of
-- the tenant. Other users and other tenants keep what they had.
pub access-revoke_all_user :
    (s s' : InMemoryStore) (tenant user t d u : String)
    → revoke_all_user s tenant user ≡ ok s'
    → (missing2 tenant user ≡ false)
      × (access s' t d u ≡ (if tenant == t && user == u then no_access else access s t d u))
unfolding revoke_all_user
access-revoke_all_user s s' tenant user t d u e =
    let (given, done) = guard_ok (missing2 tenant user) id_required _ e in
    let same = ok-injective done in
    (
      given,
      rw (← same) (
          ground (
            arith,
            user_of-revoke s.permanent tenant user t d u,
            user_of-revoke s.expiring tenant user t d u,
          )),
    )

-- Setting a visibility succeeds only for public or restricted and with both ids. It changes the
-- visibility of that document alone, and no grant.
pub visibility-set_visibility :
    (s s' : InMemoryStore) (tenant doc : String) (v : Visibility) (t d u : String)
    → set_visibility s tenant doc v ≡ ok s'
    → (is_visibility v ≡ true)
      × (missing2 tenant doc ≡ false)
      × (visibility_of_locked s' t d
          ≡ (if tenant == t && doc == d then v else visibility_of_locked s t d))
      × (access s' t d u ≡ access s t d u)
unfolding set_visibility visibility_of_locked
visibility-set_visibility s s' tenant doc v t d u e =
    let (known, rest) = guard_ok (not (is_visibility v)) invalid_visibility _ e in
    let (given, done) = guard_ok (missing2 tenant doc) id_required _ rest in
    let same = ok-injective done in
    let docs = or_empty (get s.visibility tenant) in
    (
      ground (arith, known),
      given,
      rw (← same) (
          ground (
            arith,
            get-put s.visibility tenant t (put docs doc v),
            get-put docs doc d v,
            string_key.beq_iff tenant t,
          )),
      rw (← same) refl,
    )
