-- ===== src/Acl/Memory.antt =====
-- services/acl/internal/acl/inmemory_store.go: the store in memory. The lock makes each call one step;
-- a clock's reading is an argument. Grants and visibility stay as they were when a call fails, since
-- every check stands before the first write.
pub mod Effect
pub mod Check
pub mod Grants
pub mod Invariant
pub mod Refines
use text.Mathlib.Text.{◌==◌ as str_eq}
use novagate.Base.{
  ℕ, ◌+◌, String, Bool, true, false, not, Option, none, some, List, [], ◌∷◌, Result, ok, err, ◌>>=◌,
  ◌>>◌, length, if◌then◌else◌,
}
use novagate.Base.Key.{GoMap, get, put, string_key}
use novagate.Acl.Model.{
  Time, Visibility, visibility_public, AclError, invalid_visibility, id_required, before, missing2,
  missing3, is_visibility, validate_grant_args, or_now,
}
use novagate.Acl.Docs.{keep_if, keys}
use novagate.Acl.Nested.{
  Users, Docs, Tenants, is_there, is_empty, or_empty, user_of, edit_users, remove_user, add_user,
  revoke_user, purge,
}

pub record InMemoryStore : Type 0 where
  pub visibility : GoMap String (GoMap String Visibility)
  pub permanent : Tenants (Unit {0})
  pub expiring : Tenants Time

abbrev pub new_in_memory_store : InMemoryStore
new_in_memory_store = record { visibility = []; permanent = []; expiring = [] }

unfoldable pub set_visibility :
    InMemoryStore → String → String → Visibility → Result AclError InMemoryStore
set_visibility s tenant doc v =
    if not (is_visibility v)
    then err invalid_visibility
    else if missing2 tenant doc
    then err id_required
    else ok (record s {
      visibility = put s.visibility tenant (put (or_empty (get s.visibility tenant)) doc v);
    })

unfoldable pub grant_permanent_locked : InMemoryStore → String → String → String → InMemoryStore
grant_permanent_locked s tenant doc user = record s {
  permanent = add_user s.permanent tenant doc user tt;
  expiring = remove_user s.expiring tenant doc user;
}

unfoldable pub grant_expiring_locked :
    InMemoryStore → String → String → String → Time → InMemoryStore
grant_expiring_locked s tenant doc user valid_to = record s {
  expiring = add_user s.expiring tenant doc user valid_to;
  permanent = remove_user s.permanent tenant doc user;
}

unfoldable grant_locked : InMemoryStore → String → String → String → Option Time → InMemoryStore
unfolding grant_permanent_locked grant_expiring_locked
grant_locked s tenant doc user none = grant_permanent_locked s tenant doc user
grant_locked s tenant doc user (some valid_to) = grant_expiring_locked s tenant doc user valid_to

-- The document's expired grants are removed first, by the clock's reading `now`.
unfoldable pub cleanup : Time → InMemoryStore → String → String → InMemoryStore
cleanup now s tenant doc = record s { expiring = edit_users (purge now) s.expiring tenant doc }

unfoldable pub grant :
    Time
    → InMemoryStore
    → String
    → String
    → String
    → Time
    → Option Time
    → Result AclError InMemoryStore
unfolding grant_locked
grant now s tenant doc user valid_from valid_to =
    validate_grant_args tenant doc user valid_from valid_to
    >> ok (grant_locked (cleanup now s tenant doc) tenant doc user valid_to)

unfoldable pub revoke : InMemoryStore → String → String → String → Result AclError InMemoryStore
revoke s tenant doc user =
    if missing3 tenant doc user
    then err id_required
    else ok (record s {
      permanent = remove_user s.permanent tenant doc user;
      expiring = remove_user s.expiring tenant doc user;
    })

unfoldable pub revoke_all_user : InMemoryStore → String → String → Result AclError InMemoryStore
revoke_all_user s tenant user =
    if missing2 tenant user
    then err id_required
    else ok (record s {
      permanent = revoke_user s.permanent tenant user;
      expiring = revoke_user s.expiring tenant user;
    })

-- A document with no entry is public.
unfoldable pub visibility_of_locked : InMemoryStore → String → String → Visibility
visibility_of_locked s tenant doc = elim (get (or_empty (get s.visibility tenant)) doc) [
  | none ↦ visibility_public
  | some vv ↦ vv
]

unfoldable pub has_permanent_grant_locked : InMemoryStore → String → String → String → Bool
has_permanent_grant_locked s tenant doc user = is_there (user_of s.permanent tenant doc user)

-- `now.Before(validTo)` for the entry, if there is one.
unfoldable pub is_live : Time → Option Time → Bool
is_live now none = false
is_live now (some valid_to) = before now valid_to

unfoldable pub has_expiring_grant_locked : InMemoryStore → String → String → String → Time → Bool
unfolding is_live
has_expiring_grant_locked s tenant doc user now = is_live now (user_of s.expiring tenant doc user)

-- The body of CheckBatch's loop: is the document appended to the allowed ones?
unfoldable pub is_allowed : InMemoryStore → String → String → Time → String → Bool
is_allowed s tenant user now doc =
    if str_eq doc ""
    then false
    else if str_eq (visibility_of_locked s tenant doc) visibility_public
    then true
    else if has_permanent_grant_locked s tenant doc user
    then true
    else has_expiring_grant_locked s tenant doc user now

-- `none` is the nil slice. CheckBatch returns no error.
unfoldable pub check_batch :
    Time → InMemoryStore → String → String → List String → Time → Option (List String)
check_batch clock s tenant user docs now =
    if missing2 tenant user
    then none
    else some (keep_if (is_allowed s tenant user (or_now clock now)) docs)

-- The loops' body: a document whose entry of the user passes the test is added to `seen`.
unfoldable add_grant :
    {A : Type 0}
    → (A → Bool)
    → String
    → String
    → GoMap String A
    → GoMap String (Unit {0})
    → GoMap String (Unit {0})
add_grant p user doc users seen =
    if str_eq doc ""
    then seen
    else elim (get users user) [ none ↦ seen | some v ↦ if p v then put seen doc tt else seen ]

unfoldable add_grants :
    {A : Type 0}
    → (A → Bool)
    → String
    → GoMap String (GoMap String A)
    → GoMap String (Unit {0})
    → GoMap String (Unit {0})
unfolding add_grant
add_grants p user [] seen = seen
add_grants p user ((doc, users) ∷ docs) seen =
    add_grants p user docs (add_grant p user doc users seen)

-- The order of a Go map is not fixed; here it is that of the entries.
unfoldable pub list_grants : Time → InMemoryStore → String → String → Time → Option (List String)
unfolding add_grants
list_grants clock s tenant user now =
    if missing2 tenant user
    then none
    else (let seen = add_grants (λ _. true) user (or_empty (get s.permanent tenant)) [] in
        some (
          keys
            (add_grants (before (or_now clock now)) user (or_empty (get s.expiring tenant)) seen)))

pub record InMemoryStats : Type 0 where
  pub tenants : ℕ
  pub visibility_docs : ℕ
  pub permanent_doc_edges : ℕ
  pub expiring_doc_edges : ℕ

unfoldable count_inner {ℓ} : {A : Type ℓ} → GoMap String (List A) → ℕ
count_inner [] = 0
count_inner ((k, inner) ∷ m) = length inner + count_inner m

unfoldable count_edges {ℓ} : {A : Type ℓ} → GoMap String (GoMap String (List A)) → ℕ
unfolding count_inner
count_edges [] = 0
count_edges ((k, docs) ∷ m) = count_inner docs + count_edges m

unfoldable pub stats : InMemoryStore → InMemoryStats
unfolding count_inner count_edges
stats s = record {
  tenants = length s.visibility;
  visibility_docs = count_inner s.visibility;
  permanent_doc_edges = count_edges s.permanent;
  expiring_doc_edges = count_edges s.expiring;
}
