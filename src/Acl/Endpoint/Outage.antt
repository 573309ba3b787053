-- ===== src/Acl/Endpoint/Outage.antt =====
-- acl.go over redis_store.go: what the check endpoint answers while Redis is down.
use text.Mathlib.TextEquality.{eq_iff}
use mathlib.Core.Bool.{false≢true}
use novagate.Base.{
  String, ◌≡◌, refl, sym, ap, ◌∙◌, true, false, not, ◌&&◌, some, List, [], ◌∷◌, Result, ok, err,
  arith, inl, inr, Bool-cases,
}
use novagate.Base.Key.{◌==◌, beq_ne, string_key}
use novagate.Acl.Model.{Time, missing2}
use novagate.Acl.Docs.{contains}
use novagate.Acl.RedisServer.{RedisError, Redis}
use novagate.Acl.RedisStore.{
  StoreError, refused, redis_failed, set_visibility, grant, revoke, revoke_all_user, check_batch,
  list_grants,
}
use novagate.Acl.RedisStore.Check.{check_batch_down}
use novagate.Acl.Endpoint.{
  Store, Parsers, allowed_doc_ids, CheckBatchRequest, all_uuid, time_or_now, acl_check_batch,
}
use novagate.Acl.Endpoint.Writes.{message}

-- The text of an error of the store.
abbrev store_message : String → StoreError → String
store_message ids (refused e) = message ids e
store_message ids (redis_failed e) = e

abbrev with_message {ℓ} :
    {S : Type ℓ} → String → Result StoreError (Unit {0}) × S → Result String (Unit {0}) × S
with_message ids (ok _, s) = (ok tt, s)
with_message ids (err e, s) = (err (store_message ids e), s)

-- RedisStore as a Store; its CheckBatch returns no error.
abbrev pub redis_store : Redis → String → Store
redis_store r prefix = record {
  State = r.Server;
  set_visibility = λ s tenant doc v.
      with_message "tenant_id/doc_id is required" (set_visibility r prefix s tenant doc v);
  grant = λ clock s tenant doc user valid_from valid_to.
      with_message "tenant_id/doc_id/user_id is required"
        (grant r prefix clock s tenant doc user valid_from valid_to);
  revoke = λ s tenant doc user.
      with_message "tenant_id/doc_id/user_id is required" (revoke r prefix s tenant doc user);
  revoke_all_user = λ s tenant user.
      with_message "tenant_id/user_id is required" (revoke_all_user r prefix s tenant user);
  check_batch =
      λ clock s tenant user docs now. ok (check_batch r prefix clock s tenant user docs now);
  list_grants = λ clock s tenant user now. list_grants r prefix clock s tenant user now;
}

uuids_given :
    (p : Parsers) (tenant user : String)
    → p.is_uuid "" ≡ false
    → p.is_uuid tenant ≡ true
    → p.is_uuid user ≡ true
    → missing2 tenant user ≡ false
uuids_given p tenant user h t u = ground (arith, eq_iff tenant "", eq_iff user "")

contains-named :
    (p : Parsers) (docs : List String) (d : String)
    → p.is_uuid "" ≡ false
    → all_uuid p docs ≡ true
    → (contains docs d && not (d == "")) ≡ contains docs d
contains-named p [] d h all = refl
contains-named p (x ∷ docs) d h all = elim (Bool-cases (p.is_uuid x)) [
  | inr bad ↦ let no : false ≡ true = rw bad at all in cc
  | inl good ↦
      let rest : all_uuid p docs ≡ true = rw good at all in
      let named : (x == "") ≡ false =
        beq_ne x "" (λ q. false≢true (sym h ∙ ap p.is_uuid (sym q) ∙ good)) in
      ground (arith, named, contains-named p docs d h rest, eq_iff x d)
]

-- Where an empty text is no UUID, a valid request to the check endpoint over the store in Redis,
-- while every read of a visibility fails, is answered with exactly the documents that were asked for,
-- to any user of the tenant: the endpoint fails open.
pub acl_check_batch_down :
    (r : Redis) (prefix : String) (p : Parsers) (clock : Time) (s : r.Server)
    (req : CheckBatchRequest) (now : Time) (e : RedisError)
    → p.is_uuid "" ≡ false
    → p.is_uuid req.tenant_id ≡ true
    → p.is_uuid req.user_id ≡ true
    → all_uuid p req.doc_ids ≡ true
    → time_or_now p clock req.now "now must be RFC3339" ≡ ok now
    → ((k : String) → r.read_string s k ≡ err e)
    → (allowed : List String) × (acl_check_batch (redis_store r prefix) p clock s (some req)
        ≡ allowed_doc_ids (some allowed))
      × ((d : String) → contains allowed d ≡ contains req.doc_ids d)
unfolding acl_check_batch
acl_check_batch_down r prefix p clock s req now e h t u all time down =
    let (allowed, checked, in_it) =
      check_batch_down r prefix clock s req.tenant_id req.user_id req.doc_ids now e down
        (uuids_given p req.tenant_id req.user_id h t u) in
    (allowed, rw (t, u, all, time, checked), λ d. in_it d ∙ contains-named p req.doc_ids d h all)
