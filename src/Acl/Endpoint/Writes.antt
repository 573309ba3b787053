-- ===== src/Acl/Endpoint/Writes.antt =====
-- acl.go over inmemory_store.go: what the write endpoints do to the store.
use novagate.Base.{String, ◌≡◌, Option, Result, ok, err, if◌then◌else◌}
use novagate.Base.Key.{string_key}
use novagate.Acl.Model.{
  Time, visibility_restricted, AclError, invalid_visibility, id_required, invalid_range,
}
use novagate.Acl.Memory.{
  InMemoryStore, set_visibility, grant, revoke, revoke_all_user, visibility_of_locked, check_batch,
  list_grants,
}
use novagate.Acl.Memory.Effect.{access, granted}
use novagate.Acl.Endpoint.{Store, Parsers, GrantRequest, is_set, time_or_none}

-- The texts of the store's errors; `ids` names the ids that a call wants.
abbrev pub message : String → AclError → String
message ids invalid_visibility = "invalid visibility"
message ids id_required = ids
message ids invalid_range = "valid_to must be >= valid_from"

-- A failed call leaves the store as it was.
abbrev pub committed :
    String
    → InMemoryStore
    → Result AclError InMemoryStore
    → Result String (Unit {0}) × InMemoryStore
committed ids s (ok s') = (ok tt, s')
committed ids s (err e) = (err (message ids e), s)

abbrev pub memory_store : Store
memory_store = record {
  State = InMemoryStore;
  set_visibility =
      λ s tenant doc v. committed "tenant_id/doc_id is required" s (set_visibility s tenant doc v);
  grant = λ clock s tenant doc user valid_from valid_to.
      committed "tenant_id/doc_id/user_id is required" s
        (grant clock s tenant doc user valid_from valid_to);
  revoke = λ s tenant doc user.
      committed "tenant_id/doc_id/user_id is required" s (revoke s tenant doc user);
  revoke_all_user =
      λ s tenant user. committed "tenant_id/user_id is required" s (revoke_all_user s tenant user);
  check_batch = λ clock s tenant user docs now. ok (check_batch clock s tenant user docs now);
  list_grants = λ clock s tenant user now. list_grants clock s tenant user now;
}

module _ (p : Parsers) (clock : Time) (s : InMemoryStore) (req : GrantRequest) where
  -- What a request that is granted leaves in the store.
  unfoldable pub IsGranted : InMemoryStore → Type 0
  IsGranted s' =
      (valid_to : Option Time) × (time_or_none p req.valid_to "valid_to must be RFC3339"
        ≡ ok valid_to)
      × (access s' req.tenant_id req.doc_id req.user_id ≡ granted valid_to)
      × (visibility_of_locked s' req.tenant_id req.doc_id ≡ (
          if is_set req.restricted
          then visibility_restricted
          else visibility_of_locked s req.tenant_id req.doc_id))
