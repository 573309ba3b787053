-- ===== src/Acl/Endpoint.antt =====
-- services/acl/biz/handler/acl.go: the HTTP endpoints, over the Store interface of store_interface.go.
-- A request is what Bind makes of the body, `none` on an error. github.com/google/uuid and time.Parse
-- are parameters.
pub mod Outage
pub mod Writes
pub mod Tests
use text.Mathlib.Text.{◌==◌ as str_eq}
use novagate.Base.{
  String, Bool, true, false, not, ◌||◌, Option, none, some, List, [], ◌∷◌, Result, ok, err,
  if◌then◌else◌,
}
use novagate.Acl.Model.{Time, Visibility, visibility_restricted}

-- The interface Store, with the clock's reading where an implementation takes one. An error is its
-- text.
pub record Store : Type 1 where
  pub State : Type 0
  pub set_visibility : State → String → String → Visibility → Result String (Unit {0}) × State
  pub grant :
      Time
      → State
      → String
      → String
      → String
      → Time
      → Option Time
      → Result String (Unit {0}) × State
  pub revoke : State → String → String → String → Result String (Unit {0}) × State
  pub revoke_all_user : State → String → String → Result String (Unit {0}) × State
  pub check_batch :
      Time → State → String → String → List String → Time → Result String (Option (List String))
  pub list_grants : Time → State → String → String → Time → Option (List String)

-- uuid.Parse without its value, and time.Parse with RFC3339Nano.
pub record Parsers : Type 0 where
  pub is_uuid : String → Bool
  pub parse_time : String → Option Time

-- Status 400 with an error, 200 with a list of ids, which may be nil, and 200 with no body.
pub data Response : Type 0 where
  bad_request : String → Response
  allowed_doc_ids granted_doc_ids : Option (List String) → Response
  status_ok : Response

pub record CheckBatchRequest : Type 0 where
  pub tenant_id : String
  pub user_id : String
  pub doc_ids : List String
  pub now : String

pub record GrantRequest : Type 0 where
  pub tenant_id : String
  pub doc_id : String
  pub user_id : String
  pub valid_from : String
  pub valid_to : String
  pub restricted : Option Bool

pub record RevokeRequest : Type 0 where
  pub tenant_id : String
  pub doc_id : String
  pub user_id : String

pub record RevokeAllUserRequest : Type 0 where
  pub tenant_id : String
  pub user_id : String

abbrev pub err_invalid_json : String
err_invalid_json = "invalid json"

abbrev pub err_tenant_user_uuid : String
err_tenant_user_uuid = "tenant_id and user_id must be uuid"

abbrev pub err_all_uuid : String
err_all_uuid = "tenant_id/doc_id/user_id must be uuid"

abbrev pub is_set : Option Bool → Bool
is_set none = false
is_set (some b) = b

module _ (p : Parsers) where
  abbrev pub all_uuid : List String → Bool
  all_uuid [] = true
  all_uuid (id ∷ ids) = if not (p.is_uuid id) then false else all_uuid ids

  -- An empty text stands for the clock's reading.
  unfoldable pub time_or_now : Time → String → String → Result String Time
  time_or_now clock text message =
      if str_eq text ""
      then ok clock
      else elim (p.parse_time text) [ none ↦ err message | some t ↦ ok t ]

  -- An empty text stands for no end.
  unfoldable pub time_or_none : String → String → Result String (Option Time)
  time_or_none text message =
      if str_eq text ""
      then ok none
      else elim (p.parse_time text) [ none ↦ err message | some t ↦ ok (some t) ]

module _ (store : Store) (p : Parsers) where
  abbrev pub Reply : Type 0
  Reply = Response × store.State

  -- A nil error is a plain 200, another is a 400 with its text.
  unfoldable pub answer_of : Result String (Unit {0}) × store.State → Reply
  answer_of (ok _, s) = (status_ok, s)
  answer_of (err e, s) = (bad_request e, s)

  checked_docs : Result String (Option (List String)) → Response
  checked_docs (err e) = allowed_doc_ids (some [])
  checked_docs (ok docs) = allowed_doc_ids docs

  unfoldable pub acl_check_batch : Time → store.State → Option CheckBatchRequest → Response
  unfolding checked_docs
  acl_check_batch clock s none = bad_request err_invalid_json
  acl_check_batch clock s (some req) =
      if not (p.is_uuid req.tenant_id) || not (p.is_uuid req.user_id)
      then bad_request err_tenant_user_uuid
      else if not (all_uuid p req.doc_ids)
      then bad_request "doc_ids must be uuid"
      else elim (time_or_now p clock req.now "now must be RFC3339") [
        | err message ↦ bad_request message
        | ok now ↦
            checked_docs (store.check_batch clock s req.tenant_id req.user_id req.doc_ids now)
      ]

  unfoldable pub acl_list_grants : Time → store.State → String → String → String → Response
  acl_list_grants clock s tenant_id user_id now_str =
      if not (p.is_uuid tenant_id) || not (p.is_uuid user_id)
      then bad_request err_tenant_user_uuid
      else elim (time_or_now p clock now_str "now must be RFC3339") [
        | err message ↦ bad_request message
        | ok now ↦ granted_doc_ids (store.list_grants clock s tenant_id user_id now)
      ]

  -- The visibility is set first, if that is asked for.
  unfoldable pub restrict_first :
      store.State → GrantRequest → Result String (Unit {0}) × store.State
  restrict_first s req =
      if is_set req.restricted
      then store.set_visibility s req.tenant_id req.doc_id visibility_restricted
      else (ok tt, s)

  unfoldable pub grant_after :
      Time → GrantRequest → Time → Option Time → Result String (Unit {0}) × store.State → Reply
  unfolding answer_of
  grant_after clock req valid_from valid_to (err e, s) = (bad_request e, s)
  grant_after clock req valid_from valid_to (ok _, s) =
      answer_of (store.grant clock s req.tenant_id req.doc_id req.user_id valid_from valid_to)

  unfoldable pub acl_grant : Time → store.State → Option GrantRequest → Reply
  unfolding restrict_first grant_after
  acl_grant clock s none = (bad_request err_invalid_json, s)
  acl_grant clock s (some req) =
      if not (p.is_uuid req.tenant_id) || not (p.is_uuid req.doc_id) || not (p.is_uuid req.user_id)
      then (bad_request err_all_uuid, s)
      else elim (time_or_now p clock req.valid_from "valid_from must be RFC3339") [
        | err message ↦ (bad_request message, s)
        | ok valid_from ↦ elim (time_or_none p req.valid_to "valid_to must be RFC3339") [
          | err message ↦ (bad_request message, s)
          | ok valid_to ↦ grant_after clock req valid_from valid_to (restrict_first s req)
        ]
      ]

  unfoldable pub acl_revoke : store.State → Option RevokeRequest → Reply
  unfolding answer_of
  acl_revoke s none = (bad_request err_invalid_json, s)
  acl_revoke s (some req) =
      if not (p.is_uuid req.tenant_id) || not (p.is_uuid req.doc_id) || not (p.is_uuid req.user_id)
      then (bad_request err_all_uuid, s)
      else answer_of (store.revoke s req.tenant_id req.doc_id req.user_id)

  unfoldable pub acl_revoke_all_user : store.State → Option RevokeAllUserRequest → Reply
  unfolding answer_of
  acl_revoke_all_user s none = (bad_request err_invalid_json, s)
  acl_revoke_all_user s (some req) =
      if not (p.is_uuid req.tenant_id) || not (p.is_uuid req.user_id)
      then (bad_request err_tenant_user_uuid, s)
      else answer_of (store.revoke_all_user s req.tenant_id req.user_id)
