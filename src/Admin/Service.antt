-- ===== src/Admin/Service.antt =====
-- internal/admin/service.go: keys, requests and what the handlers share. The handlers that change
-- something are in Service/Writes, those that read in Service/Reads.
pub mod Writes
pub mod Reads
use novagate.Base.{
  ℕ, suc, zero, ◌+◌, ◌*◌, ◌^◌, Bool, true, false, not, ◌&&◌, ◌||◌, Option, none, some, List, [],
  ◌∷◌, ◌++◌, Result, ok, err, ltb, leb, ◌==◌, length, take, if◌then◌else◌,
}
use novagate.Base.Int.{ℤ, pos, negsuc, ◌-ℤ◌, wrap64}
use novagate.Base.Key.{bytes_beq}
use novagate.Protocol.Bytes.{Bytes}
use novagate.Protocol.Mapper.Text.{trim_space}
use novagate.Server.Registry.{ascii}
use novagate.Acl.RedisServer.{RedisError}
use novagate.Admin.Text.{contains_text, split, scan_int}
use novagate.Admin.Redis.{Redis, Command, del, set, sadd, srem, lpush}
use novagate.Admin.Search.{User, Document, SearchError, Milvus}
use novagate.Admin.Search.Queries.{
  index_user, index_document, search_users, search_documents, search_delete_user,
  search_delete_document,
}
use novagate.Admin.Env.{
  Env, World, Clock, AuditLog, HandlerError, bad_json, not_marshalled, panicked, redis_error,
  Permission, Page, Payload, no_data, one_user, one_document, user_page, document_page, permissions,
  audit_logs, Response, Reply,
}
use novagate.Admin.Pages.{parse_pagination, page_of}
pub mod Created
pub mod Deleted
pub mod Collect
pub mod Listed
pub mod Overflow

abbrev pub audit_logs_key : Bytes
audit_logs_key = ascii "audit:logs"

abbrev pub user_key : Bytes → Bytes
user_key id = ascii "user:" ++ id

abbrev pub doc_key : Bytes → Bytes
doc_key id = ascii "doc:" ++ id

abbrev pub acl_key : Bytes → Bytes → Bytes
acl_key tenant user = ascii "acl:" ++ (tenant ++ (b':' ∷ user))

pub record CreateUserReq : Type 0 where
  pub id : Bytes
  pub name : Bytes
  pub email : Bytes

pub record CreateDocReq : Type 0 where
  pub id : Bytes
  pub title : Bytes
  pub category : Bytes
  pub owner_id : Bytes

pub record PermissionReq : Type 0 where
  pub tenant_id : Bytes
  pub user_id : Bytes
  pub doc_id : Bytes

pub record ListQuery : Type 0 where
  pub keyword : Bytes
  pub page : Bytes
  pub page_size : Bytes

abbrev pub new_user : Clock → CreateUserReq → User
new_user clock req = record {
  id = req.id;
  name = req.name;
  email = req.email;
  created_at = clock.created;
}

abbrev pub new_document : Clock → CreateDocReq → Document
new_document clock req = record {
  id = req.id;
  title = req.title;
  category = req.category;
  owner_id = req.owner_id;
  created_at = clock.created;
}

abbrev pub success : Payload → Reply
success payload = ok (record { code = 200; message = ascii "success"; payload = payload })

abbrev pub answer : ℕ → Bytes → Payload → Reply
answer code message payload = ok (record { code = code; message = message; payload = payload })

-- The values that a loop appends; the others it leaves out.
unfoldable pub collect {ℓ κ} : {A : Type ℓ} {B : Type κ} → (A → Option B) → List A → List B
collect f [] = []
collect f (x ∷ xs) = let rest = collect f xs in elim (f x) [ none ↦ rest | some y ↦ y ∷ rest ]

abbrev pub only_if {ℓ} : {A : Type ℓ} → (A → Bool) → Option A → Option A
only_if p none = none
only_if p (some a) = if p a then some a else none

-- The text under a key, decoded.
abbrev pub decoded {ℓ} : {A : Type ℓ} → (Bytes → Option A) → Result RedisError Bytes → Option A
decoded f (err e) = none
decoded f (ok text) = f text

module _ (to_lower : Bytes → Bytes) where
  -- The keyword without blanks around it in lower case, in one of three texts.
  matches_keyword : Bytes → Bytes → Bytes → Bytes → Bool
  matches_keyword a b c keyword =
      let key = to_lower (trim_space keyword) in
      if bytes_beq keyword [] || bytes_beq key []
      then true
      else contains_text (to_lower a) key
        || contains_text (to_lower b) key
        || contains_text (to_lower c) key

  unfoldable pub user_matches_keyword : Bytes → User → Bool
  unfolding matches_keyword
  user_matches_keyword keyword user = matches_keyword user.name user.id user.email keyword

  unfoldable pub document_matches_keyword : Bytes → Document → Bool
  unfolding matches_keyword
  document_matches_keyword keyword doc = matches_keyword doc.title doc.category doc.id keyword
