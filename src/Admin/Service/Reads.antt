-- ===== src/Admin/Service/Reads.antt =====
-- service.go: the handlers that read. All reads of one handler see one server.
use novagate.Base.{ℕ, ◌+◌, Option, none, some, List, [], ◌∷◌, ◌++◌, Result, ok, err, if◌then◌else◌}
use novagate.Base.Int.{pos, ◌-ℤ◌, wrap64}
use novagate.Base.Key.{bytes_beq}
use novagate.Protocol.Bytes.{Bytes}
use novagate.Server.Registry.{ascii}
use novagate.Admin.Text.{split, scan_int}
use novagate.Admin.Search.{User, Document, SearchError}
use novagate.Admin.Search.Queries.{search_users, search_documents}
use novagate.Admin.Env.{
  Env, World, AuditLog, panicked, redis_error, Permission, Payload, user_page, document_page,
  permissions, audit_logs, Reply,
}
use novagate.Admin.Pages.{parse_pagination, page_of}
use novagate.Admin.Service.{
  audit_logs_key, user_key, doc_key, ListQuery, success, collect, only_if, decoded,
  user_matches_keyword, document_matches_keyword,
}

module _ (env : Env) where
  open env use {redis, json}

  -- The record under a key, none where it cannot be read or decoded.
  unfoldable pub user_under : World env → Bytes → Option User
  user_under w key = decoded json.unmarshal_user (redis.get w.redis key)

  unfoldable pub document_under : World env → Bytes → Option Document
  document_under w key = decoded json.unmarshal_document (redis.get w.redis key)

  unfoldable pub get_users_by_string_match : World env → Bytes → List User
  unfolding user_under
  get_users_by_string_match w keyword = elim (redis.keys w.redis (ascii "user:*")) [
    | err e ↦ []
    | ok keys ↦
        collect (λ key. only_if (user_matches_keyword env.to_lower keyword) (user_under w key)) keys
  ]

  unfoldable pub get_docs_by_string_match : World env → Bytes → List Document
  unfolding document_under
  get_docs_by_string_match w keyword = elim (redis.keys w.redis (ascii "doc:*")) [
    | err e ↦ []
    | ok keys ↦
        collect
          (λ key. only_if (document_matches_keyword env.to_lower keyword) (document_under w key))
          keys
  ]

  -- The ids that a search finds; none where it is not made, fails or finds nothing.
  abbrev pub found_ids :
      Option env.milvus.Server
      → Bytes
      → (env.milvus.Server → Result SearchError (List Bytes))
      → Option (List Bytes)
  found_ids none keyword search = none
  found_ids (some s) keyword search =
      if bytes_beq keyword []
      then none
      else elim (search s) [ err e ↦ none | ok [] ↦ none | ok (id ∷ ids) ↦ some (id ∷ ids) ]

  unfoldable pub found_users : World env → Bytes → List User
  unfolding get_users_by_string_match user_under
  found_users w keyword =
      elim (found_ids w.search keyword (λ s. search_users env.floats env.milvus s keyword 100)) [
        | none ↦ get_users_by_string_match w keyword
        | some ids ↦ collect (λ id. user_under w (user_key id)) ids
      ]

  unfoldable pub found_documents : World env → Bytes → List Document
  unfolding get_docs_by_string_match document_under
  found_documents w keyword =
      elim (found_ids w.search keyword
        (λ s. search_documents env.floats env.milvus s keyword 100)) [
          | none ↦ get_docs_by_string_match w keyword
          | some ids ↦ collect (λ id. document_under w (doc_key id)) ids
        ]

  abbrev pub paged {ℓ} : {A : Type ℓ} → (A → Payload) → Option A → Reply
  paged f none = err panicked
  paged f (some page) = success (f page)

  unfoldable pub list_users : ListQuery → World env → Reply
  unfolding found_users
  list_users q w =
      paged user_page (page_of (found_users w q.keyword) (parse_pagination q.page q.page_size))

  unfoldable pub list_documents : ListQuery → World env → Reply
  unfolding found_documents
  list_documents q w =
      paged document_page
        (page_of (found_documents w q.keyword) (parse_pagination q.page q.page_size))

  -- tenant, user and documents of one key, which must have three parts.
  unfoldable pub permission_of : World env → List Bytes → List Bytes → Option Permission
  permission_of w doc_ids (_ ∷ tenant ∷ user ∷ []) = some (record {
    tenant_id = tenant;
    user_id = user;
    doc_ids = doc_ids;
    documents = collect (λ id. document_under w (doc_key id)) doc_ids;
  })
  permission_of w doc_ids _ = none

  unfoldable pub permission_under : World env → Bytes → Option Permission
  unfolding permission_of
  permission_under w key = elim (redis.members w.redis key) [
    | err e ↦ none
    | ok doc_ids ↦ permission_of w doc_ids (split key b':')
  ]

  unfoldable pub list_permissions : Bytes → World env → Reply
  unfolding permission_under
  list_permissions tenant_id w =
      let tenant = if bytes_beq tenant_id [] then ascii "tenant-001" else tenant_id in
      elim (redis.keys w.redis (ascii "acl:" ++ (tenant ++ ascii ":*"))) [
        | err e ↦ err (redis_error e)
        | ok keys ↦ success (permissions (collect (permission_under w) keys))
      ]

  -- Entries that decode, each with its place as its id.
  unfoldable pub numbered : ℕ → List Bytes → List AuditLog
  numbered i [] = []
  numbered i (text ∷ texts) =
      let rest = numbered (i + 1) texts in
      elim (json.unmarshal_log text) [ none ↦ rest | some log ↦ (record log { id = i }) ∷ rest ]

  unfoldable pub get_audit_logs : Bytes → World env → Reply
  unfolding numbered
  get_audit_logs query w =
      let limit = if bytes_beq query [] then pos 50 else scan_int query (pos 50) in
      elim (redis.list_length w.redis audit_logs_key) [
        | err e ↦ err (redis_error e)
        | ok count ↦ elim (redis.range w.redis audit_logs_key (pos 0) (wrap64 (limit -ℤ pos 1))) [
          | err e ↦ err (redis_error e)
          | ok texts ↦ success (audit_logs count limit (numbered 1 texts))
        ]
      ]
