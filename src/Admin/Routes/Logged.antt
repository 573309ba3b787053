-- ===== src/Admin/Routes/Logged.antt =====
-- The audit log: which requests enter it, and what is read of it.
use mathlib.Core.Path.{ap₂}
use novagate.Base.{
  ℕ, suc, zero, ◌≡◌, refl, ap, ◌∙◌, true, none, some, List, [], ◌∷◌, ◌++◌, Result, ok, err, inl,
  inr, arith, Option-cases, length, take,
}
use novagate.Base.Int.{pos, ◌-ℤ◌, wrap64, wrap64-pos, pos--ℤ}
use novagate.Base.Key.{bytes_key, nat_key}
use novagate.Protocol.Bytes.{Bytes}
use novagate.Server.Registry.{ascii}
use novagate.Acl.RedisServer.{RedisError}
use novagate.Admin.Redis.{del, set, sadd, srem, effect, IsRedis, IsUp, IsWriting}
use novagate.Admin.Search.Queries.{
  index_user, index_document, search_delete_user, search_delete_document,
}
use novagate.Admin.Env.{Env, World, Clock, AuditLog, one_user, one_document, no_data, audit_logs}
use novagate.Admin.Service.{
  new_user, new_document, CreateUserReq, CreateDocReq, PermissionReq, user_key, doc_key, acl_key,
  audit_logs_key, answer, success,
}
use novagate.Admin.Service.Writes.{
  with_search, delete_permissions, create_user, create_document, delete_user, delete_document,
  grant_permission, revoke_permission,
}
use novagate.Admin.Service.Reads.{get_audit_logs, numbered}
use novagate.Admin.Service.Deleted.{written_done}
use novagate.Admin.Routes.{
  Request, get_users, get_documents, post_user, post_document, remove_user, remove_document,
  get_permissions, post_permission, remove_permission, get_audit_log, other_method, serve,
  with_json,
}
use novagate.Admin.Routes.Entries.{
  logged_by, went_well, entries_of, after_request, entries-logged, entries-delete_permissions,
  after_none,
}

module _ (env : Env) (law : IsRedis env.redis) where
  module _ (up : (s : env.redis.Server) → IsUp env.redis law s) (writing : IsWriting env.redis)
      (text : AuditLog → Bytes)
      (marshals : (log : AuditLog) → env.json.marshal_log log ≡ some (text log)) where
    abbrev Logged : Clock → Request → World env → Type 0
    Logged clock req w =
        entries_of env law (serve env clock req w).1
        ≡ after_request env law text (went_well (serve env clock req w).0) (logged_by clock req)
            (entries_of env law w)

    post_user-Logged :
        (clock : Clock) (req : CreateUserReq) (w : World env) (answered : Result RedisError ℕ)
        → env.redis.exists w.redis (user_key req.id) ≡ answered
        → Logged clock (post_user (some req)) w
    unfolding serve with_json went_well logged_by create_user effect
    post_user-Logged clock req w (err e) a = rw (a, create_user)
    post_user-Logged clock req w (ok (suc n)) a = rw (a, create_user)
    post_user-Logged clock req w (ok zero) a =
        let user = new_user clock req in
        let step = with_search env (index_user env.floats env.milvus user) in
        elim (Option-cases (env.json.marshal_user user)) [
          | inl never ↦ rw (a, create_user) (rw never refl)
          | inr (value, e) ↦
              rw (a, create_user)
                (rw e (
                  rw
                    (written_done env w (set (user_key req.id) value) step clock
                      (ascii "user_created") req.id (ascii "created user: " ++ req.name)
                      (answer 200 (ascii "user created") (one_user user)) writing)
                    (entries-logged env law up writing text marshals w (set (user_key req.id) value)
                      step clock (ascii "user_created") req.id (ascii "created user: " ++ req.name)
                      (λ w1. refl) refl)))
        ]

    post_document-Logged :
        (clock : Clock) (req : CreateDocReq) (w : World env) (answered : Result RedisError ℕ)
        → env.redis.exists w.redis (doc_key req.id) ≡ answered
        → Logged clock (post_document (some req)) w
    unfolding serve with_json went_well logged_by create_document effect
    post_document-Logged clock req w (err e) a = rw (a, create_document)
    post_document-Logged clock req w (ok (suc n)) a = rw (a, create_document)
    post_document-Logged clock req w (ok zero) a =
        let doc = new_document clock req in
        let step =
          with_search env
            (index_document env.floats env.milvus env.parse_layout clock.instant doc) in
        elim (Option-cases (env.json.marshal_document doc)) [
          | inl never ↦ rw (a, create_document) (rw never refl)
          | inr (value, e) ↦
              rw (a, create_document)
                (rw e (
                  rw
                    (written_done env w (set (doc_key req.id) value) step clock
                      (ascii "doc_created") req.id (ascii "created document: " ++ req.title)
                      (answer 200 (ascii "document created") (one_document doc)) writing)
                    (entries-logged env law up writing text marshals w (set (doc_key req.id) value)
                      step clock (ascii "doc_created") req.id
                      (ascii "created document: " ++ req.title) (λ w1. refl) refl)))
        ]

    remove_user-Logged :
        (clock : Clock) (id : Bytes) (w : World env) → Logged clock (remove_user (some id)) w
    unfolding serve with_json went_well logged_by delete_user effect
    remove_user-Logged clock id w =
        let step = λ (w2 : World env).
          delete_permissions env id
            (with_search env (search_delete_user env.floats env.milvus id) w2) in
        rw
          (written_done env w (del (user_key id)) step clock (ascii "user_deleted") id
            (ascii "deleted user: " ++ id) (answer 200 (ascii "user deleted") no_data) writing)
          (entries-logged env law up writing text marshals w (del (user_key id)) step clock
            (ascii "user_deleted") id (ascii "deleted user: " ++ id)
            (λ w1.
              entries-delete_permissions env law up writing text marshals id
                (with_search env (search_delete_user env.floats env.milvus id) w1))
            refl)

    remove_document-Logged :
        (clock : Clock) (id : Bytes) (w : World env) → Logged clock (remove_document (some id)) w
    unfolding serve with_json went_well logged_by delete_document effect
    remove_document-Logged clock id w =
        let step = with_search env (search_delete_document env.floats env.milvus id) in
        rw
          (written_done env w (del (doc_key id)) step clock (ascii "doc_deleted") id
            (ascii "deleted document: " ++ id) (answer 200 (ascii "document deleted") no_data)
            writing)
          (entries-logged env law up writing text marshals w (del (doc_key id)) step clock
            (ascii "doc_deleted") id (ascii "deleted document: " ++ id) (λ w1. refl) refl)

    post_permission-Logged :
        (clock : Clock) (req : PermissionReq) (w : World env)
        → Logged clock (post_permission (some req)) w
    unfolding serve with_json went_well logged_by grant_permission effect
    post_permission-Logged clock req w =
        let c = sadd (acl_key req.tenant_id req.user_id) req.doc_id in
        let target = req.user_id ++ (b':' ∷ req.doc_id) in
        let message = ascii "granted " ++ (req.user_id ++ (ascii " access to " ++ req.doc_id)) in
        rw
          (written_done env w c (λ w1. w1) clock (ascii "permission_granted") target message
            (answer 200 (ascii "permission granted") no_data) writing)
          (entries-logged env law up writing text marshals w c (λ w1. w1) clock
            (ascii "permission_granted") target message (λ w1. refl) refl)

    remove_permission-Logged :
        (clock : Clock) (req : PermissionReq) (w : World env)
        → Logged clock (remove_permission (some req)) w
    unfolding serve with_json went_well logged_by revoke_permission effect
    remove_permission-Logged clock req w =
        let c = srem (acl_key req.tenant_id req.user_id) req.doc_id in
        let target = req.user_id ++ (b':' ∷ req.doc_id) in
        let message = ascii "revoked " ++ (req.user_id ++ (ascii " access to " ++ req.doc_id)) in
        rw
          (written_done env w c (λ w1. w1) clock (ascii "permission_revoked") target message
            (answer 200 (ascii "permission revoked") no_data) writing)
          (entries-logged env law up writing text marshals w c (λ w1. w1) clock
            (ascii "permission_revoked") target message (λ w1. refl) refl)

    -- On a Redis server that answers and fails no command, and with log entries that can be marshalled:
    -- a request that changes something puts exactly its entry in front of the audit log if it is answered
    -- with code 200, and leaves the log as it was otherwise; so does every request that only reads.
    pub serve_logged :
        (clock : Clock) (req : Request) (w : World env)
        → entries_of env law (serve env clock req w).1
          ≡ after_request env law text
              (went_well (serve env clock req w).0)
              (logged_by clock req)
              (entries_of env law w)
    unfolding serve with_json went_well logged_by create_user create_document delete_user
        delete_document grant_permission revoke_permission
    serve_logged clock (get_users q) w = after_none env law up writing text marshals _ _
    serve_logged clock (get_documents q) w = after_none env law up writing text marshals _ _
    serve_logged clock (get_permissions tenant) w = after_none env law up writing text marshals _ _
    serve_logged clock (get_audit_log limit) w = after_none env law up writing text marshals _ _
    serve_logged clock other_method w = refl
    serve_logged clock (post_user none) w = refl
    serve_logged clock (post_user (some req)) w =
        post_user-Logged clock req w (env.redis.exists w.redis (user_key req.id)) refl
    serve_logged clock (post_document none) w = refl
    serve_logged clock (post_document (some req)) w =
        post_document-Logged clock req w (env.redis.exists w.redis (doc_key req.id)) refl
    serve_logged clock (remove_user none) w = refl
    serve_logged clock (remove_user (some id)) w = remove_user-Logged clock id w
    serve_logged clock (remove_document none) w = refl
    serve_logged clock (remove_document (some id)) w = remove_document-Logged clock id w
    serve_logged clock (post_permission none) w = refl
    serve_logged clock (post_permission (some req)) w = post_permission-Logged clock req w
    serve_logged clock (remove_permission none) w = refl
    serve_logged clock (remove_permission (some req)) w = remove_permission-Logged clock req w

    -- The log without a limit: its first 50 entries.
    newest :
        (w : World env) (log : AuditLog) (old : List Bytes)
        → entries_of env law w ≡ text log ∷ old
        → env.json.unmarshal_log (text log) ≡ some log
        → get_audit_logs env [] w
          ≡ success (
              audit_logs
                (suc (length old))
                (pos 50)
                ((record log { id = 1 }) ∷ numbered env 2 (take 49 old)))
    unfolding get_audit_logs numbered
    newest w log old holds reads =
        let end : wrap64 (pos 50 -ℤ pos 1) ≡ pos 49 =
          ap wrap64 (pos--ℤ 50 1 (omega arith)) ∙ wrap64-pos 49 (omega arith) in
        rw ((up w.redis).lengths audit_logs_key, get_audit_logs)
          (rw end
            (rw ((up w.redis).ranges audit_logs_key 49) (rw holds (rw (reads, numbered) refl))))

    -- On a Redis server that answers and fails no command, and with log entries that can be marshalled
    -- and are read back as they were: right behind a request that was answered with code 200 and had
    -- something to log, the audit log without a limit starts with that request's entry, under the id 1,
    -- and announces one entry more than there were before.
    pub get_audit_logs-serve :
        (clock : Clock) (req : Request) (w : World env) (log : AuditLog)
        → logged_by clock req ≡ some log
        → went_well (serve env clock req w).0 ≡ true
        → env.json.unmarshal_log (text log) ≡ some log
        → (rest : List AuditLog) × (get_audit_logs env [] (serve env clock req w).1
            ≡ success (
                audit_logs
                  (suc (length (entries_of env law w)))
                  (pos 50)
                  ((record log { id = 1 }) ∷ rest)))
    get_audit_logs-serve clock req w log logged well reads =
        let w1 = (serve env clock req w).1 in
        let now_first : entries_of env law w1 ≡ text log ∷ entries_of env law w =
          serve_logged clock req w
          ∙ ap₂ (λ b o. after_request env law text b o (entries_of env law w)) well logged in
        (
          numbered env 2 (take 49 (entries_of env law w)),
          newest w1 log (entries_of env law w) now_first reads,
        )
