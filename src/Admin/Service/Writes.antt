-- ===== src/Admin/Service/Writes.antt =====
-- service.go: the handlers that change something. A handler takes the servers as it finds them and
-- leaves them. The body is what decoding it gives, none on an error.
use novagate.Base.{suc, zero, Option, none, some, List, [], ◌∷◌, ◌++◌, ok, err}
use novagate.Protocol.Bytes.{Bytes}
use novagate.Server.Registry.{ascii}
use novagate.Admin.Redis.{Command, del, set, sadd, srem, lpush}
use novagate.Admin.Search.{SearchError}
use novagate.Admin.Search.Queries.{
  index_user, index_document, search_delete_user, search_delete_document,
}
use novagate.Admin.Env.{
  Env, World, Clock, bad_json, not_marshalled, redis_error, no_data, one_user, one_document, Reply,
}
use novagate.Admin.Service.{
  audit_logs_key, user_key, doc_key, acl_key, CreateUserReq, CreateDocReq, PermissionReq, new_user,
  new_document, answer,
}

module _ (env : Env) where
  open env use {redis, json}

  abbrev pub Handled : Type 0
  Handled = Reply × World env

  -- Its error is never looked at.
  unfoldable pub add_audit_log : Clock → Bytes → Bytes → Bytes → World env → World env
  add_audit_log clock action target message w =
      elim (json.marshal_log (record {
        id = 0;
        action = action;
        target = target;
        message = message;
        timestamp = clock.logged;
      })) [
        | none ↦ w
        | some text ↦ record w { redis = (redis.exec w.redis (lpush audit_logs_key text)).0 }
      ]

  -- A call of the search service, where there is one; its error is printed only.
  abbrev pub with_search :
      (env.milvus.Server → env.milvus.Server × Option SearchError) → World env → World env
  with_search call w = record w {
    search = elim w.search [ none ↦ none | some s ↦ some (call s).0 ];
  }

  -- A write; where it went well, what else is done, an entry in the audit log, and the answer.
  unfoldable pub written :
      World env
      → Command
      → (World env → World env)
      → Clock
      → Bytes
      → Bytes
      → Bytes
      → Reply
      → Handled
  unfolding add_audit_log
  written w c step clock action target message reply =
      let (s, failure) = redis.exec w.redis c in
      elim failure [
        | some e ↦ (err (redis_error e), record w { redis = s })
        | none ↦ (reply, add_audit_log clock action target message (step (record w { redis = s })))
      ]

  unfoldable pub create_user : Clock → Option CreateUserReq → World env → Handled
  unfolding written
  create_user clock none w = (err bad_json, w)
  create_user clock (some req) w = elim (redis.exists w.redis (user_key req.id)) [
    | err e ↦ (err (redis_error e), w)
    | ok (suc n) ↦ (answer 400 (ascii "user already exists") no_data, w)
    | ok zero ↦
        let user = new_user clock req in
        elim (json.marshal_user user) [
          | none ↦ (err not_marshalled, w)
          | some text ↦
              written w (set (user_key req.id) text)
                (with_search (index_user env.floats env.milvus user)) clock (ascii "user_created")
                req.id (ascii "created user: " ++ req.name)
                (answer 200 (ascii "user created") (one_user user))
        ]
  ]

  unfoldable pub create_document : Clock → Option CreateDocReq → World env → Handled
  unfolding written
  create_document clock none w = (err bad_json, w)
  create_document clock (some req) w = elim (redis.exists w.redis (doc_key req.id)) [
    | err e ↦ (err (redis_error e), w)
    | ok (suc n) ↦ (answer 400 (ascii "document already exists") no_data, w)
    | ok zero ↦
        let doc = new_document clock req in
        elim (json.marshal_document doc) [
          | none ↦ (err not_marshalled, w)
          | some text ↦
              written w (set (doc_key req.id) text)
                (with_search
                  (index_document env.floats env.milvus env.parse_layout clock.instant doc))
                clock (ascii "doc_created") req.id (ascii "created document: " ++ req.title)
                (answer 200 (ascii "document created") (one_document doc))
        ]
  ]

  -- The loop that deletes a user's permissions; errors are not looked at.
  unfoldable pub delete_all : List Bytes → World env → World env
  delete_all [] w = w
  delete_all (key ∷ keys) w =
      delete_all keys (record w { redis = (redis.exec w.redis (del key)).0 })

  unfoldable pub delete_permissions : Bytes → World env → World env
  unfolding delete_all
  delete_permissions id w = elim (redis.keys w.redis (ascii "acl:*:" ++ id)) [
    | err e ↦ w
    | ok keys ↦ delete_all keys w
  ]

  unfoldable pub delete_user : Clock → Option Bytes → World env → Handled
  unfolding written delete_permissions
  delete_user clock none w = (err bad_json, w)
  delete_user clock (some id) w =
      written w (del (user_key id))
        (λ w1. delete_permissions id (with_search (search_delete_user env.floats env.milvus id) w1))
        clock (ascii "user_deleted") id (ascii "deleted user: " ++ id)
        (answer 200 (ascii "user deleted") no_data)

  unfoldable pub delete_document : Clock → Option Bytes → World env → Handled
  unfolding written
  delete_document clock none w = (err bad_json, w)
  delete_document clock (some id) w =
      written w (del (doc_key id)) (with_search (search_delete_document env.floats env.milvus id))
        clock (ascii "doc_deleted") id (ascii "deleted document: " ++ id)
        (answer 200 (ascii "document deleted") no_data)

  unfoldable pub grant_permission : Clock → Option PermissionReq → World env → Handled
  unfolding written
  grant_permission clock none w = (err bad_json, w)
  grant_permission clock (some req) w =
      written w (sadd (acl_key req.tenant_id req.user_id) req.doc_id) (λ w1. w1) clock
        (ascii "permission_granted") (req.user_id ++ (b':' ∷ req.doc_id))
        (ascii "granted " ++ (req.user_id ++ (ascii " access to " ++ req.doc_id)))
        (answer 200 (ascii "permission granted") no_data)

  unfoldable pub revoke_permission : Clock → Option PermissionReq → World env → Handled
  unfolding written
  revoke_permission clock none w = (err bad_json, w)
  revoke_permission clock (some req) w =
      written w (srem (acl_key req.tenant_id req.user_id) req.doc_id) (λ w1. w1) clock
        (ascii "permission_revoked") (req.user_id ++ (b':' ∷ req.doc_id))
        (ascii "revoked " ++ (req.user_id ++ (ascii " access to " ++ req.doc_id)))
        (answer 200 (ascii "permission revoked") no_data)
