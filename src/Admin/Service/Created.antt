-- ===== src/Admin/Service/Created.antt =====
-- service.go: what CreateUser and CreateDocument leave in Redis.
use novagate.Base.{
  ℕ, suc, zero, ◌≡◌, ◌≢◌, refl, ◌∙◌, Option, none, some, ◌++◌, Result, ok, err, inl, inr,
  Option-cases,
}
use novagate.Base.Key.{bytes_key, beq_ne}
use novagate.Protocol.Bytes.{Bytes}
use novagate.Acl.RedisServer.{RedisError}
use novagate.Admin.Redis.{Command, set, lpush, effect, IsRedis, exec_cases}
use novagate.Server.Registry.{ascii}
use novagate.Admin.Search.Queries.{index_user, index_document}
use novagate.Admin.Env.{Env, World, Clock, Reply, one_user, one_document}
use novagate.Admin.Service.{
  new_user, new_document, CreateUserReq, CreateDocReq, user_key, doc_key, audit_logs_key, answer,
}
use novagate.Admin.Service.Writes.{
  add_audit_log, written, with_search, create_user, create_document,
}

module _ (env : Env) (law : IsRedis env.redis) where
  abbrev pub text_of : World env → Bytes → Option Bytes
  text_of w k = (law.holds w.redis).text k

  -- A push to a list changes no text, whether it fails or not.
  text-lpush :
      (s : env.redis.Server) (key v k : Bytes)
      → (law.holds (env.redis.exec s (lpush key v)).0).text k ≡ (law.holds s).text k
  unfolding effect
  text-lpush s key v k = elim (exec_cases env.redis law s (lpush key v)) [
    | inl same ↦ rw same
    | inr done ↦ rw done
  ]

  text-set_ne :
      (s : env.redis.Server) (key v k : Bytes)
      → key ≢ k
      → (law.holds (env.redis.exec s (set key v)).0).text k ≡ (law.holds s).text k
  unfolding effect
  text-set_ne s key v k ne = elim (exec_cases env.redis law s (set key v)) [
    | inl same ↦ rw same
    | inr done ↦ rw (done, beq_ne key k ne)
  ]

  pub text-add_audit_log :
      (clock : Clock) (action target message : Bytes) (w : World env) (k : Bytes)
      → text_of (add_audit_log env clock action target message w) k ≡ text_of w k
  unfolding add_audit_log
  text-add_audit_log clock action target message w k =
      elim (Option-cases (
        env.json.marshal_log (record {
          id = 0;
          action = action;
          target = target;
          message = message;
          timestamp = clock.logged;
        }))) [
          | inl never ↦ rw (never, add_audit_log)
          | inr (text, e) ↦ rw (e, add_audit_log) (text-lpush w.redis audit_logs_key text k)
        ]

  text-written :
      (w : World env) (c : Command) (step : World env → World env) (clock : Clock)
      (action target message : Bytes) (reply : Reply) (k : Bytes)
      → ((w1 : World env) → text_of (step w1) k ≡ text_of w1 k)
      → text_of (written env w c step clock action target message reply).1 k
        ≡ (law.holds (env.redis.exec w.redis c).0).text k
  unfolding written
  text-written w c step clock action target message reply k keep =
      let w1 = record w { redis = (env.redis.exec w.redis c).0 } in
      elim (Option-cases (env.redis.exec w.redis c).1) [
        | inl done ↦
            rw (done, written)
              (text-add_audit_log clock action target message (step w1) k ∙ keep w1)
        | inr (e, failed) ↦ rw (failed, written)
      ]

  -- A key that EXISTS does not know is no key with a text.
  other_key :
      (w : World env) (key k v : Bytes)
      → env.redis.exists w.redis key ≡ ok 0
      → text_of w k ≡ some v
      → key ≢ k
  other_key w key k v missing there same =
      let gone = law.exists_none w.redis key missing in cc (there, gone, same)

  create_user_text :
      (clock : Clock) (req : CreateUserReq) (w : World env) (k v : Bytes)
      (answered : Result RedisError ℕ)
      → env.redis.exists w.redis (user_key req.id) ≡ answered
      → text_of w k ≡ some v
      → text_of (create_user env clock (some req) w).1 k ≡ some v
  unfolding create_user
  create_user_text clock req w k v (err e) a h = rw (a, create_user) h
  create_user_text clock req w k v (ok (suc n)) a h = rw (a, create_user) h
  create_user_text clock req w k v (ok zero) a h =
      let user = new_user clock req in
      elim (Option-cases (env.json.marshal_user user)) [
        | inl never ↦ rw (a, create_user) (rw never h)
        | inr (text, e) ↦
            rw (a, create_user)
              (rw e (
                text-written w (set (user_key req.id) text)
                  (with_search env (index_user env.floats env.milvus user)) clock
                  (ascii "user_created") req.id (ascii "created user: " ++ req.name)
                  (answer 200 (ascii "user created") (one_user user)) k (λ w1. refl)
                ∙ text-set_ne w.redis (user_key req.id) text k
                    (other_key w (user_key req.id) k v a h)
                ∙ h))
      ]

  create_document_text :
      (clock : Clock) (req : CreateDocReq) (w : World env) (k v : Bytes)
      (answered : Result RedisError ℕ)
      → env.redis.exists w.redis (doc_key req.id) ≡ answered
      → text_of w k ≡ some v
      → text_of (create_document env clock (some req) w).1 k ≡ some v
  unfolding create_document
  create_document_text clock req w k v (err e) a h = rw (a, create_document) h
  create_document_text clock req w k v (ok (suc n)) a h = rw (a, create_document) h
  create_document_text clock req w k v (ok zero) a h =
      let doc = new_document clock req in
      elim (Option-cases (env.json.marshal_document doc)) [
        | inl never ↦ rw (a, create_document) (rw never h)
        | inr (text, e) ↦
            rw (a, create_document)
              (rw e (
                text-written w (set (doc_key req.id) text)
                  (with_search env
                    (index_document env.floats env.milvus env.parse_layout clock.instant doc))
                  clock (ascii "doc_created") req.id (ascii "created document: " ++ req.title)
                  (answer 200 (ascii "document created") (one_document doc)) k (λ w1. refl)
                ∙ text-set_ne w.redis (doc_key req.id) text k (other_key w (doc_key req.id) k v a h)
                ∙ h))
      ]

  -- On a server that keeps Redis's documented effects, CreateUser and CreateDocument overwrite nothing:
  -- whatever text stands under any key before a call still stands there after it, whether the call
  -- succeeds, is refused or fails half-way, and whatever the search service does.
  pub created-keeps :
      (clock : Clock) (user : Option CreateUserReq) (doc : Option CreateDocReq) (w : World env)
      (k v : Bytes)
      → text_of w k ≡ some v
      → (text_of (create_user env clock user w).1 k ≡ some v)
        × (text_of (create_document env clock doc w).1 k ≡ some v)
  unfolding create_user create_document
  created-keeps clock user doc w k v h = (user_part user, doc_part doc)
    where
      user_part : (r : Option CreateUserReq) → text_of (create_user env clock r w).1 k ≡ some v
      user_part none = h
      user_part (some req) =
          create_user_text clock req w k v (env.redis.exists w.redis (user_key req.id)) refl h

      doc_part : (r : Option CreateDocReq) → text_of (create_document env clock r w).1 k ≡ some v
      doc_part none = h
      doc_part (some req) =
          create_document_text clock req w k v (env.redis.exists w.redis (doc_key req.id)) refl h
