-- ===== src/Admin/Service/Deleted.antt =====
-- service.go: what DeleteUser and DeleteDocument take away.
use novagate.Base.{
  ◌≡◌, refl, ap, ◌∙◌, Bool, true, false, not, ◌&&◌, Option, none, some, List, [], ◌∷◌, ◌++◌, inl,
  inr, arith, Option-cases,
}
use novagate.Base.Key.{◌==◌, bytes_key}
use novagate.Protocol.Bytes.{Bytes}
use novagate.Server.Registry.{ascii}
use novagate.Admin.Redis.{
  Command, del, lpush, effect, IsRedis, IsUp, IsWriting, IsPlain, contains, exec_cases, exec_writes,
}
use novagate.Admin.Search.Queries.{search_delete_user}
use novagate.Admin.Env.{Env, World, Clock, Reply, no_data}
use novagate.Admin.Service.{user_key, doc_key, acl_key, audit_logs_key, answer}
use novagate.Admin.Service.Writes.{
  add_audit_log, written, with_search, delete_all, delete_permissions, delete_user, delete_document,
}

-- A handler's write on a server on which no command fails.
pub written_done :
    (env : Env) (w : World env) (c : Command) (step : World env → World env) (clock : Clock)
    (action target message : Bytes) (reply : Reply)
    → IsWriting env.redis
    → written env w c step clock action target message reply ≡ (
      reply,
      add_audit_log env clock action target message
          (step (record w { redis = (env.redis.exec w.redis c).0 })),
    )
unfolding written
written_done env w c step clock action target message reply writing =
    rw (writing w.redis c, written)

pub acl-IsPlain : IsPlain (ascii "acl:")
acl-IsPlain = (refl, (refl, (refl, (refl, tt))))

module _ (env : Env) (law : IsRedis env.redis) where
  abbrev pub has_of : World env → Bytes → Bytes → Bool
  has_of w k u = (law.holds w.redis).has k u

  has-lpush :
      (s : env.redis.Server) (key v k u : Bytes)
      → (law.holds (env.redis.exec s (lpush key v)).0).has k u ≡ (law.holds s).has k u
  unfolding effect
  has-lpush s key v k u = elim (exec_cases env.redis law s (lpush key v)) [
    | inl same ↦ rw same
    | inr done ↦ rw done
  ]

  pub has-add_audit_log :
      (clock : Clock) (action target message : Bytes) (w : World env) (k u : Bytes)
      → has_of (add_audit_log env clock action target message w) k u ≡ has_of w k u
  unfolding add_audit_log
  has-add_audit_log clock action target message w k u =
      elim (Option-cases (
        env.json.marshal_log (record {
          id = 0;
          action = action;
          target = target;
          message = message;
          timestamp = clock.logged;
        }))) [
          | inl never ↦ rw (never, add_audit_log)
          | inr (text, e) ↦ rw (e, add_audit_log) (has-lpush w.redis audit_logs_key text k u)
        ]

  -- DeleteDocument takes away no permission: who held one on the document still holds it, also where a
  -- document is created under the same id later, and so does everybody else.
  delete_document_keeps_grants :
      (clock : Clock) (id : Option Bytes) (w : World env) (tenant user doc : Bytes)
      → has_of (delete_document env clock id w).1 (acl_key tenant user) doc
        ≡ has_of w (acl_key tenant user) doc
  unfolding delete_document written effect
  delete_document_keeps_grants clock none w tenant user doc = refl
  delete_document_keeps_grants clock (some id) w tenant user doc =
      let s = env.redis.exec w.redis (del (doc_key id)) in
      let kept : (law.holds s.0).has (acl_key tenant user) doc
          ≡ has_of w (acl_key tenant user) doc =
        elim (exec_cases env.redis law w.redis (del (doc_key id))) [
          | inl same ↦ rw same
          | inr done ↦ rw done
        ] in
      elim (Option-cases s.1) [
        | inl done ↦
            rw (done, delete_document, written)
              (has-add_audit_log clock _ _ _ _ (acl_key tenant user) doc ∙ kept)
        | inr (e, failed) ↦ rw (failed, delete_document, written) kept
      ]

  -- On a server that answers and on which no command fails.
  module _ (up : (s : env.redis.Server) → IsUp env.redis law s)
      (writing : IsWriting env.redis) where
    has-delete_all :
        (keys : List Bytes) (w : World env) (k u : Bytes)
        → has_of (delete_all env keys w) k u ≡ (not (contains keys k) && has_of w k u)
    unfolding delete_all effect
    has-delete_all [] w k u = refl
    has-delete_all (key ∷ keys) w k u =
        let w1 : World env = record w { redis = (env.redis.exec w.redis (del key)).0 } in
        let one : has_of w1 k u ≡ (not (key == k) && has_of w k u) =
          rw (exec_writes env.redis law w.redis (del key) (writing w.redis (del key)), has_of) in
        has-delete_all keys w1 k u ∙ ground (arith, one)

    has-delete_permissions :
        (id : Bytes) (w : World env) (k u : Bytes)
        → has_of (delete_permissions env id w) k u
          ≡ (not (law.matches (ascii "acl:*:" ++ id) k) && has_of w k u)
    unfolding delete_permissions
    has-delete_permissions id w k u =
        let (ks, found) = (up w.redis).keys_up (ascii "acl:*:" ++ id) in
        rw (found, delete_permissions)
          (has-delete_all ks w k u
            ∙ ground (arith, (up w.redis).set_keys (ascii "acl:*:" ++ id) k u ks found))

    has-delete_user :
        (clock : Clock) (id : Bytes) (w : World env) (k u : Bytes)
        → has_of (delete_user env clock (some id) w).1 k u
          ≡ (not (law.matches (ascii "acl:*:" ++ id) k) && (not (user_key id == k) && has_of w k u))
    unfolding delete_user effect
    has-delete_user clock id w k u =
        let w1 : World env = record w { redis = (env.redis.exec w.redis (del (user_key id))).0 } in
        let step = λ (w2 : World env).
          delete_permissions env id
            (with_search env (search_delete_user env.floats env.milvus id) w2) in
        let one : has_of w1 k u ≡ (not (user_key id == k) && has_of w k u) = rw (
          exec_writes env.redis law w.redis (del (user_key id))
              (writing w.redis (del (user_key id))),
          has_of,
        ) in
        rw
          (written_done env w (del (user_key id)) step clock (ascii "user_deleted") id
            (ascii "deleted user: " ++ id) (answer 200 (ascii "user deleted") no_data) writing)
          (has-add_audit_log clock (ascii "user_deleted") id (ascii "deleted user: " ++ id)
              (step w1) k u
            ∙ has-delete_permissions id
                (with_search env (search_delete_user env.floats env.milvus id) w1) k u
            ∙ ap (λ b. not (law.matches (ascii "acl:*:" ++ id) k) && b) one)

    reply-delete_user :
        (clock : Clock) (id : Bytes) (w : World env)
        → (delete_user env clock (some id) w).0 ≡ answer 200 (ascii "user deleted") no_data
    unfolding delete_user
    reply-delete_user clock id w =
        let step = λ (w2 : World env).
          delete_permissions env id
            (with_search env (search_delete_user env.floats env.milvus id) w2) in
        rw (
          written_done env w (del (user_key id)) step clock (ascii "user_deleted") id
            (ascii "deleted user: " ++ id) (answer 200 (ascii "user deleted") no_data) writing)

    -- On a Redis server that answers and fails no command, deleting a user whose id holds no pattern
    -- character answers 200 and leaves that user no permission in any tenant; of the sets under all keys,
    -- those go that the pattern "acl:*:" with the id behind it matches, and one under the key of the
    -- user's record, and the others stay.
    pub delete_user_revokes :
        (clock : Clock) (id : Bytes) (w : World env)
        → IsPlain id
        → ((delete_user env clock (some id) w).0 ≡ answer 200 (ascii "user deleted") no_data)
          × ((tenant doc : Bytes)
              → has_of (delete_user env clock (some id) w).1 (acl_key tenant id) doc ≡ false)
          × ((k u : Bytes)
              → has_of (delete_user env clock (some id) w).1 k u ≡ (
                  not (law.matches (ascii "acl:*:" ++ id) k)
                  && (not (user_key id == k) && has_of w k u)))
    delete_user_revokes clock id w plain = (
      reply-delete_user clock id w,
      λ tenant doc.
          let hit : law.matches (ascii "acl:*:" ++ id) (acl_key tenant id) ≡ true =
            law.star_inside (ascii "acl:") (b':' ∷ id) tenant acl-IsPlain (refl, plain) in
          rw (has-delete_user clock id w (acl_key tenant id) doc, hit),
      λ k u. has-delete_user clock id w k u,
    )

    -- On a Redis server that answers and fails no command, deleting the user with the id "*" takes away
    -- every permission of every user in every tenant.
    pub delete_user_wildcard :
        (clock : Clock) (w : World env) (tenant user doc : Bytes)
        → has_of (delete_user env clock (some (b'*' ∷ [])) w).1 (acl_key tenant user) doc ≡ false
    delete_user_wildcard clock w tenant user doc =
        let all : law.matches (ascii "acl:*:" ++ (b'*' ∷ [])) (acl_key tenant user) ≡ true =
          law.two_stars (ascii "acl:") (b':' ∷ []) tenant user acl-IsPlain (refl, tt) in
        rw (has-delete_user clock (b'*' ∷ []) w (acl_key tenant user) doc, all)
