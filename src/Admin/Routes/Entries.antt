-- ===== src/Admin/Routes/Entries.antt =====
-- The audit log's entries: who writes one, and what keeps them.
use novagate.Base.{
  ◌≡◌, refl, ap, ◌∙◌, Bool, true, false, Option, none, some, List, [], ◌∷◌, ◌++◌, ok, inl, inr,
  arith, Bool-cases,
}
use novagate.Base.Key.{◌==◌, bytes_key, nat_key}
use novagate.Protocol.Bytes.{Bytes}
use novagate.Server.Registry.{ascii}
use novagate.Admin.Text.{has_prefix}
use novagate.Admin.Redis.{
  Command, del, lpush, effect, IsRedis, IsUp, IsWriting, contains, exec_writes,
}
use novagate.Admin.Env.{Env, World, Clock, AuditLog}
use novagate.Admin.Service.{audit_logs_key}
use novagate.Admin.Service.Writes.{add_audit_log, delete_all, delete_permissions}
use novagate.Admin.Service.Deleted.{acl-IsPlain}
use novagate.Admin.Routes.{
  Request, post_user, post_document, remove_user, remove_document, post_permission,
  remove_permission, HttpAnswer, json_body, server_error, method_not_allowed, aborted,
}

-- The entry of a request that changes something.
abbrev pub entry : Clock → Bytes → Bytes → Bytes → AuditLog
entry clock action target message = record {
  id = 0;
  action = action;
  target = target;
  message = message;
  timestamp = clock.logged;
}

unfoldable pub logged_by : Clock → Request → Option AuditLog
logged_by clock (post_user (some req)) =
    some (entry clock (ascii "user_created") req.id (ascii "created user: " ++ req.name))
logged_by clock (remove_user (some id)) =
    some (entry clock (ascii "user_deleted") id (ascii "deleted user: " ++ id))
logged_by clock (post_document (some req)) =
    some (entry clock (ascii "doc_created") req.id (ascii "created document: " ++ req.title))
logged_by clock (remove_document (some id)) =
    some (entry clock (ascii "doc_deleted") id (ascii "deleted document: " ++ id))
logged_by clock (post_permission (some req)) = some (
    entry clock (ascii "permission_granted") (req.user_id ++ (b':' ∷ req.doc_id))
      (ascii "granted " ++ (req.user_id ++ (ascii " access to " ++ req.doc_id))))
logged_by clock (remove_permission (some req)) = some (
    entry clock (ascii "permission_revoked") (req.user_id ++ (b':' ∷ req.doc_id))
      (ascii "revoked " ++ (req.user_id ++ (ascii " access to " ++ req.doc_id))))
logged_by clock _ = none

-- A body with code 200.
unfoldable pub went_well : HttpAnswer → Bool
went_well (json_body r) = r.code == 200
went_well (server_error e) = false
went_well method_not_allowed = false
went_well aborted = false

pub not_acl : ¬ (has_prefix audit_logs_key (ascii "acl:") ≡ true)
unfolding has_prefix
not_acl h = cc

module _ (env : Env) (law : IsRedis env.redis) where
  abbrev pub entries_of : World env → List Bytes
  entries_of w = (law.holds w.redis).entries audit_logs_key

  -- What the log holds once a request is answered: the entry in front, if there is one to write.
  abbrev pub after_request : (AuditLog → Bytes) → Bool → Option AuditLog → List Bytes → List Bytes
  after_request text true (some log) old = text log ∷ old
  after_request text true none old = old
  after_request text false log old = old

  -- Every command succeeds, every read answers, and every entry can be marshalled.
  module _ (up : (s : env.redis.Server) → IsUp env.redis law s) (writing : IsWriting env.redis)
      (text : AuditLog → Bytes)
      (marshals : (log : AuditLog) → env.json.marshal_log log ≡ some (text log)) where
    pub entries-exec :
        (s : env.redis.Server) (c : Command)
        → (law.holds (env.redis.exec s c).0).entries audit_logs_key
          ≡ (effect c (law.holds s)).entries audit_logs_key
    entries-exec s c = rw (exec_writes env.redis law s c (writing s c))

    pub entries-add_audit_log :
        (clock : Clock) (action target message : Bytes) (w : World env)
        → entries_of (add_audit_log env clock action target message w)
          ≡ text (entry clock action target message) ∷ entries_of w
    unfolding add_audit_log effect
    entries-add_audit_log clock action target message w =
        rw (marshals (entry clock action target message), add_audit_log)
          (entries-exec w.redis (lpush audit_logs_key (text (entry clock action target message))))

    pub entries-logged :
        (w : World env) (c : Command) (step : World env → World env) (clock : Clock)
        (action target message : Bytes)
        → ((w1 : World env) → entries_of (step w1) ≡ entries_of w1)
        → (effect c (law.holds w.redis)).entries audit_logs_key ≡ entries_of w
        → entries_of (
            add_audit_log env clock action target message
              (step (record w { redis = (env.redis.exec w.redis c).0 })))
          ≡ text (entry clock action target message) ∷ entries_of w
    entries-logged w c step clock action target message keep same =
        let w1 : World env = record w { redis = (env.redis.exec w.redis c).0 } in
        entries-add_audit_log clock action target message (step w1)
        ∙ ap (λ t. text (entry clock action target message) ∷ t)
            (keep w1 ∙ entries-exec w.redis c ∙ same)

    pub entries-delete_all :
        (keys : List Bytes) (w : World env)
        → contains keys audit_logs_key ≡ false
        → entries_of (delete_all env keys w) ≡ entries_of w
    unfolding delete_all effect
    entries-delete_all [] w h = refl
    entries-delete_all (key ∷ keys) w h =
        let w1 : World env = record w { redis = (env.redis.exec w.redis (del key)).0 } in
        entries-delete_all keys w1 (ground arith) ∙ entries-exec w.redis (del key) ∙ ground arith

    pub entries-delete_permissions :
        (id : Bytes) (w : World env) → entries_of (delete_permissions env id w) ≡ entries_of w
    unfolding delete_permissions
    entries-delete_permissions id w =
        let (ks, found) = (up w.redis).keys_up (ascii "acl:*:" ++ id) in
        rw (found, delete_permissions) (entries-delete_all ks w (outside ks found))
      where
        outside :
            (ks : List Bytes)
            → env.redis.keys w.redis (ascii "acl:*:" ++ id) ≡ ok ks
            → contains ks audit_logs_key ≡ false
        outside ks found = elim (Bool-cases (contains ks audit_logs_key)) [
          | inl inside ↦
              let hit =
                (up w.redis).keys_match (ascii "acl:*:" ++ id) audit_logs_key ks found inside in
              let bad : has_prefix audit_logs_key (ascii "acl:") ≡ true =
                law.starts_plain (ascii "acl:") (ascii "*:" ++ id) audit_logs_key acl-IsPlain hit in
              absurd (not_acl bad)
          | inr out ↦ out
        ]

    pub after_none : (b : Bool) (old : List Bytes) → old ≡ after_request text b none old
    after_none true old = refl
    after_none false old = refl
