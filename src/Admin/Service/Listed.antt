-- ===== src/Admin/Service/Listed.antt =====
-- service.go: what is written is listed.
use mathlib.Core.List.{append_assoc}
use mathlib.Core.Path.{subst}
use novagate.Base.{◌≡◌, refl, ap, ◌∙◌, true, false, some, List, [], ◌∷◌, ◌++◌, ok, All-append}
use novagate.Base.Key.{bytes_beq, bytes_key, beq_refl}
use novagate.Protocol.Bytes.{Bytes}
use novagate.Server.Registry.{ascii}
use novagate.Admin.Text.{Lacks, split, split-Lacks, split-append}
use novagate.Admin.Redis.{
  set, sadd, effect, IsRedis, IsUp, IsWriting, IsPlain, is_special, contains, exec_writes, Has,
  Has-contains,
}
use novagate.Admin.Search.{User}
use novagate.Admin.Search.Queries.{index_user}
use novagate.Admin.Env.{Env, World, Clock, Permission, no_data, one_user, permissions}
use novagate.Admin.Service.{
  new_user, CreateUserReq, PermissionReq, user_key, doc_key, acl_key, answer, success, collect,
  only_if, user_matches_keyword,
}
use novagate.Admin.Service.Writes.{add_audit_log, with_search, create_user, grant_permission}
use novagate.Admin.Service.Reads.{
  permission_of, permission_under, document_under, list_permissions, user_under,
  get_users_by_string_match,
}
use novagate.Admin.Service.Created.{text_of, text-add_audit_log}
use novagate.Admin.Service.Deleted.{has_of, has-add_audit_log, written_done}
use novagate.Admin.Service.Collect.{Has-collect}

split-acl_key :
    (tenant user : Bytes)
    → Lacks b':' tenant
    → Lacks b':' user
    → split (acl_key tenant user) b':' ≡ ascii "acl" ∷ tenant ∷ user ∷ []
split-acl_key tenant user tenant_alone user_alone =
    split-append (ascii "acl") (tenant ++ (b':' ∷ user)) b':' (refl, (refl, (refl, tt)))
    ∙ ap (λ t. ascii "acl" ∷ t)
        (split-append tenant user b':' tenant_alone
          ∙ ap (λ t. tenant ∷ t) (split-Lacks user b':' user_alone))

module _ (env : Env) (law : IsRedis env.redis) (up : (s : env.redis.Server) → IsUp env.redis law s)
    (writing : IsWriting env.redis) where
  matches_acl_key :
      (tenant user : Bytes)
      → IsPlain tenant
      → law.matches (ascii "acl:" ++ (tenant ++ ascii ":*")) (acl_key tenant user) ≡ true
  matches_acl_key tenant user plain =
      let p = ascii "acl:" ++ (tenant ++ (b':' ∷ [])) in
      let p_plain : IsPlain p = (
        refl,
        (
          refl,
          (
            refl,
            (refl, All-append (λ c. is_special c ≡ false) tenant (b':' ∷ []) plain (refl, tt)),
          ),
        ),
      ) in
      let pattern : p ++ (b'*' ∷ []) ≡ ascii "acl:" ++ (tenant ++ ascii ":*") =
        ap (λ t. ascii "acl:" ++ t) (append_assoc tenant (b':' ∷ []) (b'*' ∷ [])) in
      let key : p ++ user ≡ acl_key tenant user =
        ap (λ t. ascii "acl:" ++ t) (append_assoc tenant (b':' ∷ []) user) in
      subst (λ k. law.matches (ascii "acl:" ++ (tenant ++ ascii ":*")) k ≡ true) key
        (subst (λ t. law.matches t (p ++ user) ≡ true) pattern (law.star_end p user p_plain))

  string_match :
      (w : World env) (id text keyword : Bytes) (user : User)
      → text_of env law w (user_key id) ≡ some text
      → env.json.unmarshal_user text ≡ some user
      → user_matches_keyword env.to_lower keyword user ≡ true
      → Has user (get_users_by_string_match env w keyword)
  unfolding get_users_by_string_match user_under
  string_match w id text keyword user stored reads hit =
      let (ks, found) = (up w.redis).keys_up (ascii "user:*") in
      let inside : contains ks (user_key id) ≡ true =
        (up w.redis).text_keys (ascii "user:*") (user_key id) text ks found stored
        ∙ law.star_end (ascii "user:") id (refl, (refl, (refl, (refl, (refl, tt))))) in
      let got : env.redis.get w.redis (user_key id) ≡ ok text =
        (up w.redis).texts (user_key id) text stored in
      rw (found, get_users_by_string_match)
        (Has-collect
          (λ key. only_if (user_matches_keyword env.to_lower keyword) (user_under env w key)) ks
          (user_key id) user (Has-contains (user_key id) ks inside)
          (rw (got, user_under) (rw reads (rw hit refl))))

  text_set_self :
      (s : env.redis.Server) (k v : Bytes)
      → (law.holds (env.redis.exec s (set k v)).0).text k ≡ some v
  unfolding effect
  text_set_self s k v =
      rw (exec_writes env.redis law s (set k v) (writing s (set k v)), effect)
        (rw (beq_refl k) refl)

  has_sadd_self :
      (s : env.redis.Server) (k u : Bytes)
      → (law.holds (env.redis.exec s (sadd k u)).0).has k u ≡ true
  unfolding effect
  has_sadd_self s k u =
      rw (exec_writes env.redis law s (sadd k u) (writing s (sadd k u)), effect)
        (rw (beq_refl k, beq_refl u) refl)

  -- The permissions of a tenant hold one for each of its sets that is not empty.
  permission_listed :
      (w : World env) (tenant user doc : Bytes)
      → has_of env law w (acl_key tenant user) doc ≡ true
      → bytes_beq tenant [] ≡ false
      → IsPlain tenant
      → Lacks b':' tenant
      → Lacks b':' user
      → (ps : List Permission) × (p : Permission) × (list_permissions env tenant w
          ≡ success (permissions ps))
        × Has p ps
        × (p.tenant_id ≡ tenant)
        × (p.user_id ≡ user)
        × (contains p.doc_ids doc ≡ true)
  unfolding list_permissions permission_under permission_of
  permission_listed w tenant user doc held named plain tenant_alone user_alone =
      let key = acl_key tenant user in
      let pattern = ascii "acl:" ++ (tenant ++ ascii ":*") in
      let (ks, found) = (up w.redis).keys_up pattern in
      let (us, got) = (up w.redis).members_up key in
      let p : Permission = record {
        tenant_id = tenant;
        user_id = user;
        doc_ids = us;
        documents = collect (λ id. document_under env w (doc_key id)) us;
      } in
      let e : permission_under env w key ≡ some p =
        rw (got, permission_under) (rw (split-acl_key tenant user tenant_alone user_alone) refl) in
      let inside : contains ks key ≡ true =
        (up w.redis).set_keys pattern key doc ks found held ∙ matches_acl_key tenant user plain in
      (
        collect (permission_under env w) ks,
        p,
        rw (named, list_permissions) (rw found refl),
        Has-collect (permission_under env w) ks key p (Has-contains key ks inside) e,
        refl,
        refl,
        (up w.redis).members_has key doc us got ∙ held,
      )

  -- On a Redis server that answers and fails no command, creating a user under a new id, with a record
  -- that can be marshalled and is read back, answers 200 with that user, and then the user is among
  -- those that the listing by text finds, under every keyword that matches.
  pub create_user-listed :
      (clock : Clock) (req : CreateUserReq) (w : World env) (text keyword : Bytes)
      → env.redis.exists w.redis (user_key req.id) ≡ ok 0
      → env.json.marshal_user (new_user clock req) ≡ some text
      → env.json.unmarshal_user text ≡ some (new_user clock req)
      → user_matches_keyword env.to_lower keyword (new_user clock req) ≡ true
      → ((create_user env clock (some req) w).0
          ≡ answer 200 (ascii "user created") (one_user (new_user clock req)))
        × Has
            (new_user clock req)
            (get_users_by_string_match env (create_user env clock (some req) w).1 keyword)
  unfolding create_user effect
  create_user-listed clock req w text keyword new marshals reads hit =
      let user = new_user clock req in
      let c = set (user_key req.id) text in
      let step = with_search env (index_user env.floats env.milvus user) in
      let w1 = step (record w { redis = (env.redis.exec w.redis c).0 }) in
      let message = ascii "created user: " ++ req.name in
      let w2 = add_audit_log env clock (ascii "user_created") req.id message w1 in
      let reply = answer 200 (ascii "user created") (one_user user) in
      let stored : text_of env law w2 (user_key req.id) ≡ some text =
        text-add_audit_log env law clock (ascii "user_created") req.id message w1 (user_key req.id)
        ∙ text_set_self w.redis (user_key req.id) text in
      let e : create_user env clock (some req) w ≡ (reply, w2) =
        rw (new, create_user)
          (rw marshals (
            written_done env w c step clock (ascii "user_created") req.id message reply writing)) in
      rw e (refl, string_match w2 req.id text keyword user stored reads hit)

  -- On a Redis server that answers and fails no command, a granted document is listed from then on:
  -- the permissions of its tenant hold one of the user that names the document, if the tenant's id is not
  -- empty and has no pattern character and neither id has a colon.
  pub grant_permission-listed :
      (clock : Clock) (req : PermissionReq) (w : World env)
      → bytes_beq req.tenant_id [] ≡ false
      → IsPlain req.tenant_id
      → Lacks b':' req.tenant_id
      → Lacks b':' req.user_id
      → (ps : List Permission) × (p : Permission) × (list_permissions env req.tenant_id
            (grant_permission env clock (some req) w).1
          ≡ success (permissions ps))
        × Has p ps
        × (p.tenant_id ≡ req.tenant_id)
        × (p.user_id ≡ req.user_id)
        × (contains p.doc_ids req.doc_id ≡ true)
  unfolding grant_permission
  grant_permission-listed clock req w named plain tenant_alone user_alone =
      let key = acl_key req.tenant_id req.user_id in
      let c = sadd key req.doc_id in
      let target = req.user_id ++ (b':' ∷ req.doc_id) in
      let message = ascii "granted " ++ (req.user_id ++ (ascii " access to " ++ req.doc_id)) in
      let w1 : World env = record w { redis = (env.redis.exec w.redis c).0 } in
      let reply = answer 200 (ascii "permission granted") no_data in
      let held =
        has-add_audit_log env law clock (ascii "permission_granted") target message w1 key
          req.doc_id
        ∙ has_sadd_self w.redis key req.doc_id in
      rw
        (written_done env w c (λ w2. w2) clock (ascii "permission_granted") target message reply
          writing)
        (permission_listed (add_audit_log env clock (ascii "permission_granted") target message w1)
          req.tenant_id req.user_id req.doc_id held named plain tenant_alone user_alone)
