-- ===== src/Admin/Tests.antt =====
-- internal/admin and cmd/admin: the handlers on small servers.
use novagate.Base.{
  ℕ, ◌+◌, ◌*◌, ◌/◌, ◌≤◌, ◌<◌, ◌≡◌, ◌≢◌, refl, true, false, not, ◌&&◌, none, some, List, [], ◌∷◌, ok,
  err, ltb, arith, if◌then◌else◌,
}
use novagate.Base.Int.{pos}
use novagate.Base.Key.{◌==◌, bytes_key, beq_ne, get}
use novagate.Protocol.Bytes.{Bytes}
use novagate.Server.Registry.{ascii}
use novagate.Admin.Text.{parse_int}
use novagate.Admin.Redis.{Has, contains}
use novagate.Admin.Search.Embedding.{Floats}
use novagate.Admin.Search.{Milvus, User, Document, is_hot_data}
use novagate.Admin.Search.Queries.{index_document, search_documents}
use novagate.Admin.Search.Routing.{IsMilvus, hot_document_not_found}
use novagate.Admin.Env.{
  Json, AuditLog, Env, World, Clock, Permission, no_data, one_user, permissions, panicked,
  audit_logs,
}
use novagate.Admin.Pages.{parse_pagination, total_page}
use novagate.Admin.Pages.Cover.{all_pages, pages_cover}
use novagate.Admin.Service.{
  CreateUserReq, PermissionReq, ListQuery, new_user, acl_key, answer, success, user_matches_keyword,
}
use novagate.Admin.Service.Writes.{create_user, create_document, delete_user, grant_permission}
use novagate.Admin.Service.Reads.{
  list_permissions, list_users, list_documents, get_users_by_string_match, get_audit_logs,
}
use novagate.Admin.Service.Created.{text_of, created-keeps}
use novagate.Admin.Service.Deleted.{has_of, delete_user_revokes, delete_user_wildcard}
use novagate.Admin.Service.Overflow.{list_panics}
use novagate.Admin.Service.Listed.{create_user-listed, grant_permission-listed}
use novagate.Admin.Routes.{serve, post_permission}
use novagate.Admin.Routes.Logged.{serve_logged, get_audit_logs-serve}
use novagate.Admin.Routes.Entries.{entries_of, after_request, went_well, logged_by}
use novagate.Admin.Glob.{glob}
use novagate.Admin.Sample.{sample_redis, sample_law, sample-IsUp, sample_writing}

abbrev naturals : Floats
naturals = record {
  F = ℕ;
  of_ℕ = λ n. n;
  add = λ a b. a + b;
  mul = λ a b. a * b;
  div = λ a b. a / b;
  is_positive = λ a. ltb 0 a;
}

-- Milvus as the list of what was inserted where; a search finds all of a collection.
unfoldable ids_in : Bytes → List (Bytes × Bytes) → List Bytes
ids_in c [] = []
ids_in c ((d, id) ∷ rest) = let found = ids_in c rest in if d == c then id ∷ found else found

abbrev sample_milvus : Milvus naturals
sample_milvus = record {
  Server = List (Bytes × Bytes);
  has_collection = λ s c. ok true;
  create_collection = λ s schema. (s, none);
  new_index = λ i. none;
  create_index = λ s c i. (s, none);
  load_collection = λ s c. (s, none);
  insert = λ s c id text v. ((c, id) ∷ s, none);
  search = λ s c q k p. ok (ids_in c s ∷ []);
  delete = λ s c e. (s, none);
}

insert_elsewhere :
    (c other id : Bytes) (s : List (Bytes × Bytes))
    → c ≢ other
    → ids_in other ((c, id) ∷ s) ≡ ids_in other s
unfolding ids_in
insert_elsewhere c other id s ne = rw (beq_ne c other ne)

sample_milvus-IsMilvus : IsMilvus naturals sample_milvus
sample_milvus-IsMilvus = record {
  insert_elsewhere = λ s c other id text v q k p ne. rw (insert_elsewhere c other id s ne) refl;
}

abbrev plan : Document
plan = record {
  id = ascii "d1";
  title = ascii "Plan";
  category = ascii "work";
  owner_id = ascii "ann";
  created_at = [];
}

hot_document_not_found_example :
    search_documents naturals sample_milvus
      (index_document naturals sample_milvus (λ l t. none) 7 plan []).0
      (ascii "plan")
      100
    ≡ search_documents naturals sample_milvus [] (ascii "plan") 100
hot_document_not_found_example =
    hot_document_not_found naturals sample_milvus sample_milvus-IsMilvus (λ l t. none) 7 plan []
      (ascii "plan") 100 (unfold is_hot_data in refl)

-- Records and entries by the one text that differs between them.
abbrev ann_under : Bytes → User
ann_under id = record {
  id = id;
  name = ascii "Ann";
  email = ascii "ann@x";
  created_at = ascii "now";
}

abbrev granted_log : Bytes → AuditLog
granted_log target = record {
  id = 0;
  action = ascii "permission_granted";
  target = target;
  message = ascii "granted u1 access to d1";
  timestamp = ascii "now.0";
}

abbrev sample_json : Json
sample_json = record {
  marshal_user = λ u. some u.id;
  unmarshal_user = λ t. some (ann_under t);
  marshal_document = λ d. some d.id;
  unmarshal_document = λ t. none;
  marshal_log = λ l. some l.target;
  unmarshal_log = λ t. some (granted_log t);
}

abbrev sample_env : Env
sample_env = record {
  redis = sample_redis;
  floats = naturals;
  milvus = sample_milvus;
  json = sample_json;
  to_lower = λ t. t;
  parse_layout = λ l t. none;
}

abbrev clock : Clock
clock = record { created = ascii "now"; logged = ascii "now.0"; instant = 7 }

-- A user, and a grant on a document of another user.
abbrev world : World sample_env
world = record {
  redis = record {
    texts = (ascii "user:u2", ascii "u2") ∷ [];
    pairs = (ascii "acl:t1:u2", ascii "d1") ∷ [];
    lists = [];
  };
  search = none;
}

abbrev ann : CreateUserReq
ann = record { id = ascii "u1"; name = ascii "Ann"; email = ascii "ann@x" }

created-keeps_example :
    (text_of sample_env sample_law
        (create_user sample_env clock (some ann) world).1
        (ascii "user:u2")
      ≡ some (ascii "u2"))
    × (text_of sample_env sample_law
          (create_document sample_env clock none world).1
          (ascii "user:u2")
        ≡ some (ascii "u2"))
created-keeps_example =
    created-keeps sample_env sample_law clock (some ann) none world (ascii "user:u2") (ascii "u2")
      (unfold get in refl)

create_user-listed_example :
    ((create_user sample_env clock (some ann) world).0
      ≡ answer 200 (ascii "user created") (one_user (new_user clock ann)))
    × Has
        (new_user clock ann)
        (get_users_by_string_match sample_env (create_user sample_env clock (some ann) world).1 [])
create_user-listed_example =
    create_user-listed sample_env sample_law sample-IsUp sample_writing clock ann world (ascii "u1")
      [] (unfold get in refl) refl refl (unfold user_matches_keyword in refl)

abbrev grant_d1 : PermissionReq
grant_d1 = record { tenant_id = ascii "t1"; user_id = ascii "u1"; doc_id = ascii "d1" }

grant_permission-listed_example :
    (ps : List Permission) × (p : Permission) × (list_permissions sample_env
        (ascii "t1")
        (grant_permission sample_env clock (some grant_d1) world).1
      ≡ success (permissions ps))
    × Has p ps
    × (p.tenant_id ≡ ascii "t1")
    × (p.user_id ≡ ascii "u1")
    × (contains p.doc_ids (ascii "d1") ≡ true)
grant_permission-listed_example =
    grant_permission-listed sample_env sample_law sample-IsUp sample_writing clock grant_d1 world
      refl (refl, (refl, tt)) (refl, (refl, tt)) (refl, (refl, tt))

delete_user_revokes_example :
    ((delete_user sample_env clock (some (ascii "u2")) world).0
      ≡ answer 200 (ascii "user deleted") no_data)
    × ((tenant doc : Bytes)
        → has_of sample_env sample_law
            (delete_user sample_env clock (some (ascii "u2")) world).1
            (acl_key tenant (ascii "u2"))
            doc
          ≡ false)
    × ((k u : Bytes)
        → has_of sample_env sample_law
            (delete_user sample_env clock (some (ascii "u2")) world).1
            k
            u
          ≡ (not (glob (ascii "acl:*:u2") k)
              && (not (ascii "user:u2" == k) && has_of sample_env sample_law world k u)))
delete_user_revokes_example =
    delete_user_revokes sample_env sample_law sample-IsUp sample_writing clock (ascii "u2") world
      (refl, (refl, tt))

delete_user_wildcard_example :
    has_of sample_env sample_law
      (delete_user sample_env clock (some (ascii "*")) world).1
      (ascii "acl:t1:u2")
      (ascii "d1")
    ≡ false
delete_user_wildcard_example =
    delete_user_wildcard sample_env sample_law sample-IsUp sample_writing clock world (ascii "t1")
      (ascii "u2") (ascii "d1")

abbrev far_page : ListQuery
far_page = record { keyword = []; page = ascii "184467440737095518"; page_size = [] }

list_panics_example :
    (list_users sample_env far_page world ≡ err panicked)
    × (list_documents sample_env far_page world ≡ err panicked)
unfolding parse_pagination parse_int
list_panics_example = list_panics sample_env world far_page 184467440737095517 refl (omega arith)

pages_cover_example :
    (let size = (parse_pagination [] (ascii "2")).1 in
      (0 < size)
      × (size ≤ 100)
      × (all_pages {A = ℕ} (1 ∷ 2 ∷ 3 ∷ []) size (total_page 3 size) ≡ some (1 ∷ 2 ∷ 3 ∷ [])))
pages_cover_example = pages_cover {A = ℕ} (1 ∷ 2 ∷ 3 ∷ []) [] (ascii "2") (omega arith)

serve_logged_example :
    entries_of sample_env sample_law
      (serve sample_env clock (post_permission (some grant_d1)) world).1
    ≡ after_request sample_env sample_law
        (λ l. l.target)
        (went_well (serve sample_env clock (post_permission (some grant_d1)) world).0)
        (logged_by clock (post_permission (some grant_d1)))
        (entries_of sample_env sample_law world)
serve_logged_example =
    serve_logged sample_env sample_law sample-IsUp sample_writing (λ l. l.target) (λ l. refl) clock
      (post_permission (some grant_d1)) world

get_audit_logs-serve_example :
    (rest : List AuditLog) × (get_audit_logs sample_env []
        (serve sample_env clock (post_permission (some grant_d1)) world).1
      ≡ success (audit_logs 1 (pos 50) ((record (granted_log (ascii "u1:d1")) { id = 1 }) ∷ rest)))
unfolding serve went_well logged_by grant_permission get
get_audit_logs-serve_example =
    get_audit_logs-serve sample_env sample_law sample-IsUp sample_writing (λ l. l.target)
      (λ l. refl) clock (post_permission (some grant_d1)) world (granted_log (ascii "u1:d1")) refl
      refl refl
