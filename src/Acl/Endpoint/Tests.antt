-- ===== src/Acl/Endpoint/Tests.antt =====
-- acl.go: the endpoints on small requests.
use text.Mathlib.Text.{◌==◌ as str_eq}
use novagate.Base.{String, ◌≡◌, refl, true, not, none, some, List, [], ◌∷◌, if◌then◌else◌}
use novagate.Base.Key.{get, put, string_key}
use novagate.Acl.Model.{
  is_visibility, bad_range, validate_grant_args, visibility_restricted, is_zero, zero_time,
}
use novagate.Acl.Docs.{contains}
use novagate.Acl.Nested.{users_of, add_user, remove_user, edit_users}
use novagate.Acl.Memory.{InMemoryStore, new_in_memory_store, set_visibility, grant, cleanup}
use novagate.Acl.RedisStore.Tests.{down, empty}
use novagate.Acl.Endpoint.{
  Parsers, allowed_doc_ids, bad_request, status_ok, GrantRequest, CheckBatchRequest, time_or_now,
  time_or_none, restrict_first, grant_after, answer_of, acl_grant, acl_check_batch,
}
use novagate.Acl.Endpoint.Writes.{memory_store}
use novagate.Acl.Endpoint.Outage.{redis_store, acl_check_batch_down}

-- Every text but the empty one is an id; two texts are times.
abbrev parsers : Parsers
parsers = record {
  is_uuid = λ v. not (str_eq v "");
  parse_time = λ v. if str_eq v "early" then some 5 else if str_eq v "late" then some 90 else none;
}

abbrev forever : GrantRequest
forever = record {
  tenant_id = "t";
  doc_id = "d";
  user_id = "u";
  valid_from = "";
  valid_to = "";
  restricted = some true;
}

abbrev granted_store : InMemoryStore
granted_store = record {
  visibility = ("t", ("d", visibility_restricted) ∷ []) ∷ [];
  permanent = ("t", ("d", ("u", tt) ∷ []) ∷ []) ∷ [];
  expiring = [];
}

grant-forever :
    acl_grant memory_store parsers 50 new_in_memory_store (some forever)
    ≡ (status_ok, granted_store)
unfolding acl_grant time_or_now time_or_none restrict_first grant_after answer_of set_visibility
    is_visibility grant cleanup validate_grant_args bad_range add_user remove_user edit_users
    users_of get put
grant-forever = refl

-- The grant would end before it starts; the document is restricted all the same.
abbrev backwards : GrantRequest
backwards = record forever { valid_from = "late"; valid_to = "early" }

abbrev restricted_store : InMemoryStore
restricted_store = record new_in_memory_store {
  visibility = ("t", ("d", visibility_restricted) ∷ []) ∷ [];
}

grant-backwards :
    acl_grant memory_store parsers 50 new_in_memory_store (some backwards)
    ≡ (bad_request "valid_to must be >= valid_from", restricted_store)
unfolding acl_grant time_or_now time_or_none restrict_first grant_after answer_of set_visibility
    is_visibility grant validate_grant_args bad_range is_zero zero_time get put
grant-backwards = refl

abbrev check_one : CheckBatchRequest
check_one = record { tenant_id = "t"; user_id = "u"; doc_ids = "d" ∷ []; now = "" }

acl_check_batch_down_example :
    (allowed : List String) × (acl_check_batch
        (redis_store down "acl:")
        parsers
        5
        empty
        (some check_one)
      ≡ allowed_doc_ids (some allowed))
    × ((d : String) → contains allowed d ≡ contains ("d" ∷ []) d)
acl_check_batch_down_example =
    acl_check_batch_down down "acl:" parsers 5 empty check_one 5 "connection refused" refl refl refl
      refl (unfold time_or_now in refl) (λ k. refl)
