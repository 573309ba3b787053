-- ===== src/Acl/Tests.antt =====
-- services/acl: the store on small histories.
use novagate.Base.{String, ◌≡◌, refl, true, not, ◌&&◌, none, some, List, [], ◌∷◌, ok, err}
use novagate.Base.Key.{◌==◌, get, put, string_key}
use novagate.Acl.Model.{
  visibility_restricted, bad_range, is_visibility, or_now, validate_grant_args, id_required,
}
use novagate.Acl.Nested.{users_of, add_user, remove_user, edit_users}
use novagate.Acl.Memory.{
  InMemoryStore, new_in_memory_store, set_visibility, cleanup, grant, visibility_of_locked,
  check_batch, list_grants,
}
use novagate.Acl.Memory.Effect.{access}
use novagate.Acl.Docs.{contains}
use novagate.Acl.Memory.Check.{permits, contains-check_batch}
use novagate.Acl.Memory.Grants.{explicit, contains-list_grants}
use novagate.Acl.Memory.Refines.{Shows, rights_after, no_rights, after-refines}
use novagate.Acl.Memory.Invariant.{Call, grant_call, after, exclusive, exclusive-after}

abbrev permanent_store : InMemoryStore
permanent_store = record {
  visibility = [];
  permanent = ("t", ("d", ("u", tt) ∷ []) ∷ []) ∷ [];
  expiring = [];
}

grant-permanent : grant 50 new_in_memory_store "t" "d" "u" 50 none ≡ ok permanent_store
unfolding grant validate_grant_args bad_range add_user remove_user edit_users users_of get put
    cleanup
grant-permanent = refl

grant_without_user : grant 50 new_in_memory_store "t" "d" "" 50 none ≡ err id_required
unfolding grant validate_grant_args
grant_without_user = refl

abbrev restricted_store : InMemoryStore
restricted_store = record permanent_store {
  visibility = ("t", ("d", visibility_restricted) ∷ []) ∷ [];
}

restrict : set_visibility permanent_store "t" "d" visibility_restricted ≡ ok restricted_store
unfolding set_visibility is_visibility get put
restrict = refl

contains-check_batch_example :
    (allowed : List String) × (check_batch 60 restricted_store "t" "u" ("d" ∷ []) 60 ≡ some allowed)
    × ((d : String)
        → contains allowed d ≡ (
            contains ("d" ∷ []) d
            && (not (d == "")
                && permits
                    (visibility_of_locked restricted_store "t" d)
                    (access restricted_store "t" d "u")
                    (or_now 60 60))))
contains-check_batch_example = contains-check_batch 60 restricted_store "t" "u" ("d" ∷ []) 60 refl

abbrev history : List Call
history = grant_call 50 "t" "d" "u" 50 none ∷ grant_call 50 "t" "d" "u" 50 (some 90) ∷ []

exclusive-after_example : exclusive (access (after history new_in_memory_store) "t" "d" "u") ≡ true
exclusive-after_example = exclusive-after history "t" "d" "u"

after-refines_example : Shows (after history new_in_memory_store) (rights_after history no_rights)
after-refines_example = after-refines history

contains-list_grants_example :
    (listed : List String) × (list_grants 60 (after history new_in_memory_store) "t" "u" 60
      ≡ some listed)
    × (contains listed "d"
        ≡ explicit (access (after history new_in_memory_store) "t" "d" "u") (or_now 60 60))
contains-list_grants_example = contains-list_grants history 60 "t" "u" 60 "d" refl
