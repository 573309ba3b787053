-- ===== src/Acl/Memory/Grants.antt =====
-- inmemory_store.go: ListGrants, after any history of calls.
use novagate.Base.{
  String, ◌≡◌, refl, ap, ◌∙◌, Bool, true, false, not, ◌&&◌, ◌||◌, Option, none, some, List, [], ◌∷◌,
  ok, arith, inl, inr, Option-cases, guard_ok, ok-injective,
}
use novagate.Base.Key.{GoMap, ◌==◌, get, delete, get-put, get-nil, get-cons, string_key}
use novagate.Acl.Model.{
  Time, before, missing2, missing3, id_required, invalid_visibility, is_visibility, or_now,
}
use novagate.Acl.Nested.{is_there, or_empty, users_of, user_of, edit_users, remove_user, purge}
use novagate.Acl.Nested.Unique.{
  unique, IsUnique, edit_users-IsUnique, add_user-IsUnique, revoke_user-IsUnique,
}
use novagate.Acl.Memory.{
  InMemoryStore, new_in_memory_store, set_visibility, grant_permanent_locked, grant_expiring_locked,
  grant_locked, cleanup, revoke, revoke_all_user, is_live, add_grant, add_grants, list_grants,
}
use novagate.Acl.Memory.Effect.{Access, access, grant_done}
use novagate.Acl.Docs.{keys, contains, contains-keys}
use novagate.Acl.Memory.Invariant.{
  Call, visibility_call, grant_call, revoke_call, revoke_all_call, perform, after, after-invariant,
}

-- A grant in force, whatever the document's visibility.
abbrev pub explicit : Access → Time → Bool
explicit a now = is_there a.0 || is_live now a.1

abbrev passes {ℓ} : {A : Type ℓ} → (A → Bool) → Option A → Bool
passes p none = false
passes p (some v) = p v

get-add_grant :
    {A : Type 0} (p : A → Bool) (user doc : String) (users : GoMap String A)
    (seen : GoMap String (Unit {0})) (d : String)
    → is_there (get (add_grant p user doc users seen) d)
      ≡ (is_there (get seen d) || (not (d == "") && (doc == d && passes p (get users user))))
unfolding add_grant
get-add_grant p user doc users seen d = elim (Option-cases (get users user)) [
  | inl missing ↦ rw (missing, add_grant) (ground (arith, missing))
  | inr (v, found) ↦
      rw (found, add_grant)
        (ground (
          arith,
          found,
          get-put seen doc d tt,
          string_key.beq_iff doc d,
          string_key.beq_iff doc "",
          string_key.beq_iff d "",
        ))
]

get-add_grants :
    {A : Type 0} (p : A → Bool) (user : String) (docs : GoMap String (GoMap String A))
    (seen : GoMap String (Unit {0})) (d : String)
    → unique docs ≡ true
    → is_there (get (add_grants p user docs seen) d)
      ≡ (is_there (get seen d) || (not (d == "") && passes p (get (or_empty (get docs d)) user)))
unfolding add_grants unique
get-add_grants {A = A} p user [] seen d h =
    ground (arith, get-nil {V = GoMap String A} d, get-nil {V = A} user)
get-add_grants {A = A} p user ((doc, users) ∷ docs) seen d h =
    get-add_grants p user docs (add_grant p user doc users seen) d (ground (arith, h))
    ∙ ground (
      arith,
      h,
      get-add_grant p user doc users seen d,
      get-cons docs doc d users,
      get-nil {V = A} user,
      string_key.beq_iff doc d,
    )

passes-all : {A : Type 0} (o : Option A) → passes (λ _. true) o ≡ is_there o
passes-all none = refl
passes-all (some a) = refl

passes-before : (now : Time) (o : Option Time) → passes (before now) o ≡ is_live now o
unfolding is_live
passes-before now none = refl
passes-before now (some v) = refl

merge :
    (named : Bool) (d : String) (permanent : Option (Unit {0})) (expiring : Option Time)
    (now : Time)
    → ((is_there (get {V = Unit {0}} [] d) || (named && passes (λ _. true) permanent))
        || (named && passes (before now) expiring))
      ≡ (named && explicit (permanent, expiring) now)
merge named d permanent expiring now =
    rw (get-nil {V = Unit {0}} d, passes-all permanent, passes-before now expiring) (ground arith)

abbrev OneEntryPerKey : InMemoryStore → Type 0
OneEntryPerKey s = IsUnique s.permanent × IsUnique s.expiring

grant_locked-OneEntryPerKey :
    (now : Time) (s : InMemoryStore) (tenant doc user : String) (valid_to : Option Time)
    → OneEntryPerKey s
    → OneEntryPerKey (grant_locked (cleanup now s tenant doc) tenant doc user valid_to)
unfolding grant_locked grant_permanent_locked grant_expiring_locked cleanup remove_user
grant_locked-OneEntryPerKey now s tenant doc user none h = (
  add_user-IsUnique s.permanent tenant doc user tt h.0,
  edit_users-IsUnique (λ users. delete users user) (edit_users (purge now) s.expiring tenant doc)
      tenant doc (edit_users-IsUnique (purge now) s.expiring tenant doc h.1),
)
grant_locked-OneEntryPerKey now s tenant doc user (some v) h = (
  edit_users-IsUnique (λ users. delete users user) s.permanent tenant doc h.0,
  add_user-IsUnique (edit_users (purge now) s.expiring tenant doc) tenant doc user v
      (edit_users-IsUnique (purge now) s.expiring tenant doc h.1),
)

perform-OneEntryPerKey :
    (s s' : InMemoryStore) (c : Call) → perform s c ≡ ok s' → OneEntryPerKey s → OneEntryPerKey s'
unfolding perform set_visibility revoke revoke_all_user remove_user
perform-OneEntryPerKey s s' (visibility_call tenant doc v) e h =
    let (_, rest) = guard_ok (not (is_visibility v)) invalid_visibility _ e in
    let (_, done) = guard_ok (missing2 tenant doc) id_required _ rest in rw (← ok-injective done) h
perform-OneEntryPerKey s s' (grant_call now tenant doc user valid_from valid_to) e h =
    let (_, _, same) = grant_done now s s' tenant doc user valid_from valid_to e in
    rw (← same) (grant_locked-OneEntryPerKey now s tenant doc user valid_to h)
perform-OneEntryPerKey s s' (revoke_call tenant doc user) e h =
    let (_, done) = guard_ok (missing3 tenant doc user) id_required _ e in
    rw (← ok-injective done) (
      edit_users-IsUnique (λ users. delete users user) s.permanent tenant doc h.0,
      edit_users-IsUnique (λ users. delete users user) s.expiring tenant doc h.1,
    )
perform-OneEntryPerKey s s' (revoke_all_call tenant user) e h =
    let (_, done) = guard_ok (missing2 tenant user) id_required _ e in
    rw (← ok-injective done) (
      revoke_user-IsUnique s.permanent tenant user h.0,
      revoke_user-IsUnique s.expiring tenant user h.1,
    )

-- After any history of writes to an empty store, ListGrants with both ids given lists a document
-- exactly when it has a name and the user holds a permanent grant on it, or an expiring one that ends
-- after the time given (the clock's, if that is zero).
pub contains-list_grants :
    (cs : List Call) (clock : Time) (tenant user : String) (now : Time) (d : String)
    → missing2 tenant user ≡ false
    → (listed : List String) × (list_grants clock (after cs new_in_memory_store) tenant user now
        ≡ some listed)
      × (contains listed d ≡ (
          not (d == "")
          && explicit (access (after cs new_in_memory_store) tenant d user) (or_now clock now)))
unfolding list_grants user_of users_of
contains-list_grants cs clock tenant user now d given =
    let s = after cs new_in_memory_store in
    let time = or_now clock now in
    let (one_permanent, one_expiring) =
      after-invariant OneEntryPerKey cs new_in_memory_store perform-OneEntryPerKey
        (λ t. unfold unique get in refl, λ t. unfold unique get in refl) in
    let seen = add_grants (λ _. true) user (or_empty (get s.permanent tenant)) [] in
    let all = add_grants (before time) user (or_empty (get s.expiring tenant)) seen in
    let permanent = get (or_empty (get (or_empty (get s.permanent tenant)) d)) user in
    let expiring = get (or_empty (get (or_empty (get s.expiring tenant)) d)) user in
    let member : is_there (get all d) ≡ (not (d == "") && explicit (permanent, expiring) time) =
      get-add_grants (before time) user (or_empty (get s.expiring tenant)) seen d
        (one_expiring tenant)
      ∙ ap (λ b. b || (not (d == "") && passes (before time) expiring))
          (get-add_grants (λ _. true) user (or_empty (get s.permanent tenant)) [] d
            (one_permanent tenant))
      ∙ merge (not (d == "")) d permanent expiring time in
    rw given (keys all, refl, contains-keys all d ∙ member)
