-- ===== src/Acl/Memory/Refines.antt =====
-- inmemory_store.go against its specification: the rights of every user, as functions.
use novagate.Base.{
  String, ◌≡◌, refl, ap, ◌∙◌, Bool, true, false, not, ◌&&◌, List, [], ◌∷◌, ok, err, arith, inl, inr,
  Result-cases, guard_ok, ok-injective, if◌then◌else◌,
}
use novagate.Base.Key.{◌==◌, get, string_key}
use novagate.Acl.Model.{
  Visibility, visibility_public, AclError, id_required, missing2, missing3, is_visibility,
  bad_range, validate_grant_args,
}
use novagate.Acl.Nested.{user_of, users_of}
use novagate.Acl.Nested.Laws.{unexpired}
use novagate.Acl.Memory.{
  InMemoryStore, new_in_memory_store, set_visibility, grant, revoke, revoke_all_user,
  visibility_of_locked,
}
use novagate.Acl.Memory.Effect.{
  Access, access, no_access, granted, visibility-grant, access-grant, access-revoke,
  access-revoke_all_user, visibility-set_visibility,
}
use novagate.Acl.Memory.Invariant.{
  Call, visibility_call, grant_call, revoke_call, revoke_all_call, perform, kept, after,
}

-- What a user holds on a document of a tenant, and the document's visibility.
pub record Rights : Type 0 where
  pub held : String → String → String → Access
  pub seen : String → String → Visibility

abbrev pub no_rights : Rights
no_rights = record { held = λ t d u. no_access; seen = λ t d. visibility_public }

-- The calls that succeed.
abbrev pub is_accepted : Call → Bool
is_accepted (visibility_call tenant doc v) = is_visibility v && not (missing2 tenant doc)
is_accepted (grant_call now tenant doc user valid_from valid_to) =
    not (missing3 tenant doc user) && not (bad_range valid_from valid_to)
is_accepted (revoke_call tenant doc user) = not (missing3 tenant doc user)
is_accepted (revoke_all_call tenant user) = not (missing2 tenant user)

-- What a call that succeeds makes of the rights. A grant also ends the expired grants of its document.
abbrev pub changed : Rights → Call → Rights
changed r (visibility_call tenant doc v) = record r {
  seen = λ t d. if tenant == t && doc == d then v else r.seen t d;
}
changed r (grant_call now tenant doc user valid_from valid_to) = record r {
  held = λ t d u.
      if tenant == t && doc == d
      then if user == u
        then granted valid_to
        else ((r.held t d u).0, unexpired now (r.held t d u).1)
      else r.held t d u;
}
changed r (revoke_call tenant doc user) = record r {
  held = λ t d u. if tenant == t && doc == d && user == u then no_access else r.held t d u;
}
changed r (revoke_all_call tenant user) = record r {
  held = λ t d u. if tenant == t && user == u then no_access else r.held t d u;
}

abbrev pub rights_after : List Call → Rights → Rights
rights_after [] r = r
rights_after (c ∷ cs) r = rights_after cs (if is_accepted c then changed r c else r)

-- A store shows the rights that its reads give.
pub record Shows (s : InMemoryStore) (r : Rights) : Type 0 where
  pub shown_held : (t d u : String) → access s t d u ≡ r.held t d u
  pub shown_seen : (t d : String) → visibility_of_locked s t d ≡ r.seen t d

perform-accepted : (s s' : InMemoryStore) (c : Call) → perform s c ≡ ok s' → is_accepted c ≡ true
unfolding perform
perform-accepted s s' (visibility_call tenant doc v) e =
    let (known, given, _, _) = visibility-set_visibility s s' tenant doc v tenant doc "" e in
    ground (arith, known, given)
perform-accepted s s' (grant_call now tenant doc user valid_from valid_to) e =
    let (given, in_order, _) =
      access-grant now s s' tenant doc user valid_from valid_to tenant doc user e in
    rw (given, in_order)
perform-accepted s s' (revoke_call tenant doc user) e =
    let (given, _) = access-revoke s s' tenant doc user tenant doc user e in rw given
perform-accepted s s' (revoke_all_call tenant user) e =
    let (given, _) = access-revoke_all_user s s' tenant user tenant "" user e in rw given

perform-refused :
    (s : InMemoryStore) (c : Call) (x : AclError) → perform s c ≡ err x → is_accepted c ≡ false
unfolding perform set_visibility grant revoke revoke_all_user validate_grant_args
perform-refused s (visibility_call tenant doc v) x e = ground arith
perform-refused s (grant_call now tenant doc user valid_from valid_to) x e = ground arith
perform-refused s (revoke_call tenant doc user) x e = ground arith
perform-refused s (revoke_all_call tenant user) x e = ground arith

visibility-revoke :
    (s s' : InMemoryStore) (tenant doc user : String)
    → revoke s tenant doc user ≡ ok s'
    → (t d : String) → visibility_of_locked s' t d ≡ visibility_of_locked s t d
unfolding revoke visibility_of_locked
visibility-revoke s s' tenant doc user e t d =
    let (_, done) = guard_ok (missing3 tenant doc user) id_required _ e in
    rw (← ok-injective done) refl

visibility-revoke_all_user :
    (s s' : InMemoryStore) (tenant user : String)
    → revoke_all_user s tenant user ≡ ok s'
    → (t d : String) → visibility_of_locked s' t d ≡ visibility_of_locked s t d
unfolding revoke_all_user visibility_of_locked
visibility-revoke_all_user s s' tenant user e t d =
    let (_, done) = guard_ok (missing2 tenant user) id_required _ e in rw (← ok-injective done) refl

perform-Shows :
    (s s' : InMemoryStore) (r : Rights) (c : Call)
    → perform s c ≡ ok s'
    → Shows s r
    → Shows s' (changed r c)
unfolding perform
perform-Shows s s' r (visibility_call tenant doc v) e h = record {
  shown_held = λ t d u.
      let (_, _, _, same) = visibility-set_visibility s s' tenant doc v t d u e in
      same ∙ h.shown_held t d u;
  shown_seen = λ t d.
      let (_, _, seen, _) = visibility-set_visibility s s' tenant doc v t d "" e in
      rw (h.shown_seen t d) at seen;
}
perform-Shows s s' r (grant_call now tenant doc user valid_from valid_to) e h = record {
  shown_held = λ t d u.
      let (_, _, held) = access-grant now s s' tenant doc user valid_from valid_to t d u e in
      held
      ∙ ap
          (λ (a : Access).
            if tenant == t && doc == d
            then if user == u then granted valid_to else (a.0, unexpired now a.1)
            else a)
          (h.shown_held t d u);
  shown_seen =
      λ t d. visibility-grant now s s' tenant doc user valid_from valid_to e t d ∙ h.shown_seen t d;
}
perform-Shows s s' r (revoke_call tenant doc user) e h = record {
  shown_held = λ t d u.
      let (_, held) = access-revoke s s' tenant doc user t d u e in rw (h.shown_held t d u) at held;
  shown_seen = λ t d. visibility-revoke s s' tenant doc user e t d ∙ h.shown_seen t d;
}
perform-Shows s s' r (revoke_all_call tenant user) e h = record {
  shown_held = λ t d u.
      let (_, held) = access-revoke_all_user s s' tenant user t d u e in
      rw (h.shown_held t d u) at held;
  shown_seen = λ t d. visibility-revoke_all_user s s' tenant user e t d ∙ h.shown_seen t d;
}

after-Shows :
    (cs : List Call) (s : InMemoryStore) (r : Rights)
    → Shows s r
    → Shows (after cs s) (rights_after cs r)
unfolding after kept
after-Shows [] s r h = h
after-Shows (c ∷ cs) s r h = elim (Result-cases (perform s c)) [
  | inl (s', e) ↦
      rw (e, after, perform-accepted s s' c e)
        (after-Shows cs s' (changed r c) (perform-Shows s s' r c e h))
  | inr (x, e) ↦ rw (e, after, perform-refused s c x e) (after-Shows cs s r h)
]

-- The store in memory refines its specification: after any history of writes to an empty store,
-- failed ones included, its reads give every user's rights as the specification has them, in which a
-- call with bad arguments changes nothing.
pub after-refines :
    (cs : List Call) → Shows (after cs new_in_memory_store) (rights_after cs no_rights)
after-refines cs = after-Shows cs new_in_memory_store no_rights (record {
  shown_held = λ t d u. unfold user_of users_of get in refl;
  shown_seen = λ t d. unfold visibility_of_locked get in refl;
})
