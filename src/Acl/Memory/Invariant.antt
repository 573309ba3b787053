-- ===== src/Acl/Memory/Invariant.antt =====
-- inmemory_store.go: what every history of calls keeps, from an empty store.
use novagate.Base.{
  String, ◌≡◌, refl, ap, ◌∙◌, Bool, true, false, Option, none, some, List, [], ◌∷◌, Result, ok, err,
  arith,
}
use novagate.Base.Key.{get, string_key}
use novagate.Acl.Model.{Time, Visibility, AclError}
use novagate.Acl.Nested.{users_of, user_of}
use novagate.Acl.Nested.Laws.{unexpired}
use novagate.Acl.Memory.{
  InMemoryStore, new_in_memory_store, set_visibility, grant, revoke, revoke_all_user,
}
use novagate.Acl.Memory.Effect.{
  Access, access, granted, access-grant, access-revoke, access-revoke_all_user,
  visibility-set_visibility,
}

-- The writes of the store's interface, with the clock's reading where the call takes one.
pub data Call : Type 0 where
  visibility_call : String → String → Visibility → Call
  grant_call : Time → String → String → String → Time → Option Time → Call
  revoke_call : String → String → String → Call
  revoke_all_call : String → String → Call

unfoldable pub perform : InMemoryStore → Call → Result AclError InMemoryStore
perform s (visibility_call tenant doc v) = set_visibility s tenant doc v
perform s (grant_call now tenant doc user valid_from valid_to) =
    grant now s tenant doc user valid_from valid_to
perform s (revoke_call tenant doc user) = revoke s tenant doc user
perform s (revoke_all_call tenant user) = revoke_all_user s tenant user

unfoldable pub kept : InMemoryStore → Result AclError InMemoryStore → InMemoryStore
kept s (ok s') = s'
kept s (err e) = s

-- The store after a history of calls; one that fails leaves it as it was.
unfoldable pub after : List Call → InMemoryStore → InMemoryStore
unfolding kept
after [] s = s
after (c ∷ cs) s = after cs (kept s (perform s c))

-- Something that holds at first and that each successful call keeps holds after every history.
module _ {ℓ} (P : InMemoryStore → Type ℓ) where
  kept_keeps :
      (s : InMemoryStore) (r : Result AclError InMemoryStore)
      → P s
      → ((s' : InMemoryStore) → r ≡ ok s' → P s')
      → P (kept s r)
  unfolding kept
  kept_keeps s (ok s') h keeps = keeps s' refl
  kept_keeps s (err e) h keeps = h

  pub after-invariant :
      (cs : List Call) (s : InMemoryStore)
      → ((r r' : InMemoryStore) (c : Call) → perform r c ≡ ok r' → P r → P r')
      → P s
      → P (after cs s)
  unfolding after
  after-invariant [] s keeps h = h
  after-invariant (c ∷ cs) s keeps h =
      after-invariant cs (kept s (perform s c)) keeps
        (kept_keeps s (perform s c) h (λ s' e. keeps s s' c e h))

-- Never both a permanent and an expiring grant.
abbrev pub exclusive : Access → Bool
exclusive (none, e) = true
exclusive (some x, none) = true
exclusive (some x, some v) = false

exclusive-granted : (valid_to : Option Time) → exclusive (granted valid_to) ≡ true
exclusive-granted none = refl
exclusive-granted (some v) = refl

exclusive-unexpired :
    (now : Time) (a : Access) → exclusive a ≡ true → exclusive (a.0, unexpired now a.1) ≡ true
exclusive-unexpired now (none, e) h = refl
exclusive-unexpired now (some x, none) h = refl
exclusive-unexpired now (some x, some v) h = ground arith

exclusive-perform :
    (t d u : String) (s s' : InMemoryStore) (c : Call)
    → perform s c ≡ ok s'
    → exclusive (access s t d u) ≡ true
    → exclusive (access s' t d u) ≡ true
unfolding perform
exclusive-perform t d u s s' (visibility_call tenant doc v) e h =
    let (_, _, _, same) = visibility-set_visibility s s' tenant doc v t d u e in
    ap exclusive same ∙ h
exclusive-perform t d u s s' (grant_call now tenant doc user valid_from valid_to) e h =
    let (_, _, same) = access-grant now s s' tenant doc user valid_from valid_to t d u e in
    ap exclusive same
    ∙ ground (arith, exclusive-granted valid_to, exclusive-unexpired now (access s t d u) h, h)
exclusive-perform t d u s s' (revoke_call tenant doc user) e h =
    let (_, same) = access-revoke s s' tenant doc user t d u e in
    ap exclusive same ∙ ground (arith, h)
exclusive-perform t d u s s' (revoke_all_call tenant user) e h =
    let (_, same) = access-revoke_all_user s s' tenant user t d u e in
    ap exclusive same ∙ ground (arith, h)

-- Through any history of writes to an empty store, failed ones included, no user ever holds both a
-- permanent and an expiring grant of the same document.
pub exclusive-after :
    (cs : List Call) (t d u : String)
    → exclusive (access (after cs new_in_memory_store) t d u) ≡ true
exclusive-after cs t d u =
    after-invariant (λ s. exclusive (access s t d u) ≡ true) cs new_in_memory_store
      (exclusive-perform t d u) (unfold user_of users_of get in refl)
