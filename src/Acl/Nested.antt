-- ===== src/Acl/Nested.antt =====
-- inmemory_store.go: its maps of maps, tenant to document to user, and the blocks of code that repeat
-- on them. A map that becomes empty is deleted from the map around it.
pub mod Laws
pub mod Unique
use novagate.Base.{String, Bool, true, false, Option, none, some, List, [], ◌∷◌, if◌then◌else◌}
pub use novagate.Base.Key.{is_there}
use novagate.Base.Key.{GoMap, get, put, delete, string_key}
use novagate.Acl.Model.{Time, before}

abbrev pub Users : Type 0 → Type 0
Users V = GoMap String V

abbrev pub Docs : Type 0 → Type 0
Docs V = GoMap String (Users V)

abbrev pub Tenants : Type 0 → Type 0
Tenants V = GoMap String (Docs V)

-- `len(m) == 0`
abbrev pub is_empty {ℓ} : {A : Type ℓ} → List A → Bool
is_empty [] = true
is_empty (x ∷ xs) = false

-- `users := m[k]`, made empty if it is nil.
abbrev pub or_empty {ℓ} : {A : Type ℓ} → Option (List A) → List A
or_empty none = []
or_empty (some xs) = xs

module _ {V : Type 0} where
  -- A nested read: the users of a document, and what is stored for one.
  unfoldable pub users_of : Tenants V → String → String → Users V
  users_of m tenant doc = or_empty (get (or_empty (get m tenant)) doc)

  unfoldable pub user_of : Tenants V → String → String → String → Option V
  unfolding users_of
  user_of m tenant doc user = get (users_of m tenant doc) user

  -- Replace a document's users, or drop the document if none is left.
  unfoldable pub put_users : Docs V → String → Users V → Docs V
  put_users docs doc users = if is_empty users then delete docs doc else put docs doc users

  unfoldable pub put_docs : Tenants V → String → Docs V → Tenants V
  put_docs m tenant docs = if is_empty docs then delete m tenant else put m tenant docs

  edit_docs : (Users V → Users V) → String → Docs V → Docs V
  unfolding put_users
  edit_docs f doc docs = elim (get docs doc) [
    | none ↦ docs
    | some users ↦ put_users docs doc (f users)
  ]

  -- `if docs := m[tenant]; docs != nil { if users := docs[doc]; users != nil { f(users); … } … }`
  unfoldable pub edit_users : (Users V → Users V) → Tenants V → String → String → Tenants V
  unfolding edit_docs put_docs
  edit_users f m tenant doc = elim (get m tenant) [
    | none ↦ m
    | some docs ↦ put_docs m tenant (edit_docs f doc docs)
  ]

  unfoldable pub remove_user : Tenants V → String → String → String → Tenants V
  remove_user m tenant doc user = edit_users (λ users. delete users user) m tenant doc

  -- `docs` and `users` are made if they are nil, and the user is written.
  unfoldable pub add_user : Tenants V → String → String → String → V → Tenants V
  unfolding users_of
  add_user m tenant doc user v =
      put m tenant (put (or_empty (get m tenant)) doc (put (users_of m tenant doc) user v))

  -- The loop of RevokeAllUser over the documents; a map may be shortened while it is ranged over.
  revoke_docs : String → Docs V → Docs V
  unfolding put_users
  revoke_docs user [] = []
  revoke_docs user ((doc, users) ∷ rest) =
      put_users ((doc, users) ∷ revoke_docs user rest) doc (delete users user)

  unfoldable pub revoke_user : Tenants V → String → String → Tenants V
  unfolding revoke_docs put_docs
  revoke_user m tenant user = elim (get m tenant) [
    | none ↦ m
    | some docs ↦ put_docs m tenant (revoke_docs user docs)
  ]

-- The loop of Grant's cleanup over the users of a document.
unfoldable pub purge : Time → Users Time → Users Time
purge now [] = []
purge now ((user, expire_time) ∷ rest) =
    let left = purge now rest in
    if before expire_time now
    then delete ((user, expire_time) ∷ left) user
    else (user, expire_time) ∷ left
