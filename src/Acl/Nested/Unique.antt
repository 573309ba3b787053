-- ===== src/Acl/Nested/Unique.antt =====
-- The maps of inmemory_store.go hold one entry per key.
use novagate.Base.{
  String, ◌≡◌, refl, ap, ◌∙◌, Bool, true, false, not, ◌&&◌, [], ◌∷◌, arith, Option-cases, inl, inr,
}
use novagate.Base.Key.{GoMap, get, put, delete, get-put, get-delete, string_key}
use novagate.Acl.Nested.{
  Users, Docs, Tenants, is_there, or_empty, put_users, put_docs, edit_docs, edit_users, add_user,
  revoke_docs, revoke_user, users_of,
}
use novagate.Acl.Nested.Laws.{get-put_docs}

-- No key stands in two entries.
unfoldable pub unique {ℓ} : {V : Type ℓ} → GoMap String V → Bool
unique [] = true
unique ((k, v) ∷ m) = not (is_there (get m k)) && unique m

module _ {ℓ} {V : Type ℓ} where
  unique-put :
      (m : GoMap String V) (k : String) (v : V) → unique m ≡ true → unique (put m k v) ≡ true
  unfolding unique put
  unique-put [] k v h = unfold get in refl
  unique-put ((j, w) ∷ m) k v h =
      ground (
        arith,
        h,
        string_key.beq_iff j k,
        string_key.beq_iff k j,
        get-put m k j v,
        unique-put m k v,
      )

  unique-delete : (m : GoMap String V) (k : String) → unique m ≡ true → unique (delete m k) ≡ true
  unfolding unique delete
  unique-delete [] k h = refl
  unique-delete ((j, w) ∷ m) k h =
      ground (arith, h, string_key.beq_iff j k, get-delete m k j, unique-delete m k)

module _ {V : Type 0} where
  -- The documents of every tenant.
  abbrev pub IsUnique : Tenants V → Type 0
  IsUnique m = (t : String) → unique (or_empty (get m t)) ≡ true

  unique-put_users :
      (docs : Docs V) (doc : String) (users : Users V)
      → unique docs ≡ true
      → unique (put_users docs doc users) ≡ true
  unfolding put_users
  unique-put_users docs doc users h =
      ground (arith, h, unique-put docs doc users, unique-delete docs doc)

  unique-put_docs :
      (m : Tenants V) (tenant : String) (docs : Docs V)
      → IsUnique m
      → unique docs ≡ true
      → IsUnique (put_docs m tenant docs)
  unique-put_docs m tenant docs h k t =
      ap unique (get-put_docs m tenant t docs) ∙ ground (arith, h t, k)

  pub edit_users-IsUnique :
      (f : Users V → Users V) (m : Tenants V) (tenant doc : String)
      → IsUnique m
      → IsUnique (edit_users f m tenant doc)
  unfolding edit_users edit_docs
  edit_users-IsUnique f m tenant doc h = elim (Option-cases (get m tenant)) [
    | inl missing ↦ rw (missing, edit_users) h
    | inr (docs, found) ↦
        let here : unique docs ≡ true = ground (arith, found, h tenant) in
        rw (found, edit_users)
          (unique-put_docs m tenant (edit_docs f doc docs) h (elim (Option-cases (get docs doc)) [
            | inl none_there ↦ rw (none_there, edit_docs) here
            | inr (users, there) ↦ rw (there, edit_docs) (unique-put_users docs doc (f users) here)
          ]))
  ]

  pub add_user-IsUnique :
      (m : Tenants V) (tenant doc user : String) (v : V)
      → IsUnique m
      → IsUnique (add_user m tenant doc user v)
  unfolding add_user
  add_user-IsUnique m tenant doc user v h t =
      let inner = put (users_of m tenant doc) user v in
      let outer = put (or_empty (get m tenant)) doc inner in
      ap (λ ds. unique (or_empty ds)) (get-put m tenant t outer)
      ∙ ground (arith, unique-put (or_empty (get m tenant)) doc inner (h tenant), h t)

  is_there-revoke_docs :
      (docs : Docs V) (user d : String)
      → is_there (get docs d) ≡ false
      → is_there (get (revoke_docs user docs) d) ≡ false
  unfolding revoke_docs put_users get
  is_there-revoke_docs [] user d h = refl
  is_there-revoke_docs ((doc, users) ∷ rest) user d h = ground (
    arith,
    h,
    get-delete ((doc, users) ∷ revoke_docs user rest) doc d,
    get-put ((doc, users) ∷ revoke_docs user rest) doc d (delete users user),
    is_there-revoke_docs rest user d,
  )

  unique-revoke_docs :
      (docs : Docs V) (user : String) → unique docs ≡ true → unique (revoke_docs user docs) ≡ true
  unfolding revoke_docs unique
  unique-revoke_docs [] user h = refl
  unique-revoke_docs ((doc, users) ∷ rest) user h =
      unique-put_users ((doc, users) ∷ revoke_docs user rest) doc (delete users user)
        (ground (arith, h, is_there-revoke_docs rest user doc, unique-revoke_docs rest user))

  pub revoke_user-IsUnique :
      (m : Tenants V) (tenant user : String) → IsUnique m → IsUnique (revoke_user m tenant user)
  unfolding revoke_user
  revoke_user-IsUnique m tenant user h = elim (Option-cases (get m tenant)) [
    | inl missing ↦ rw (missing, revoke_user) h
    | inr (docs, found) ↦
        rw (found, revoke_user)
          (unique-put_docs m tenant (revoke_docs user docs) h
            (unique-revoke_docs docs user (ground (arith, found, h tenant))))
  ]
