-- ===== src/Acl/Nested/Laws.antt =====
-- Reads after writes on the nested maps of inmemory_store.go.
use novagate.Base.{
  String, ◌≡◌, refl, ap, ◌∙◌, ◌&&◌, Option, none, some, [], ◌∷◌, arith, Option-cases, inl, inr,
  if◌then◌else◌,
}
use novagate.Base.Key.{◌==◌, get, put, delete, get-put, get-delete, get-nil, get-cons, string_key}
use novagate.Acl.Model.{Time, before}
use novagate.Acl.Nested.{
  Users, Docs, Tenants, or_empty, users_of, user_of, put_users, put_docs, edit_docs, edit_users,
  remove_user, add_user, revoke_docs, revoke_user, purge,
}

module _ {V : Type 0} where
  get-put_users :
      (docs : Docs V) (doc d : String) (users : Users V)
      → or_empty (get (put_users docs doc users) d)
        ≡ (if doc == d then users else or_empty (get docs d))
  unfolding put_users
  get-put_users docs doc d [] = ground (arith, get-delete docs doc d)
  get-put_users docs doc d (x ∷ users) = ground (arith, get-put docs doc d (x ∷ users))

  pub get-put_docs :
      (m : Tenants V) (tenant t : String) (docs : Docs V)
      → or_empty (get (put_docs m tenant docs) t)
        ≡ (if tenant == t then docs else or_empty (get m t))
  unfolding put_docs
  get-put_docs m tenant t [] = ground (arith, get-delete m tenant t)
  get-put_docs m tenant t (x ∷ docs) = ground (arith, get-put m tenant t (x ∷ docs))

  get-edit_docs :
      (f : Users V → Users V) (docs : Docs V) (doc d : String)
      → f [] ≡ []
      → or_empty (get (edit_docs f doc docs) d)
        ≡ (if doc == d then f (or_empty (get docs d)) else or_empty (get docs d))
  unfolding edit_docs
  get-edit_docs f docs doc d h = elim (Option-cases (get docs doc)) [
    | inl missing ↦ rw (missing, edit_docs) (ground (arith, missing, h, string_key.beq_iff doc d))
    | inr (users, found) ↦
        rw (found, edit_docs)
          (get-put_users docs doc d (f users) ∙ ground (arith, found, string_key.beq_iff doc d))
  ]

  users_of-edit :
      (f : Users V → Users V) (m : Tenants V) (tenant doc t d : String)
      → f [] ≡ []
      → users_of (edit_users f m tenant doc) t d
        ≡ (if tenant == t && doc == d then f (users_of m t d) else users_of m t d)
  unfolding users_of edit_users
  users_of-edit f m tenant doc t d h = elim (Option-cases (get m tenant)) [
    | inl missing ↦
        rw (missing, edit_users)
          (unfold get in
            ground (arith, missing, h, string_key.beq_iff tenant t, string_key.beq_iff doc d))
    | inr (docs, found) ↦
        rw (found, edit_users)
          (ap (λ ds. or_empty (get ds d)) (get-put_docs m tenant t (edit_docs f doc docs))
            ∙ ground (
              arith,
              found,
              get-edit_docs f docs doc d h,
              string_key.beq_iff tenant t,
              string_key.beq_iff doc d,
            ))
  ]

  pub user_of-remove :
      (m : Tenants V) (tenant doc user t d u : String)
      → user_of (remove_user m tenant doc user) t d u
        ≡ (if tenant == t && doc == d && user == u then none else user_of m t d u)
  unfolding user_of remove_user
  user_of-remove m tenant doc user t d u =
      ap (λ us. get us u)
        (users_of-edit (λ us. delete us user) m tenant doc t d (unfold delete in refl))
      ∙ ground (arith, get-delete (users_of m t d) user u)

  users_of-add :
      (m : Tenants V) (tenant doc user t d : String) (v : V)
      → users_of (add_user m tenant doc user v) t d
        ≡ (if tenant == t && doc == d then put (users_of m t d) user v else users_of m t d)
  unfolding add_user users_of
  users_of-add m tenant doc user t d v =
      let inner = put (users_of m tenant doc) user v in
      let outer = put (or_empty (get m tenant)) doc inner in
      ap (λ ds. or_empty (get (or_empty ds) d)) (get-put m tenant t outer)
      ∙ ground (
        arith,
        get-put (or_empty (get m tenant)) doc d inner,
        string_key.beq_iff tenant t,
        string_key.beq_iff doc d,
      )

  pub user_of-add :
      (m : Tenants V) (tenant doc user t d u : String) (v : V)
      → user_of (add_user m tenant doc user v) t d u
        ≡ (if tenant == t && doc == d && user == u then some v else user_of m t d u)
  unfolding user_of
  user_of-add m tenant doc user t d u v =
      ap (λ us. get us u) (users_of-add m tenant doc user t d v)
      ∙ ground (arith, get-put (users_of m t d) user u v)

  get-revoke_docs :
      (docs : Docs V) (user d u : String)
      → get (or_empty (get (revoke_docs user docs) d)) u
        ≡ (if user == u then none else get (or_empty (get docs d)) u)
  unfolding revoke_docs
  get-revoke_docs [] user d u = ground (arith, get-nil {V = Users V} d, get-nil {V = V} u)
  get-revoke_docs ((doc, users) ∷ rest) user d u =
      ap (λ us. get us u)
        (get-put_users ((doc, users) ∷ revoke_docs user rest) doc d (delete users user))
      ∙ ground (
        arith,
        get-cons (revoke_docs user rest) doc d users,
        get-cons rest doc d users,
        get-delete users user u,
        get-revoke_docs rest user d u,
      )

  pub user_of-revoke :
      (m : Tenants V) (tenant user t d u : String)
      → user_of (revoke_user m tenant user) t d u
        ≡ (if tenant == t && user == u then none else user_of m t d u)
  unfolding user_of users_of revoke_user
  user_of-revoke m tenant user t d u = elim (Option-cases (get m tenant)) [
    | inl missing ↦
        rw (missing, revoke_user)
          (ground (
            arith,
            missing,
            get-nil {V = Users V} d,
            get-nil {V = V} u,
            string_key.beq_iff tenant t,
          ))
    | inr (docs, found) ↦
        rw (found, revoke_user)
          (ap (λ ds. get (or_empty (get ds d)) u) (get-put_docs m tenant t (revoke_docs user docs))
            ∙ ground (arith, found, get-revoke_docs docs user d u, string_key.beq_iff tenant t))
  ]

-- What is left of an entry by Grant's cleanup.
abbrev pub unexpired : Time → Option Time → Option Time
unexpired now none = none
unexpired now (some t) = if before t now then none else some t

get-purge :
    (now : Time) (users : Users Time) (u : String)
    → get (purge now users) u ≡ unexpired now (get users u)
unfolding purge
get-purge now [] u = ground (arith, get-nil {V = Time} u)
get-purge now ((user, t) ∷ rest) u = ground (
  arith,
  get-delete ((user, t) ∷ purge now rest) user u,
  get-cons (purge now rest) user u t,
  get-cons rest user u t,
  get-purge now rest u,
)

-- Grant's cleanup of one document, read by read.
pub user_of-purge :
    (m : Tenants Time) (now : Time) (tenant doc t d u : String)
    → user_of (edit_users (purge now) m tenant doc) t d u
      ≡ (if tenant == t && doc == d then unexpired now (user_of m t d u) else user_of m t d u)
unfolding user_of
user_of-purge m now tenant doc t d u =
    ap (λ us. get us u) (users_of-edit (purge now) m tenant doc t d (unfold purge in refl))
    ∙ ground (arith, get-purge now (users_of m t d) u)
