-- ===== src/Acl/RedisStore/Effect.antt =====
-- redis_store.go: what its writes leave on the server, on the keys that CheckBatch and ListGrants read.
use novagate.Base.{
  [], ◌∷◌, ◌≡◌, refl, sym, ap, ◌∙◌, String, Bool, true, false, Option, none, some, List, ok, err,
  arith, All, guard_else,
}
use novagate.Base.Int.{ℤ}
use novagate.Base.Key.{beq_refl, string_key}
use novagate.Acl.Model.{Time, id_required, invalid_range, missing3, bad_range}
use novagate.Acl.RedisServer.{
  some_of, RedisError, Command, Redis, IsRedis, Keyspace, effect, effects,
}
use novagate.Acl.RedisStore.{
  refused, unix, key_user_permanent, key_user_expiring, grant_commands, cleanup_commands,
  revoke_commands, reply, and_clean, grant, revoke,
}

-- A user's grants of a document, as the user's keys hold them.
abbrev pub Held : Type 0
Held = Bool × Option ℤ

abbrev pub held : String → Keyspace → String → String → String → Held
held prefix h tenant doc user = (
  h.has (key_user_permanent prefix tenant user) doc,
  h.score (key_user_expiring prefix tenant user) doc,
)

abbrev pub granted : Option Time → Held
granted none = (true, none)
granted (some valid_to) = (false, some (unix valid_to))

module _ (prefix : String) (clock : Time) (h : Keyspace) (tenant doc user : String) where
  held-grant_commands :
      (valid_to : Option Time)
      → held prefix
          (effects (grant_commands prefix clock tenant doc user valid_to) h)
          tenant
          doc
          user
        ≡ granted valid_to
  unfolding effects effect grant_commands
  held-grant_commands none =
      rw
        (
          beq_refl (key_user_permanent prefix tenant user),
          beq_refl (key_user_expiring prefix tenant user),
          beq_refl doc,
        )
        (ground arith)
  held-grant_commands (some v) =
      rw
        (
          beq_refl (key_user_permanent prefix tenant user),
          beq_refl (key_user_expiring prefix tenant user),
          beq_refl doc,
        )
        (ground arith)

  held-revoke_commands :
      held prefix (effects (revoke_commands prefix tenant doc user) h) tenant doc user
      ≡ (false, none)
  unfolding effects effect revoke_commands
  held-revoke_commands =
      rw
        (
          beq_refl (key_user_permanent prefix tenant user),
          beq_refl (key_user_expiring prefix tenant user),
          beq_refl doc,
        )
        (ground arith)

module _ (prefix tenant doc user : String) (g : Held) where
  -- A command that leaves the user's grant of the document as it is.
  abbrev Leaves : Command → Type 0
  Leaves c =
      (h : Keyspace)
      → held prefix h tenant doc user ≡ g
      → held prefix (effect c h) tenant doc user ≡ g

  held-some_of :
      (mask : List Bool) (cs : List Command) (h : Keyspace)
      → All Leaves cs
      → held prefix h tenant doc user ≡ g
      → held prefix (effects (some_of mask cs) h) tenant doc user ≡ g
  unfolding effects some_of
  held-some_of [] cs h leaves e = e
  held-some_of (b ∷ mask) [] h leaves e = e
  held-some_of (true ∷ mask) (c ∷ cs) h leaves e =
      held-some_of mask cs (effect c h) leaves.1 (leaves.0 h e)
  held-some_of (false ∷ mask) (c ∷ cs) h leaves e = held-some_of mask cs h leaves.1 e

-- The second pipeline takes nothing away that was granted, whichever of its commands have an effect.
cleanup_commands-Leaves :
    (prefix tenant doc user : String) (valid_to : Option Time)
    → All
        (Leaves prefix tenant doc user (granted valid_to))
        (cleanup_commands prefix tenant doc user valid_to)
unfolding effect cleanup_commands
cleanup_commands-Leaves prefix tenant doc user none =
    (λ h e. ground arith, (λ h e. ground arith, tt))
cleanup_commands-Leaves prefix tenant doc user (some v) =
    (λ h e. ground arith, (λ h e. ground arith, tt))

module _ (r : Redis) (prefix : String) (law : IsRedis r) where
  and_clean_inv :
      (p : r.Server × Option RedisError) (s' : r.Server) (clean : List Command)
      → and_clean r prefix p clean ≡ (ok tt, s')
      → (t : r.Server) × (p ≡ (t, none)) × ((r.exec t clean).0 ≡ s')
  unfolding and_clean
  and_clean_inv (t, none) s' clean e = (t, refl, ap (λ q. q.1) e)
  and_clean_inv (t, some x) s' clean e = cc

  reply_inv :
      (p : r.Server × Option RedisError) (s' : r.Server) → reply p ≡ (ok tt, s') → p ≡ (s', none)
  reply_inv (t, none) s' e = ap (λ q. (q.1, none)) e
  reply_inv (t, some x) s' e = cc

  and_clean_ok :
      (s s' : r.Server) (cs clean : List Command)
      → and_clean r prefix (r.exec s cs) clean ≡ (ok tt, s')
      → (mask : List Bool) × (law.holds s'
          ≡ effects (some_of mask clean) (effects cs (law.holds s)))
  and_clean_ok s s' cs clean e =
      let (t, done, cleaned) = and_clean_inv (r.exec s cs) s' clean e in
      let (mask, front) = law.exec_some t clean in
      (
        mask,
        ap law.holds (sym cleaned)
            ∙ front
            ∙ ap (effects (some_of mask clean)) (law.exec_ok s t cs done),
      )

  reply_ok :
      (s s' : r.Server) (cs : List Command)
      → reply (r.exec s cs) ≡ (ok tt, s')
      → law.holds s' ≡ effects cs (law.holds s)
  reply_ok s s' cs e = law.exec_ok s s' cs (reply_inv (r.exec s cs) s' e)

  -- On a server that keeps Redis's documented effects, a grant that succeeds had all three ids and no
  -- reversed range, and leaves on the user's own keys exactly what was granted on the document,
  -- permanently or until the end's second, whatever they held before and however the second pipeline
  -- fares.
  pub held-grant :
      (clock : Time) (s s' : r.Server) (tenant doc user : String) (valid_from : Time)
      (valid_to : Option Time)
      → grant r prefix clock s tenant doc user valid_from valid_to ≡ (ok tt, s')
      → (missing3 tenant doc user ≡ false)
        × (bad_range valid_from valid_to ≡ false)
        × (held prefix (law.holds s') tenant doc user ≡ granted valid_to)
  unfolding grant
  held-grant clock s s' tenant doc user valid_from valid_to e =
      let h = law.holds s in
      let (given, rest) =
        guard_else (missing3 tenant doc user) (err (refused id_required), s) _ (λ p. cc) e in
      let (in_order, sent) =
        guard_else (bad_range valid_from valid_to) (err (refused invalid_range), s) _ (λ p. cc)
          rest in
      let (mask, left) =
        and_clean_ok s s' (grant_commands prefix clock tenant doc user valid_to)
          (cleanup_commands prefix tenant doc user valid_to) sent in
      (
        given,
        in_order,
        rw left (
            held-some_of prefix tenant doc user (granted valid_to) mask
              (cleanup_commands prefix tenant doc user valid_to)
              (effects (grant_commands prefix clock tenant doc user valid_to) h)
              (cleanup_commands-Leaves prefix tenant doc user valid_to)
              (held-grant_commands prefix clock h tenant doc user valid_to)),
      )

  -- A revocation that succeeds had all three ids; afterwards the user's own keys hold nothing on the
  -- document.
  pub held-revoke :
      (s s' : r.Server) (tenant doc user : String)
      → revoke r prefix s tenant doc user ≡ (ok tt, s')
      → (missing3 tenant doc user ≡ false)
        × (held prefix (law.holds s') tenant doc user ≡ (false, none))
  unfolding revoke
  held-revoke s s' tenant doc user e =
      let (given, sent) =
        guard_else (missing3 tenant doc user) (err (refused id_required), s) _ (λ p. cc) e in
      (
        given,
        rw (reply_ok s s' (revoke_commands prefix tenant doc user) sent)
            (held-revoke_commands prefix 0 (law.holds s) tenant doc user),
      )
