-- ===== src/Acl/RedisStore/Check.antt =====
-- redis_store.go: CheckBatch, on a server that answers and on one that does not.
use text.Mathlib.Text.{◌==◌ as str_eq}
use novagate.Base.{
  ◌≡◌, refl, ap, ◌∙◌, String, Bool, true, false, not, ◌&&◌, ◌||◌, Option, none, some, List, ok, err,
  arith, inl, inr, Bool-cases,
}
use novagate.Base.Int.{ℤ, ltb_ℤ}
use novagate.Base.Key.{◌==◌, string_key}
use novagate.Acl.Model.{Time, visibility_public, visibility_restricted, missing2, or_now}
use novagate.Acl.Docs.{keep_if, contains, contains-keep_if}
use novagate.Acl.RedisServer.{RedisError, Redis, IsRedis, IsUp}
use novagate.Acl.RedisStore.{
  unix, key_visibility, key_user_permanent, key_user_expiring, visibility_from_cmd, said_yes,
  lies_before, is_allowed_restricted, is_allowed, check_batch,
}
use novagate.Acl.RedisStore.Effect.{Held, held}

-- Only the text "restricted" restricts.
abbrev pub is_restricted : Option String → Bool
is_restricted none = false
is_restricted (some vv) = str_eq vv visibility_restricted

abbrev pub ends_after : ℤ → Option ℤ → Bool
ends_after now none = false
ends_after now (some score) = ltb_ℤ now score

abbrev pub permits_held : Option String → Held → ℤ → Bool
permits_held v a now = not (is_restricted v) || a.0 || ends_after now a.1

visibility_lem :
    (v : Option String)
    → str_eq (visibility_from_cmd (ok v)) visibility_public ≡ not (is_restricted v)
unfolding visibility_from_cmd
visibility_lem none = refl
visibility_lem (some vv) = elim (Bool-cases (str_eq vv visibility_restricted)) [
  | inl same ↦ rw (same, visibility_from_cmd)
  | inr other ↦ rw (other, visibility_from_cmd)
]

restricted_lem :
    (b : Bool) (x : Option ℤ) (now : ℤ)
    → is_allowed_restricted (ok b) (ok x) now ≡ (b || ends_after now x)
unfolding is_allowed_restricted said_yes lies_before
restricted_lem true x now = refl
restricted_lem false none now = refl
restricted_lem false (some score) now = refl

module _ (r : Redis) (prefix : String) where
  named_and_allowed :
      (p : String → Bool) (docs : List String) (d : String)
      → contains (keep_if p (keep_if (λ x. not (str_eq x "")) docs)) d
        ≡ (contains docs d && (not (d == "") && p d))
  named_and_allowed p docs d =
      contains-keep_if p (keep_if (λ x. not (str_eq x "")) docs) d
      ∙ ap (λ b. b && p d) (contains-keep_if (λ x. not (str_eq x "")) docs d)
      ∙ ground arith

  is_allowed-IsUp :
      (law : IsRedis r) (s : r.Server) (tenant user : String) (now : ℤ) (d : String)
      → IsUp r law s
      → is_allowed r prefix s tenant user now d
        ≡ permits_held
            ((law.holds s).text (key_visibility prefix tenant d))
            (held prefix (law.holds s) tenant d user)
            now
  unfolding is_allowed
  is_allowed-IsUp law s tenant user now d up =
      rw
        (
          up.texts (key_visibility prefix tenant d),
          up.sets (key_user_permanent prefix tenant user) d,
          up.scores (key_user_expiring prefix tenant user) d,
        )
        (rw
          (
            visibility_lem ((law.holds s).text (key_visibility prefix tenant d)),
            restricted_lem ((law.holds s).has (key_user_permanent prefix tenant user) d)
                ((law.holds s).score (key_user_expiring prefix tenant user) d) now,
          )
          (ground arith))

  -- On a Redis server that answers, with both ids given, CheckBatch returns a list, and a document is
  -- in it exactly when it was asked for, is not empty, and is permitted: its visibility is not
  -- restricted, or the user's keys hold a permanent grant, or one whose end lies in a later second
  -- than the time given (the clock's, if that is zero).
  pub check_batch-IsUp :
      (law : IsRedis r) (clock : Time) (s : r.Server) (tenant user : String) (docs : List String)
      (now : Time)
      → IsUp r law s
      → missing2 tenant user ≡ false
      → (allowed : List String) × (check_batch r prefix clock s tenant user docs now ≡ some allowed)
        × ((d : String)
            → contains allowed d ≡ (
                contains docs d
                && (not (d == "")
                    && permits_held
                        ((law.holds s).text (key_visibility prefix tenant d))
                        (held prefix (law.holds s) tenant d user)
                        (unix (or_now clock now)))))
  unfolding check_batch
  check_batch-IsUp law clock s tenant user docs now up given =
      let p = is_allowed r prefix s tenant user (unix (or_now clock now)) in
      rw given (
        keep_if p (keep_if (λ x. not (str_eq x "")) docs),
        refl,
        λ d.
            named_and_allowed p docs d
            ∙ ap (λ b. contains docs d && (not (d == "") && b))
                (is_allowed-IsUp law s tenant user (unix (or_now clock now)) d up),
      )

  -- Where every read of a visibility fails, CheckBatch allows every document that was asked for and has
  -- a name, to any user of the tenant, whatever the grants are: an outage of Redis fails open.
  pub check_batch_down :
      (clock : Time) (s : r.Server) (tenant user : String) (docs : List String) (now : Time)
      (e : RedisError)
      → ((k : String) → r.read_string s k ≡ err e)
      → missing2 tenant user ≡ false
      → (allowed : List String) × (check_batch r prefix clock s tenant user docs now ≡ some allowed)
        × ((d : String) → contains allowed d ≡ (contains docs d && not (d == "")))
  unfolding check_batch is_allowed visibility_from_cmd
  check_batch_down clock s tenant user docs now e down given =
      let p = is_allowed r prefix s tenant user (unix (or_now clock now)) in
      rw given (
        keep_if p (keep_if (λ x. not (str_eq x "")) docs),
        refl,
        λ d.
            let yes : p d ≡ true = rw (down (key_visibility prefix tenant d)) refl in
            named_and_allowed p docs d ∙ ground (arith, yes),
      )
