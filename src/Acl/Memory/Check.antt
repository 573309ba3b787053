-- ===== src/Acl/Memory/Check.antt =====
-- inmemory_store.go: CheckBatch, seen from outside, after each kind of write.
use novagate.Base.{String, ◌≡◌, refl, ap, ◌∙◌, Bool, false, not, ◌&&◌, ◌||◌, some, List, arith}
use novagate.Base.Key.{◌==◌, string_key}
use novagate.Acl.Model.{Time, Visibility, visibility_public, missing2, or_now}
use novagate.Acl.Nested.{is_there}
use novagate.Acl.Docs.{keep_if, contains, contains-keep_if}
use novagate.Acl.Memory.{
  InMemoryStore, visibility_of_locked, has_permanent_grant_locked, is_live,
  has_expiring_grant_locked, is_allowed, check_batch,
}
use novagate.Acl.Memory.Effect.{Access, access}

-- The rule: a public document, a permanent grant, or an expiring one that has not ended.
abbrev pub permits : Visibility → Access → Time → Bool
permits v a now = v == visibility_public || is_there a.0 || is_live now a.1

is_allowed_lem :
    (s : InMemoryStore) (tenant user : String) (now : Time) (d : String)
    → is_allowed s tenant user now d
      ≡ (not (d == "") && permits (visibility_of_locked s tenant d) (access s tenant d user) now)
unfolding is_allowed has_permanent_grant_locked has_expiring_grant_locked
is_allowed_lem s tenant user now d = ground arith

-- With both ids given, CheckBatch returns a list, and a document is in it exactly when it was asked
-- for, is not empty, and is permitted at the time given (the clock's, if that is zero): public,
-- granted permanently, or granted until an end after that time.
pub contains-check_batch :
    (clock : Time) (s : InMemoryStore) (tenant user : String) (docs : List String) (now : Time)
    → missing2 tenant user ≡ false
    → (allowed : List String) × (check_batch clock s tenant user docs now ≡ some allowed)
      × ((d : String)
          → contains allowed d ≡ (
              contains docs d
              && (not (d == "")
                  && permits
                      (visibility_of_locked s tenant d)
                      (access s tenant d user)
                      (or_now clock now))))
unfolding check_batch
contains-check_batch clock s tenant user docs now given =
    let p = is_allowed s tenant user (or_now clock now) in
    rw given (
      keep_if p docs,
      refl,
      λ d.
          contains-keep_if p docs d
          ∙ ap (λ b. contains docs d && b) (is_allowed_lem s tenant user (or_now clock now) d),
    )
